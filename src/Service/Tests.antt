-- ===== src/Service/Tests.antt =====
-- The theorems on the whole service at concrete inputs, with a radio and threads that never fail.
use esphome_linux.Base.{
  ℕ, ◌+◌, ◌-◌, ◌≡◌, ◌⊎◌, refl, Bool, true, false, none, some, List, [], ◌∷◌, arith, length,
}
use esphome_linux.Plugin.{Context}
use esphome_linux.Api.Server.{World, System, esphome_api_init}
use esphome_linux.Api.Handlers.{dispatch_message}
use esphome_linux.Api.Connections.Descriptors.{Descriptors}
use esphome_linux.Daemon.{Host, main}
use esphome_linux.Daemon.Shutdown.{AllClosed, HostLaws, here}
use esphome_linux.Daemon.SocketList.{system, is_open, laws, new_socket, new_socket-Opens}
use esphome_linux.Proxy.{BleReport}
use esphome_linux.Scanner.Control.{Driver}
use esphome_linux.Service.{
  Outside, ProxyHost, with_rest, system_outside, handle_message_callback, bluetooth_proxy_plugin,
  Event, message, report, flush,
}
use esphome_linux.Service.Radio.{Unseen}
use esphome_linux.Service.Unseen.{RadioUnseen}
use esphome_linux.Service.Registered.{registered, dispatch_message-handle_message}
use esphome_linux.Service.Sockets.{is_open_outside, outside_laws, main-proxy}

-- Whether the radio scans, the number of the scanner's threads, and the open sockets.
record Machine : Type 0 where
  scanning : Bool
  threads : ℕ
  fds : List ℕ

abbrev machine_system : System Machine
machine_system = record {
  send = λ fd bytes m. (some (length bytes), m);
  close = λ fd m. record m { fds = system.close fd m.fds };
  shutdown = λ fd m. m;
}

abbrev driver : Driver Machine
driver = record {
  calloc = λ m. (true, m);
  free = λ m. m;
  create_transport = λ m. (some true, m);
  delete_transport = λ m. m;
  new_scanner = λ m. (true, m);
  delete_scanner = λ m. m;
  start = λ m. (true, record m { scanning = true });
  stop = λ m. record m { scanning = false };
  pthread_create = λ t m. (0, record m { threads = m.threads + 1 });
  pthread_join = λ t m. record m { threads = m.threads - 1 };
}

abbrev proxy_host : ProxyHost Machine
proxy_host = record {
  state_address = 4096;
  calloc = λ m. (true, m);
  clock_gettime = λ m. (5, m);
  create_flush_thread = λ m. (0, m);
  join_flush_thread = λ m. m;
}

abbrev scans : Machine → Bool
scans m = m.scanning

abbrev threads : Machine → ℕ
threads m = m.threads

abbrev opens : Machine → ℕ → Bool
opens m x = is_open m.fds x

unseen : {A : Type 0} (f : Machine → A) → Unseen machine_system driver proxy_host f
unseen f = record {
  send = λ fd bytes m. refl;
  host_calloc = λ m. refl;
  clock_gettime = λ m. refl;
  create_flush_thread = λ m. refl;
  join_flush_thread = λ m. refl;
  calloc = λ m. refl;
  free = λ m. refl;
  create_transport = λ m. refl;
  delete_transport = λ m. refl;
  new_scanner = λ m. refl;
  delete_scanner = λ m. refl;
}

radio_unseen : (x : ℕ) → RadioUnseen driver (λ m. opens m x)
radio_unseen x = record {
  start = λ m. refl;
  stop = λ m. refl;
  pthread_create = λ t m. refl;
  pthread_join = λ t m. refl;
}

sockets_laws : Descriptors machine_system opens
sockets_laws = record {
  close_opens = λ fd m x. laws.close_opens fd m.fds x;
  shutdown_opens = λ fd m x. refl;
  send_opens = λ fd bytes m x. refl;
}

abbrev off : Outside Machine
off = record { proxy = none; ble = none; rest = record { scanning = false; threads = 0; fds = [] } }

abbrev world : World (Outside Machine)
world = record {
  server = esphome_api_init (record {
    device_name = [];
    mac_address = [];
    esphome_version = [];
    model = [];
    manufacturer = [];
    friendly_name = [];
    suggested_area = [];
  });
  outside = off;
}

abbrev ctx : Context
ctx = record { server = 1; config = 2; plugin_data = 4096 }

dispatch_message-handle_message_example :
    dispatch_message (system_outside machine_system) [] 0 66 [] (record {
      world = world;
      plugins = registered machine_system driver proxy_host [] (some ctx);
    })
    ≡ record {
      world = (handle_message_callback driver proxy_host ctx 0 66 [] world).world;
      plugins = registered machine_system driver proxy_host [] (some ctx);
    }
dispatch_message-handle_message_example =
    dispatch_message-handle_message machine_system driver proxy_host [] ctx 0 66 [] world
      (omega arith)

abbrev advert : BleReport
advert = record {
  address = 1 ∷ 2 ∷ 3 ∷ 4 ∷ 5 ∷ 6 ∷ [];
  address_type = 0;
  rssi = 200;
  bytes = 2 ∷ 1 ∷ 6 ∷ [];
  data_len = 3;
}

-- A subscription, a report, a flush, and the end of the subscription.
abbrev events : List Event
events = message 0 66 [] ∷ report 7 ctx advert ∷ flush 9 ∷ message 0 87 [] ∷ []

-- A call that opens a socket.
abbrev new_outside : Outside Machine → ℕ × Outside Machine
new_outside o =
    let (fd, fds) = new_socket o.rest.fds in (fd, with_rest o (record o.rest { fds = fds }))

abbrev outer : Host (Outside Machine)
outer = record {
  calloc = λ o. (true, o);
  gethostname = λ o. (some (104 ∷ []), o);
  socket = new_outside;
  hwaddr = λ iface o. (some (1 ∷ 2 ∷ 3 ∷ 4 ∷ 5 ∷ 6 ∷ []), o);
  sockets = λ o. (record { socket = (new_outside o).0; bind = 0; listen = 0 }, (new_outside o).1);
}

abbrev opens_outside : Outside Machine → ℕ → Bool
opens_outside =
    is_open_outside machine_system driver proxy_host opens sockets_laws
      (λ x. unseen (λ m. opens m x)) radio_unseen []

abbrev laws_outside : Descriptors (system_outside machine_system) opens_outside
laws_outside =
    outside_laws machine_system driver proxy_host opens sockets_laws (λ x. unseen (λ m. opens m x))
      radio_unseen []

outer-HostLaws : HostLaws (system_outside machine_system) opens_outside laws_outside [] outer
outer-HostLaws = record {
  calloc_opens = λ o x. refl;
  gethostname_opens = λ o x. refl;
  hwaddr_opens = λ iface o x. refl;
  socket_opens = λ o. new_socket-Opens o.rest.fds;
  sockets_opens = λ o. new_socket-Opens o.rest.fds;
}

main-proxy_example :
    let plugins = bluetooth_proxy_plugin driver proxy_host ∷ [] in
    let exit = main (system_outside machine_system) outer (λ node. node) 1 2 plugins off in
    AllClosed (system_outside machine_system) opens_outside laws_outside [] exit.world
    × ((exit.status ≡ 0) ⊎ ((exit.status ≡ 1) × (exit.plugins ≡ plugins)))
main-proxy_example =
    main-proxy machine_system driver proxy_host opens sockets_laws (λ x. unseen (λ m. opens m x))
      radio_unseen [] outer outer-HostLaws (λ node. node) 1 2 off (λ node. here) (λ x. refl)
