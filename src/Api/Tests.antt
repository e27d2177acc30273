-- ===== src/Api/Tests.antt =====
-- The theorems on src/esphome_api.c at concrete inputs, with an operating system that keeps what it
-- is asked for.
use esphome_linux.Base.{
  ℕ, ◌<◌, ◌≡◌, refl, true, false, not, ◌&&◌, none, some, List, [], ◌∷◌, ◌++◌, map, arith, take,
  length, ltb, leb, if◌then◌else◌, uninitialised, length-uninitialised,
}
use esphome_linux.Proto.Varint.Encode.{varint}
use esphome_linux.Proto.Varint.Decode.{scan}
use esphome_linux.Proto.Frame.Decode.{header_of}
use esphome_linux.Proto.Message.Wire.{message_bytes}
use esphome_linux.Proto.Response.Sequence.{bool_fields}
use esphome_linux.Proto.Response.Encode.{IsDeviceInfo}
use mathlib.Core.Option.{some-injective, none-ne-some}
use mathlib.Core.Path.{subst}
use esphome_linux.Plugin.{
  minus_one, is_negative, Context, Answer, Plugin, esphome_plugin_configure_device_info_all,
}
use esphome_linux.Plugin.Invariant.{Preserves}
use esphome_linux.Api.Receive.{Rounds, Receiver, pending, client_rounds, handle_client_data}
use esphome_linux.Api.Receive.Stream.{Message, Split-unique, stop}
use esphome_linux.Api.Receive.Reassembly.{
  IsReceiver, deliver, Delivered, handle_client_data-Delivered,
}
use esphome_linux.Api.Receive.Room.{client_rounds-room}
use esphome_linux.Api.Receive.Thread.{Arrives, received, client_rounds-stream}
use esphome_linux.Api.Server.{
  DeviceConfig, Client, Server, World, Node, System, client_init, client_at, with_clients,
}
use esphome_linux.Api.Send.{send_message, esphome_api_send_to_client, esphome_api_broadcast}
use esphome_linux.Api.Send.Transmit.{
  transmit_frame, transmit_each, send_message-transmit_frame, esphome_api_broadcast-transmit_each,
  esphome_api_send_to_client-transmit_frame,
}
use esphome_linux.Api.Handlers.{
  msg_hello_response, msg_connect_response, msg_device_info_response, msg_ping_response,
  device_info_response, authenticate, handle_hello_request, handle_connect_request,
  handle_device_info_request, handle_ping_request, dispatch_message,
}
use esphome_linux.Api.Handlers.Replies.{
  reply, hello_message, device_info_message, handle_hello_request-reply,
  handle_connect_request-reply, handle_device_info_request-reply, handle_ping_request-reply,
}
use esphome_linux.Api.Handlers.Keeps.{IsOpen, Kept, dispatch_message-Kept}
use esphome_linux.Api.Connections.{Accepted, accept_round, client_thread_func, esphome_api_stop}
use esphome_linux.Api.Connections.Session.{served, client_thread_func-stream}
use esphome_linux.Api.Connections.Slots.{join, accept_round-free, accept_round-full}
use esphome_linux.Api.Connections.Stopping.{
  hang_up, disconnected, esphome_api_stop-hang_up, esphome_api_stop_twice,
}

-- A call of the operating system: a descriptor, and what is sent to it or nothing.
abbrev Call : Type 0
Call = ℕ × List ℕ

abbrev record_calls : System (List Call)
record_calls = record {
  send = λ fd bytes calls. (some (length bytes), (fd, bytes) ∷ calls);
  close = λ fd calls. (fd, []) ∷ calls;
  shutdown = λ fd calls. calls;
}

abbrev config : DeviceConfig
config = record {
  device_name = 97 ∷ 98 ∷ [];
  mac_address = [];
  esphome_version = [];
  model = [];
  manufacturer = [];
  friendly_name = [];
  suggested_area = [];
}

abbrev client_on : ℕ → Client
client_on fd = record client_init { fd = fd }

abbrev server : Server
server = record {
  config = config;
  listen_fd = 3;
  running = true;
  clients = client_on 5 ∷ client_init ∷ [];
}

abbrev full_server : Server
full_server = with_clients server (client_on 5 ∷ client_on 6 ∷ [])

abbrev world : World (List Call)
world = record { server = server; outside = [] }

abbrev node : Node (List Call)
node = record { world = world; plugins = [] }

abbrev accepted : Accepted
accepted = record { client_fd = 7; client_addr = 16777343 }

-- The receive buffer of a client, and messages kept in a list.
abbrev empty_receiver : Receiver
empty_receiver = record { recv_buffer = uninitialised 4096; recv_pos = 0 }

empty-IsReceiver : IsReceiver empty_receiver
empty-IsReceiver = omega (arith, length-uninitialised 4096)

abbrev keep : ℕ → List ℕ → List Message → List Message
keep msg_type payload messages = (msg_type, payload) ∷ messages

abbrev ping : List Message
ping = (7, []) ∷ []

-- The first byte of a frame, and the others.
abbrev chunks : List (List ℕ)
chunks = (0 ∷ []) ∷ (0 ∷ 7 ∷ []) ∷ []

no_header : header_of (0 ∷ []) ≡ none
unfolding header_of scan
no_header = refl

chunks-Arrives : Arrives [] chunks
chunks-Arrives = (
  omega arith,
  omega arith,
  λ ms left s.
      let same : left ≡ 0 ∷ [] = (Split-unique s (stop no_header)).1 in
      (omega arith, rw same (omega arith), λ ms left s. tt),
)

client_rounds-stream_example :
    (r' : Receiver) × (client_rounds keep (λ s. true) (received chunks) empty_receiver []
      ≡ some (record { leaves = false; receiver = r'; state = deliver keep ping [] }))
    × (pending r' ≡ [])
client_rounds-stream_example =
    client_rounds-stream keep (λ s. true) (λ s. Unit) (λ s h. refl) (λ t p s h. tt) ping chunks
      empty_receiver [] (omega arith) (unfold varint in refl) empty-IsReceiver refl tt
      chunks-Arrives

-- Of the ping the first byte has arrived.
client_rounds-room_example :
    (rounds : Rounds (List Message)) × (client_rounds keep
        (λ s. true)
        (received ((0 ∷ []) ∷ []))
        empty_receiver
        []
      ≡ some rounds)
    × (rounds.leaves ≡ false)
    × (rounds.receiver.recv_pos < 4096)
client_rounds-room_example =
    client_rounds-room keep (λ s. true) (λ s. Unit) (λ s h. refl) (λ t p s h. tt) ping
      ((0 ∷ []) ∷ []) (0 ∷ 7 ∷ []) empty_receiver [] (omega arith) (unfold varint in omega arith)
      (unfold varint in refl) empty-IsReceiver refl tt (omega arith, omega arith, λ ms left s. tt)

handle_client_data-Delivered_example :
    Delivered keep empty_receiver [] (handle_client_data keep 1 empty_receiver [])
handle_client_data-Delivered_example =
    handle_client_data-Delivered keep 1 empty_receiver [] empty-IsReceiver (omega arith)

-- Sending.
send_message-transmit_frame_example :
    send_message record_calls (client_on 5) 8 (1 ∷ 2 ∷ []) 1 []
    ≡ transmit_frame record_calls 5 8 (take 1 (1 ∷ 2 ∷ [])) []
send_message-transmit_frame_example =
    send_message-transmit_frame record_calls (client_on 5) 8 (1 ∷ 2 ∷ []) 1 [] (omega arith)
      (omega arith) (omega arith)

esphome_api_broadcast-transmit_each_example :
    esphome_api_broadcast record_calls (some full_server) 93 (1 ∷ []) 1 []
    ≡ transmit_each record_calls 93 (1 ∷ []) (5 ∷ 6 ∷ []) []
esphome_api_broadcast-transmit_each_example =
    esphome_api_broadcast-transmit_each record_calls 93 (1 ∷ []) 1 (omega arith) (omega arith)
      (omega arith) full_server []

esphome_api_send_to_client-transmit_frame_example :
    let client = client_at server.clients 0 in
    esphome_api_send_to_client record_calls (some server) 0 93 (1 ∷ []) 1 [] ≡ (
      if ltb 0 2 && not (is_negative client.fd)
      then transmit_frame record_calls client.fd 93 (1 ∷ []) []
      else (minus_one, []))
esphome_api_send_to_client-transmit_frame_example =
    esphome_api_send_to_client-transmit_frame record_calls 93 (1 ∷ []) 1 (omega arith) (omega arith)
      (omega arith) server 0 []

-- Handlers.
handle_hello_request-reply_example :
    handle_hello_request record_calls 0 world
    ≡ reply record_calls 0 msg_hello_response (hello_message config) world
handle_hello_request-reply_example = handle_hello_request-reply record_calls 0 world

handle_connect_request-reply_example :
    handle_connect_request record_calls 0 world
    ≡ reply record_calls 0 msg_connect_response
        (message_bytes (bool_fields 1 false))
        (authenticate record_calls 0 world)
handle_connect_request-reply_example = handle_connect_request-reply record_calls 0 world

handle_ping_request-reply_example :
    handle_ping_request record_calls 0 world ≡ reply record_calls 0 msg_ping_response [] world
handle_ping_request-reply_example = handle_ping_request-reply record_calls 0 world

configured-IsDeviceInfo :
    IsDeviceInfo
      (esphome_plugin_configure_device_info_all [] (device_info_response [] config) world).result
unfolding esphome_plugin_configure_device_info_all
configured-IsDeviceInfo = omega arith

handle_device_info_request-reply_example :
    let configured =
      esphome_plugin_configure_device_info_all node.plugins
        (device_info_response [] config)
        world in
    handle_device_info_request record_calls [] 0 node ≡ record {
      world =
          if leb (length (device_info_message configured.result)) 1024
          then reply record_calls 0 msg_device_info_response
              (device_info_message configured.result)
              configured.world
          else configured.world;
      plugins = configured.plugins;
    }
handle_device_info_request-reply_example =
    handle_device_info_request-reply record_calls [] 0 node configured-IsDeviceInfo

-- Connections.
accept_round-free_example :
    accept_round record_calls accepted true
      (with_clients server ((client_on 5 ∷ []) ++ client_init ∷ []))
      []
    ≡ (with_clients server ((client_on 5 ∷ []) ++ join accepted client_init ∷ []), [])
accept_round-free_example =
    accept_round-free record_calls accepted true server (client_on 5 ∷ []) client_init [] [] refl
      (refl, tt) refl

accept_round-full_example :
    accept_round record_calls accepted true full_server [] ≡ (full_server, (7, []) ∷ [])
accept_round-full_example =
    accept_round-full record_calls accepted true full_server [] refl (refl, (refl, tt))

esphome_api_stop-hang_up_example : esphome_api_stop record_calls (some server) [] ≡ (
  some (record server {
    running = false;
    listen_fd = minus_one;
    clients = map (disconnected record_calls) server.clients;
  }),
  hang_up record_calls (3 ∷ 5 ∷ []) [],
)
esphome_api_stop-hang_up_example = esphome_api_stop-hang_up record_calls server []

esphome_api_stop_twice_example :
    let stopped = esphome_api_stop record_calls (some server) [] in
    esphome_api_stop record_calls stopped.0 [] ≡ (stopped.0, [])
esphome_api_stop_twice_example = esphome_api_stop_twice record_calls server [] []

-- A server whose client sends a ping.
abbrev waiting : Node (List Call)
waiting = record node {
  world = record world {
    server = with_clients server (record (client_on 5) { receiver = empty_receiver } ∷ []);
  };
}

client_thread_func-stream_example :
    (r' : Receiver) × (client_thread_func record_calls [] 0 (received chunks) waiting
      ≡ some (served record_calls [] 0 r' ping waiting))
    × (pending r' ≡ [])
client_thread_func-stream_example =
    client_thread_func-stream record_calls [] 0 ping chunks waiting (omega arith)
      (unfold varint in refl) empty-IsReceiver refl (refl, tt) chunks-Arrives

-- A plugin that takes note of each message that it is asked to handle.
abbrev note_message : Context → ℕ → ℕ → List ℕ → World (List Call) → Answer (World (List Call))
note_message ctx client_id msg_type payload w = record {
  result = 0;
  ctx = ctx;
  world = record w { outside = (client_id, payload) ∷ w.outside };
}

abbrev noting : Plugin (World (List Call))
noting = record {
  name = [];
  version = [];
  init = none;
  cleanup = none;
  handle_message = some note_message;
  configure_device_info = none;
  list_entities = none;
  subscribe_states = none;
  ctx = some (record { server = 1; config = 2; plugin_data = 0 });
}

noting-Preserves : Preserves (IsOpen 0) noting
noting-Preserves = record {
  handle_message = λ f e ctx i t d w h.
      subst (λ g. IsOpen 0 (g ctx i t d w).world) (some-injective note_message f e) h;
  configure_device_info = λ f e. absurd (none-ne-some f e);
  list_entities = λ f e. absurd (none-ne-some f e);
  subscribe_states = λ f e. absurd (none-ne-some f e);
}

abbrev noted : Node (List Call)
noted = record node { plugins = noting ∷ [] }

dispatch_message-Kept_example :
    Kept record_calls [] 0 (dispatch_message record_calls [] 0 66 [] noted)
dispatch_message-Kept_example =
    dispatch_message-Kept record_calls [] 0 66 [] noted (refl, (noting-Preserves, tt))
