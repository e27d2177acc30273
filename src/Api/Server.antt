-- ===== src/Api/Server.antt =====
-- The state of the server in src/esphome_api.c, and what it asks of the operating system.
use esphome_linux.Base.{ℕ, Bool, false, Option, List, [], replicate, set, get_or}
use esphome_linux.Api.Receive.{Receiver, recv_buffer_size}
use esphome_linux.Plugin.{minus_one, Plugin}

-- `esphome_device_config_t`; a `char` array is the list of the characters before its NUL.
pub record DeviceConfig : Type 0 where
  pub device_name : List ℕ
  pub mac_address : List ℕ
  pub esphome_version : List ℕ
  pub model : List ℕ
  pub manufacturer : List ℕ
  pub friendly_name : List ℕ
  pub suggested_area : List ℕ

-- `client_connection_t`, without its mutex and its thread; a descriptor is the bit pattern of an
-- `int`, and `addr` is the address in it.
pub record Client : Type 0 where
  pub fd : ℕ
  pub authenticated : Bool
  pub receiver : Receiver
  pub thread_running : Bool
  pub addr : ℕ

-- `struct esphome_api_server`, without its mutex and its thread.
pub record Server : Type 0 where
  pub config : DeviceConfig
  pub listen_fd : ℕ
  pub running : Bool
  pub clients : List Client

abbrev pub max_clients : ℕ
max_clients = 2

-- The server, and all that lies outside it.
pub record World (W : Type 0) : Type 0 where
  pub server : Server
  pub outside : W

-- A world with the plugins that are registered.
pub record Node (W : Type 0) : Type 0 where
  pub world : World W
  pub plugins : List (Plugin (World W))

-- The calls of the operating system: `send` answers the number of bytes sent, or `none` for -1.
pub record System (W : Type 0) : Type 0 where
  pub send : ℕ → List ℕ → W → Option ℕ × W
  pub close : ℕ → W → W
  pub shutdown : ℕ → W → W

-- What stands in a slot that does not exist; no operation reads it.
abbrev pub no_client : Client
no_client = record {
  fd = minus_one;
  authenticated = false;
  receiver = record { recv_buffer = []; recv_pos = 0 };
  thread_running = false;
  addr = 0;
}

abbrev pub client_at : List Client → ℕ → Client
client_at clients i = get_or clients i no_client

abbrev pub with_clients : Server → List Client → Server
with_clients server clients = record server { clients = clients }

abbrev pub update_client : ℕ → (Client → Client) → Server → Server
update_client i f server =
    with_clients server (set server.clients i (f (client_at server.clients i)))

-- `memset` and `fd = -1`.
abbrev pub client_init : Client
client_init = record no_client {
  receiver = record { recv_buffer = replicate recv_buffer_size 0; recv_pos = 0 };
}

-- What `client_close` leaves of a client.
abbrev pub closed : Client → Client
closed client = record client {
  fd = minus_one;
  authenticated = false;
  receiver = record { recv_buffer = client.receiver.recv_buffer; recv_pos = 0 };
}

unfoldable pub esphome_api_init : DeviceConfig → Server
esphome_api_init config = record {
  config = config;
  listen_fd = minus_one;
  running = false;
  clients = replicate max_clients client_init;
}
