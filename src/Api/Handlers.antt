-- ===== src/Api/Handlers.antt =====
-- The message handlers and `dispatch_message` of src/esphome_api.c.
pub mod Replies
pub mod Unchanged
pub mod Keeps
use esphome_linux.Base.{
  uninitialised, length-uninitialised, ℕ, zero, suc, ◌+◌, ◌-◌, ◌%◌, ◌^◌, Bool, true, false, Option,
  none, some, List, [], ◌∷◌, ◌++◌, take, length, replicate, ltb, leb, ◌==◌, if◌then◌else◌,
}
use esphome_linux.Proto.Response.{
  HelloResponse, ConnectResponse, DeviceInfoResponse, esphome_encode_hello_response,
  esphome_encode_connect_response, esphome_encode_device_info_response,
}
use esphome_linux.Plugin.{
  Plugin, Managed, esphome_plugin_configure_device_info_all, esphome_plugin_list_entities_all,
  esphome_plugin_subscribe_states_all, esphome_plugin_handle_message, call_all,
}
use esphome_linux.Api.Server.{
  DeviceConfig, Client, Server, World, Node, System, max_clients, client_at, with_clients,
  update_client,
}
use esphome_linux.Api.Send.{send_message}

-- The message types of src/include/esphome_proto.h that the server reads or sends.
abbrev pub msg_hello_request : ℕ
msg_hello_request = 1

abbrev pub msg_hello_response : ℕ
msg_hello_response = 2

abbrev pub msg_connect_request : ℕ
msg_connect_request = 3

abbrev pub msg_connect_response : ℕ
msg_connect_response = 4

abbrev pub msg_disconnect_request : ℕ
msg_disconnect_request = 5

abbrev pub msg_ping_request : ℕ
msg_ping_request = 7

abbrev pub msg_ping_response : ℕ
msg_ping_response = 8

abbrev pub msg_device_info_request : ℕ
msg_device_info_request = 9

abbrev pub msg_device_info_response : ℕ
msg_device_info_response = 10

abbrev pub msg_list_entities_request : ℕ
msg_list_entities_request = 11

abbrev pub msg_list_entities_done_response : ℕ
msg_list_entities_done_response = 19

abbrev pub msg_subscribe_states_request : ℕ
msg_subscribe_states_request = 20

abbrev pub msg_subscribe_homeassistant_services_request : ℕ
msg_subscribe_homeassistant_services_request = 34

abbrev pub msg_subscribe_homeassistant_states_request : ℕ
msg_subscribe_homeassistant_states_request = 38

-- " (Thingino BLE Proxy v1.0)"
abbrev pub server_suffix : List ℕ
server_suffix =
    32 ∷ 40 ∷ 84 ∷ 104 ∷ 105 ∷ 110 ∷ 103 ∷ 105 ∷ 110 ∷ 111 ∷ 32 ∷ 66 ∷ 76 ∷ 69 ∷ 32 ∷ 80 ∷ 114 ∷ 111
    ∷ 120 ∷ 121 ∷ 32 ∷ 118 ∷ 49 ∷ 46 ∷ 48 ∷ 41 ∷ []

-- `snprintf` and `strncpy` cut a text to the array less its NUL.
abbrev pub hello_response : DeviceConfig → HelloResponse
hello_response config = record {
  api_version_major = 1;
  api_version_minor = 12;
  server_info = take 127 (config.device_name ++ server_suffix);
  name = take 127 config.device_name;
}

-- The response before the plugins configure it; `build_time` is `__DATE__ " " __TIME__`.
abbrev pub device_info_response : List ℕ → DeviceConfig → DeviceInfoResponse
device_info_response build_time config = record {
  uses_password = false;
  name = take 127 config.device_name;
  mac_address = take 23 config.mac_address;
  esphome_version = take 31 config.esphome_version;
  compilation_time = take 63 build_time;
  model = take 127 config.model;
  has_deep_sleep = false;
  project_name = [];
  project_version = [];
  webserver_port = 0;
  manufacturer = take 127 config.manufacturer;
  friendly_name = take 127 config.friendly_name;
  bluetooth_proxy_feature_flags = 0;
  suggested_area = take 63 config.suggested_area;
  voice_assistant_feature_flags = 0;
  bluetooth_mac_address = [];
  api_encryption_supported = false;
  zwave_proxy_feature_flags = 0;
  zwave_home_id = 0;
}

abbrev pub with_plugins : {W : Type 0} → List (Plugin (World W)) × World W → Node W
with_plugins (plugins, world) = record { world = world; plugins = plugins }

-- `for (int i = 0; i < ESPHOME_MAX_CLIENTS; i++) if (&server->clients[i] == client)`, from `i` on.
abbrev pub find_client : ℕ → ℕ → List Client → Option ℕ
find_client slot i [] = none
find_client slot i (client ∷ clients) =
    if i == slot then some i else find_client slot (i + 1) clients

module _ {W : Type 0} (system : System W) where
  -- `send_message` to the client in a slot, its answer dropped.
  abbrev pub send_from : ℕ → ℕ → List ℕ → ℕ → World W → World W
  send_from slot msg_type payload payload_len world = record world {
    outside =
        (send_message system (client_at world.server.clients slot) msg_type payload payload_len
          world.outside).1;
  }

  -- `if (len > 0) send_message(client, msg_type, encode_buf, len);`
  unfoldable pub send_encoded : ℕ → ℕ → ℕ × List ℕ → World W → World W
  send_encoded slot msg_type (len, encode_buf) world =
      if ltb 0 len then send_from slot msg_type encode_buf len world else world

  unfoldable pub handle_hello_request : ℕ → World W → World W
  unfolding send_encoded
  handle_hello_request slot world =
      send_encoded slot msg_hello_response
        (esphome_encode_hello_response (uninitialised 512) 512 (hello_response world.server.config))
        world

  abbrev pub authenticate : ℕ → World W → World W
  authenticate slot world = record world {
    server = update_client slot (λ client. record client { authenticated = true }) world.server;
  }

  unfoldable pub handle_connect_request : ℕ → World W → World W
  unfolding send_encoded
  handle_connect_request slot world =
      send_encoded slot msg_connect_response
        (esphome_encode_connect_response (uninitialised 32) 32
          (record { invalid_password = false }))
        (authenticate slot world)

  unfoldable pub handle_device_info_request : List ℕ → ℕ → Node W → Node W
  unfolding send_encoded
  handle_device_info_request build_time slot node =
      let configured =
        esphome_plugin_configure_device_info_all node.plugins
          (device_info_response build_time node.world.server.config) node.world in
      record {
        world =
            send_encoded slot msg_device_info_response
              (esphome_encode_device_info_response (uninitialised 1024) 1024 configured.result)
              configured.world;
        plugins = configured.plugins;
      }

  unfoldable pub handle_list_entities_request : ℕ → Node W → Node W
  handle_list_entities_request slot node =
      let listed : Node W = elim (find_client slot 0 node.world.server.clients) [
        | none ↦ node
        | some client_id ↦
            with_plugins (esphome_plugin_list_entities_all client_id node.plugins node.world)
      ] in
      record listed { world = send_from slot msg_list_entities_done_response [] 0 listed.world }

  unfoldable pub handle_subscribe_states_request : ℕ → Node W → Node W
  handle_subscribe_states_request slot node = elim (find_client slot 0 node.world.server.clients) [
    | none ↦ node
    | some client_id ↦
        with_plugins (esphome_plugin_subscribe_states_all client_id node.plugins node.world)
  ]

  unfoldable pub handle_ping_request : ℕ → World W → World W
  handle_ping_request slot world = send_from slot msg_ping_response [] 0 world

  abbrev pub delegate : ℕ → ℕ → List ℕ → Node W → Node W
  delegate client_id msg_type payload node =
      let handled =
        esphome_plugin_handle_message client_id msg_type payload node.plugins node.world in
      record { world = handled.world; plugins = handled.plugins }

  unfoldable pub dispatch_message : List ℕ → ℕ → ℕ → List ℕ → Node W → Node W
  unfolding handle_hello_request handle_connect_request handle_device_info_request
      handle_list_entities_request handle_subscribe_states_request handle_ping_request
  dispatch_message build_time slot msg_type payload node =
      if msg_type == msg_hello_request
      then record node { world = handle_hello_request slot node.world }
      else if msg_type == msg_connect_request
      then record node { world = handle_connect_request slot node.world }
      else if msg_type == msg_device_info_request
      then handle_device_info_request build_time slot node
      else if msg_type == msg_list_entities_request
      then handle_list_entities_request slot node
      else if msg_type == msg_subscribe_states_request
      then handle_subscribe_states_request slot node
      else if msg_type == msg_subscribe_homeassistant_services_request
      then node
      else if msg_type == msg_subscribe_homeassistant_states_request
      then node
      else if msg_type == msg_ping_request
      then record node { world = handle_ping_request slot node.world }
      else if msg_type == msg_disconnect_request
      then node
      else delegate slot msg_type payload node
