-- ===== src/Service.antt =====
-- The parts put together: the callbacks that plugins/bluetooth_proxy/bluetooth_proxy_plugin.c registers,
-- over the state that a context points to, and the threads that call the plugin.
pub mod Radio
pub mod Sound
pub mod Registered
pub mod Off
pub mod Life
pub mod Unseen
pub mod Sockets
mod Tests
use esphome_linux.Base.{
  ℕ, Bool, true, false, not, Option, none, some, List, [], ◌∷◌, ◌==◌, if◌then◌else◌,
}
use esphome_linux.Proto.Response.{DeviceInfoResponse}
use esphome_linux.Plugin.{Context, Answer, Plugin, minus_one}
use esphome_linux.Api.Server.{World, Node, System}
use esphome_linux.Api.Handlers.{dispatch_message}
use esphome_linux.Proxy.{
  BleReport, ProxyState, flush_ble_batch, on_ble_advertisement, bluetooth_proxy_init,
  bluetooth_proxy_configure_device_info, bluetooth_proxy_handle_message, bluetooth_proxy_cleanup,
}
use esphome_linux.Scanner.Control.{BleScanner, Driver, ble_scanner_init, ble_scanner}

-- What is outside of the server: the plugin's state, its scanner, and the rest of the world.
pub record Outside (V : Type 0) : Type 0 where
  pub proxy : Option ProxyState
  pub ble : Option BleScanner
  pub rest : V

-- What the plugin asks of the host; `state_address` is where `calloc` puts its state.
pub record ProxyHost (V : Type 0) : Type 0 where
  pub state_address : ℕ
  pub calloc : V → Bool × V
  pub clock_gettime : V → ℕ × V
  pub create_flush_thread : V → ℕ × V
  pub join_flush_thread : V → V

abbrev pub with_rest : {V : Type 0} → Outside V → V → Outside V
with_rest o v = record o { rest = v }

-- The operating system does not change the plugin's state.
abbrev pub system_outside : {V : Type 0} → System V → System (Outside V)
system_outside system = record {
  send =
      λ fd bytes o. ((system.send fd bytes o.rest).0, with_rest o (system.send fd bytes o.rest).1);
  close = λ fd o. with_rest o (system.close fd o.rest);
  shutdown = λ fd o. with_rest o (system.shutdown fd o.rest);
}

-- The state that `plugin_data` points to.
abbrev pub state_of : {V : Type 0} → Context → Outside V → Option ProxyState
state_of ctx o = if ctx.plugin_data == 0 then none else o.proxy

abbrev pub made : Option BleScanner → Bool
made none = false
made (some scanner) = true

module _ {V : Type 0} (driver : Driver V) (host : ProxyHost V) where
  -- `calloc` for the context of a plugin, in `esphome_plugin_init_all`.
  abbrev pub calloc_context : World (Outside V) → Bool × World (Outside V)
  calloc_context world =
      let (allocated, v) = host.calloc world.outside.rest in
      (allocated, record world { outside = with_rest world.outside v })

  -- `bluetooth_proxy_init`
  unfoldable pub init_callback : Context → World (Outside V) → Answer (World (Outside V))
  unfolding bluetooth_proxy_init ble_scanner_init
  init_callback ctx world =
      let o = world.outside in
      let (allocated, v1) = host.calloc o.rest in
      let (now, v2) = host.clock_gettime v1 in
      let (created, v3) = host.create_flush_thread v2 in
      let (scanner, v4) = ble_scanner_init driver v3 in
      elim (bluetooth_proxy_init allocated (created == 0) (made scanner) now) [
        | none ↦ record {
          result = minus_one;
          ctx = ctx;
          world = record world { outside = with_rest o (if allocated then v3 else v1) };
        }
        | some state ↦ record {
          result = 0;
          ctx = record ctx { plugin_data = host.state_address };
          world = record world {
            outside = record { proxy = some state; ble = scanner; rest = v4 };
          };
        }
      ]

  -- `bluetooth_proxy_cleanup`
  unfoldable pub cleanup_callback : Context → World (Outside V) → World (Outside V)
  unfolding bluetooth_proxy_cleanup
  cleanup_callback ctx world =
      let o = world.outside in
      elim (state_of ctx o) [
        | none ↦ world
        | some state ↦
            let v = if state.flush_thread_running then host.join_flush_thread o.rest else o.rest in
            let (proxy, (ble, v')) =
              bluetooth_proxy_cleanup (ble_scanner driver) (some state) (o.ble, v) in
            record world { outside = record { proxy = proxy; ble = ble; rest = v' } }
      ]

  -- `bluetooth_proxy_handle_message`
  unfoldable pub handle_message_callback :
      Context → ℕ → ℕ → List ℕ → World (Outside V) → Answer (World (Outside V))
  unfolding bluetooth_proxy_handle_message
  handle_message_callback ctx client_id msg_type payload world =
      let o = world.outside in
      let (result, (proxy, (ble, v))) =
        bluetooth_proxy_handle_message (ble_scanner driver) msg_type (state_of ctx o)
          (o.ble, o.rest) in
      record {
        result = result;
        ctx = ctx;
        world = record world {
          outside = record {
            proxy = (if ctx.plugin_data == 0 then o.proxy else proxy);
            ble = ble;
            rest = v;
          };
        };
      }

  -- `bluetooth_proxy_configure_device_info`; the configuration that `ctx` points to is the one that
  -- the server was made from.
  unfoldable pub configure_device_info_callback :
      Context
      → DeviceInfoResponse
      → World (Outside V)
      → DeviceInfoResponse × Answer (World (Outside V))
  unfolding bluetooth_proxy_configure_device_info
  configure_device_info_callback ctx device_info world = (
    bluetooth_proxy_configure_device_info world.server.config.mac_address device_info,
    record { result = 0; ctx = ctx; world = world },
  )

  -- "BluetoothProxy" and "1.0.0"
  abbrev pub bluetooth_proxy_plugin : Plugin (World (Outside V))
  bluetooth_proxy_plugin = record {
    name = 66 ∷ 108 ∷ 117 ∷ 101 ∷ 116 ∷ 111 ∷ 111 ∷ 116 ∷ 104 ∷ 80 ∷ 114 ∷ 111 ∷ 120 ∷ 121 ∷ [];
    version = 49 ∷ 46 ∷ 48 ∷ 46 ∷ 48 ∷ [];
    init = some init_callback;
    cleanup = some cleanup_callback;
    handle_message = some handle_message_callback;
    configure_device_info = some configure_device_info_callback;
    list_entities = none;
    subscribe_states = none;
    ctx = none;
  }

module _ {V : Type 0} (system : System V) where
  -- The scanner's report thread calls `on_ble_advertisement`, whose `user_data` is the context. The
  -- code does not test for a null pointer: the scanner only runs while the plugin has its state.
  unfoldable pub report_to : ℕ → Context → BleReport → World (Outside V) → World (Outside V)
  unfolding on_ble_advertisement
  report_to now ctx advert world = elim (state_of ctx world.outside) [
    | none ↦ world
    | some state ↦
        let (state', o) =
          on_ble_advertisement (system_outside system) world.server now advert state
            world.outside in
        record world { outside = record o { proxy = some state' } }
  ]

  -- The flush thread calls `flush_ble_batch` with its state; it runs only while there is one.
  unfoldable pub flush_from : ℕ → World (Outside V) → World (Outside V)
  unfolding flush_ble_batch
  flush_from now world = elim world.outside.proxy [
    | none ↦ world
    | some state ↦
        let (state', o) =
          flush_ble_batch (system_outside system) world.server now state world.outside in
        record world { outside = record o { proxy = some state' } }
  ]

-- What happens to the node while the service runs: a message from the client in a slot, an
-- advertisement from the scanner, or a flush.
pub data Event : Type 0 where
  message : (slot msg_type : ℕ) (payload : List ℕ) → Event
  report : (now : ℕ) (ctx : Context) (advert : BleReport) → Event
  flush : (now : ℕ) → Event

module _ {V : Type 0} (system : System V) (build_time : List ℕ) where
  unfoldable pub happen : Event → Node (Outside V) → Node (Outside V)
  unfolding dispatch_message report_to flush_from
  happen (message slot msg_type payload) node =
      dispatch_message (system_outside system) build_time slot msg_type payload node
  happen (report now ctx advert) node = record node {
    world = report_to system now ctx advert node.world;
  }
  happen (flush now) node = record node { world = flush_from system now node.world }

  unfoldable pub happen_all : List Event → Node (Outside V) → Node (Outside V)
  unfolding happen
  happen_all [] node = node
  happen_all (event ∷ events) node = happen_all events (happen event node)
