-- ===== src/Service/Registered.antt =====
-- The list of plugins while the service runs: the one plugin, with the context that it was given.
use esphome_linux.Base.{
  ℕ, ◌≤◌, ◌<◌, arith, ◌≡◌, refl, false, Option, none, some, List, [], ◌∷◌, ◌==◌, Bool-cases,
  Option-cases, inl, inr,
}
use esphome_linux.Plugin.{
  Context, Plugin, esphome_plugin_configure_device_info_all, esphome_plugin_handle_message, offer,
  configure_plugin, call_for_client, call_all,
}
use esphome_linux.Api.Server.{World, Node, System}
use esphome_linux.Api.Handlers.{
  find_client, delegate, handle_device_info_request, handle_list_entities_request,
  handle_subscribe_states_request, dispatch_message,
}
use esphome_linux.Api.Handlers.Unchanged.{choose}
use esphome_linux.Scanner.Control.{Driver}
use esphome_linux.Service.{
  Outside, ProxyHost, system_outside, bluetooth_proxy_plugin, handle_message_callback,
  configure_device_info_callback, Event, message, report, flush, happen,
}

module _ {V : Type 0} (system : System V) (driver : Driver V) (host : ProxyHost V)
    (build_time : List ℕ) where
  -- The plugin with its context, or before it has one.
  abbrev pub registered : Option Context → List (Plugin (World (Outside V)))
  registered ctx = record (bluetooth_proxy_plugin driver host) { ctx = ctx } ∷ []

  abbrev IsRegistered : Option Context → Node (Outside V) → Type 0
  IsRegistered ctx node = node.plugins ≡ registered ctx

  device_info-registered :
      (ctx : Option Context) (slot : ℕ) (world : World (Outside V))
      → IsRegistered ctx (
          handle_device_info_request
            (system_outside system)
            build_time
            slot
            (record { world = world; plugins = registered ctx }))
  unfolding handle_device_info_request esphome_plugin_configure_device_info_all configure_plugin
      configure_device_info_callback
  device_info-registered none slot world = refl
  device_info-registered (some ctx) slot world = refl

  list_entities-registered :
      (ctx : Option Context) (slot : ℕ) (world : World (Outside V))
      → IsRegistered ctx (
          handle_list_entities_request
            (system_outside system)
            slot
            (record { world = world; plugins = registered ctx }))
  unfolding handle_list_entities_request call_all call_for_client
  list_entities-registered none slot world =
      elim (Option-cases (find_client slot 0 world.server.clients)) [
        | inl e ↦ rw (e, handle_list_entities_request) refl
        | inr (i, e) ↦ rw (e, handle_list_entities_request) refl
      ]
  list_entities-registered (some ctx) slot world =
      elim (Option-cases (find_client slot 0 world.server.clients)) [
        | inl e ↦ rw (e, handle_list_entities_request) refl
        | inr (i, e) ↦ rw (e, handle_list_entities_request) refl
      ]

  subscribe_states-registered :
      (ctx : Option Context) (slot : ℕ) (world : World (Outside V))
      → IsRegistered ctx (
          handle_subscribe_states_request
            (system_outside system)
            slot
            (record { world = world; plugins = registered ctx }))
  unfolding handle_subscribe_states_request call_all call_for_client
  subscribe_states-registered none slot world =
      elim (Option-cases (find_client slot 0 world.server.clients)) [
        | inl e ↦ rw (e, handle_subscribe_states_request) refl
        | inr (i, e) ↦ rw (e, handle_subscribe_states_request) refl
      ]
  subscribe_states-registered (some ctx) slot world =
      elim (Option-cases (find_client slot 0 world.server.clients)) [
        | inl e ↦ rw (e, handle_subscribe_states_request) refl
        | inr (i, e) ↦ rw (e, handle_subscribe_states_request) refl
      ]

  handle_message-registered :
      (ctx : Option Context) (slot t : ℕ) (payload : List ℕ) (world : World (Outside V))
      → (esphome_plugin_handle_message slot t payload (registered ctx) world).plugins
        ≡ registered ctx
  unfolding esphome_plugin_handle_message offer handle_message_callback
  handle_message-registered none slot t payload world = refl
  handle_message-registered (some ctx) slot t payload world =
      elim (Bool-cases
        ((handle_message_callback driver host ctx slot t payload world).result == 0)) [
          | inl taken ↦ rw taken refl
          | inr passed ↦ rw passed refl
        ]

  dispatch_message-registered :
      (ctx : Option Context) (slot t : ℕ) (payload : List ℕ) (world : World (Outside V))
      → IsRegistered ctx (
          dispatch_message
            (system_outside system)
            build_time
            slot
            t
            payload
            (record { world = world; plugins = registered ctx }))
  unfolding dispatch_message
  dispatch_message-registered ctx slot t payload world = choose (IsRegistered ctx) (t == 1) refl (
      choose (IsRegistered ctx) (t == 3) refl (
        choose (IsRegistered ctx) (t == 9) (device_info-registered ctx slot world) (
          choose (IsRegistered ctx) (t == 11) (list_entities-registered ctx slot world) (
            choose (IsRegistered ctx) (t == 20) (subscribe_states-registered ctx slot world) (
              choose (IsRegistered ctx) (t == 34) refl (
                choose (IsRegistered ctx) (t == 38) refl (
                  choose (IsRegistered ctx) (t == 7) refl (
                    choose (IsRegistered ctx) (t == 5) refl
                      (handle_message-registered ctx slot t payload world)))))))))

  pub happen-registered :
      (ctx : Option Context) (event : Event) (world : World (Outside V))
      → (happen system build_time event
          (record { world = world; plugins = registered ctx })).plugins
        ≡ registered ctx
  unfolding happen
  happen-registered ctx (message slot t payload) world =
      dispatch_message-registered ctx slot t payload world
  happen-registered ctx (report now ctx' advert) world = refl
  happen-registered ctx (flush now) world = refl

  delegated :
      (ctx : Context) (slot t : ℕ) (payload : List ℕ) (world : World (Outside V))
      → delegate
          (system_outside system)
          slot
          t
          payload
          (record { world = world; plugins = registered (some ctx) })
        ≡ record {
          world = (handle_message_callback driver host ctx slot t payload world).world;
          plugins = registered (some ctx);
        }
  unfolding esphome_plugin_handle_message offer handle_message_callback
  delegated ctx slot t payload world =
      elim (Bool-cases
        ((handle_message_callback driver host ctx slot t payload world).result == 0)) [
          | inl taken ↦ rw taken refl
          | inr passed ↦ rw passed refl
        ]

  -- A message whose type is above those that the server handles, and so each of a client's
  -- subscription messages, reaches the plugin that has its context, once and with the client's slot.
  -- Nothing else changes, and no answer is sent for it.
  pub dispatch_message-handle_message :
      (ctx : Context) (slot t : ℕ) (payload : List ℕ) (world : World (Outside V))
      → 38 < t
      → dispatch_message
          (system_outside system)
          build_time
          slot
          t
          payload
          (record { world = world; plugins = registered (some ctx) })
        ≡ record {
          world = (handle_message_callback driver host ctx slot t payload world).world;
          plugins = registered (some ctx);
        }
  unfolding dispatch_message
  dispatch_message-handle_message ctx slot t payload world above =
      let other : (k : ℕ) → k ≤ 38 → (t == k) ≡ false = λ k small. ground arith in
      rw
        (
          other 1 (omega arith),
          other 3 (omega arith),
          other 9 (omega arith),
          other 11 (omega arith),
          other 20 (omega arith),
          other 34 (omega arith),
          other 38 (omega arith),
          other 7 (omega arith),
          other 5 (omega arith),
        )
        (delegated ctx slot t payload world)
