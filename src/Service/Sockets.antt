-- ===== src/Service/Sockets.antt =====
-- The sockets of the server, with the Bluetooth proxy as its plugin, and `main` of src/main.c with it.
use esphome_linux.Base.{
  ℕ, ◌≡◌, ◌⊎◌, refl, sym, ap, ◌∙◌, Bool, List, [], ◌∷◌, ◌==◌, inl, inr, Option-cases,
}
use mathlib.Core.Path.{subst}
use mathlib.Core.Option.{some-injective, none-ne-some}
use esphome_linux.Proto.Response.{DeviceInfoResponse}
use esphome_linux.Plugin.{Context, Answer}
use esphome_linux.Plugin.Life.{PreservesLife}
use esphome_linux.Api.Server.{World, Node, System}
use esphome_linux.Api.Connections.Descriptors.{holders, count, Descriptors}
use esphome_linux.Api.Connections.Ownership.{OwnsWorld}
use esphome_linux.Daemon.{Host, main}
use esphome_linux.Daemon.Shutdown.{AllClosed, HostLaws, Runs, main-AllClosed}
use esphome_linux.Proxy.{bluetooth_proxy_init}
use esphome_linux.Scanner.Control.{Driver, ble_scanner_init}
use esphome_linux.Service.{
  Outside, ProxyHost, system_outside, state_of, made, init_callback, cleanup_callback,
  handle_message_callback, configure_device_info_callback, bluetooth_proxy_plugin,
}
use esphome_linux.Service.Radio.{Unseen}
use esphome_linux.Service.Unseen.{
  RadioUnseen, handle_message_unseen, init_callback_unseen, cleanup_callback_unseen,
}

module _ {V : Type 0} (system : System V) (driver : Driver V) (host : ProxyHost V)
    (is_open : V → ℕ → Bool) (laws : Descriptors system is_open)
    (unseen : (x : ℕ) → Unseen system driver host (λ v. is_open v x))
    (radio : (x : ℕ) → RadioUnseen driver (λ v. is_open v x)) (build_time : List ℕ) where
  abbrev pub is_open_outside : Outside V → ℕ → Bool
  is_open_outside o x = is_open o.rest x

  pub outside_laws : Descriptors (system_outside system) is_open_outside
  outside_laws = record {
    close_opens = λ fd o x. laws.close_opens fd o.rest x;
    shutdown_opens = λ fd o x. laws.shutdown_opens fd o.rest x;
    send_opens = λ fd bytes o x. laws.send_opens fd bytes o.rest x;
  }

  abbrev OwnsOutside : World (Outside V) → Type 0
  OwnsOutside = OwnsWorld (system_outside system) is_open_outside outside_laws build_time

  handle_message-Owns :
      (ctx : Context) (i t : ℕ) (payload : List ℕ) (world : World (Outside V))
      → OwnsOutside world
      → OwnsOutside (handle_message_callback driver host ctx i t payload world).world
  unfolding handle_message_callback
  handle_message-Owns ctx i t payload world h x =
      h x
      ∙ ap count (
          sym (
            handle_message_unseen system driver host (λ v. is_open v x) (unseen x) (radio x) ctx i t
              payload world))

  -- The server is the same before and after.
  init_server :
      (ctx : Context) (world : World (Outside V))
      → (init_callback driver host ctx world).world.server ≡ world.server
  unfolding init_callback
  init_server ctx world =
      elim (Option-cases (
        bluetooth_proxy_init (host.calloc world.outside.rest).0
          ((host.create_flush_thread (host.clock_gettime (host.calloc world.outside.rest).1).1).0
            == 0)
          (made
            (ble_scanner_init driver
              (host.create_flush_thread
                (host.clock_gettime (host.calloc world.outside.rest).1).1).1).0)
          (host.clock_gettime (host.calloc world.outside.rest).1).0)) [
            | inl failed ↦ rw (failed, init_callback) refl
            | inr (state, made_it) ↦ rw (made_it, init_callback) refl
          ]

  cleanup_server :
      (ctx : Context) (world : World (Outside V))
      → (cleanup_callback driver host ctx world).server ≡ world.server
  unfolding cleanup_callback
  cleanup_server ctx world = elim (Option-cases (state_of ctx world.outside)) [
    | inl null ↦ rw (null, cleanup_callback) refl
    | inr (state, there) ↦ rw (there, cleanup_callback) refl
  ]

  init_callback-Owns :
      (ctx : Context) (world : World (Outside V))
      → OwnsOutside world
      → OwnsOutside (init_callback driver host ctx world).world
  init_callback-Owns ctx world h x =
      ap (holders x) (init_server ctx world)
      ∙ h x
      ∙ ap count (
          sym (
            init_callback_unseen system driver host (λ v. is_open v x) (unseen x) (radio x) ctx
              world))

  cleanup_callback-Owns :
      (ctx : Context) (world : World (Outside V))
      → OwnsOutside world
      → OwnsOutside (cleanup_callback driver host ctx world)
  cleanup_callback-Owns ctx world h x =
      ap (holders x) (cleanup_server ctx world)
      ∙ h x
      ∙ ap count (
          sym (
            cleanup_callback_unseen system driver host (λ v. is_open v x) (unseen x) (radio x) ctx
              world))

  pub bluetooth_proxy_plugin-PreservesLife :
      PreservesLife OwnsOutside (bluetooth_proxy_plugin driver host)
  unfolding configure_device_info_callback
  bluetooth_proxy_plugin-PreservesLife = record {
    served = record {
      handle_message = λ f e ctx i t d world h.
          subst
            (λ (g : Context → ℕ → ℕ → List ℕ → World (Outside V) → Answer (World (Outside V))).
              OwnsOutside (g ctx i t d world).world)
            (some-injective (handle_message_callback driver host) f e)
            (handle_message-Owns ctx i t d world h);
      configure_device_info = λ f e ctx info world h.
          subst
            (λ (g : Context
                → DeviceInfoResponse
                → World (Outside V)
                → DeviceInfoResponse × Answer (World (Outside V))).
              OwnsOutside (g ctx info world).1.world)
            (some-injective (configure_device_info_callback driver host) f e) h;
      list_entities = λ f e. absurd (none-ne-some f e);
      subscribe_states = λ f e. absurd (none-ne-some f e);
    };
    init = λ f e ctx world h.
        subst
          (λ (g : Context → World (Outside V) → Answer (World (Outside V))).
            OwnsOutside (g ctx world).world)
          (some-injective (init_callback driver host) f e) (init_callback-Owns ctx world h);
    cleanup = λ f e ctx world h.
        subst (λ (g : Context → World (Outside V) → World (Outside V)). OwnsOutside (g ctx world))
          (some-injective (cleanup_callback driver host) f e) (cleanup_callback-Owns ctx world h);
  }

  -- With the Bluetooth proxy as the plugin, and whatever fails on the way: when `main` returns, every
  -- socket that the service was given is closed. It returns 0, or it returns 1 and has not touched the
  -- plugin. Until the signal comes, the server's threads have made some steps.
  pub main-proxy :
      (outer : Host (Outside V))
      → HostLaws (system_outside system) is_open_outside outside_laws build_time outer
      → (serve : Node (Outside V) → Node (Outside V)) (server_address config_address : ℕ)
        (o : Outside V)
      → ((node : Node (Outside V))
          → Runs (system_outside system) is_open_outside outside_laws build_time node (serve node))
      → AllClosed (system_outside system) is_open_outside outside_laws build_time o
      → let plugins = bluetooth_proxy_plugin driver host ∷ [] in
        let exit =
          main (system_outside system) outer serve server_address config_address plugins o in
        AllClosed (system_outside system) is_open_outside outside_laws build_time exit.world
        × ((exit.status ≡ 0) ⊎ ((exit.status ≡ 1) × (exit.plugins ≡ plugins)))
  main-proxy outer host_laws serve server_address config_address o steps closed =
      main-AllClosed (system_outside system) is_open_outside outside_laws build_time outer host_laws
        serve server_address config_address (bluetooth_proxy_plugin driver host ∷ []) o steps
        (bluetooth_proxy_plugin-PreservesLife, tt) closed
