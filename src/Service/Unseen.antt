-- ===== src/Service/Unseen.antt =====
-- What neither the server's calls nor the scanner's change, the plugin's callbacks do not change.
use esphome_linux.Base.{
  ℕ, ◌≡◌, refl, ◌∙◌, not, Option, none, some, List, ◌==◌, if◌then◌else◌, Bool-cases, Option-cases,
  inl, inr,
}
use esphome_linux.Plugin.{Context, is_negative}
use esphome_linux.Api.Server.{World, System}
use esphome_linux.Api.Handlers.Unchanged.{choose}
use esphome_linux.Proxy.{
  ProxyState, bluetooth_proxy_init, bluetooth_proxy_handle_message,
  handle_subscribe_ble_advertisements, handle_unsubscribe_ble_advertisements,
  bluetooth_proxy_cleanup,
}
use esphome_linux.Scanner.Control.{
  BleScanner, ScannerThread, event_thread, report_thread, Driver, start_threads, ble_scanner_start,
  ble_scanner_stop, ble_scanner_free, ble_scanner,
}
use esphome_linux.Service.{
  Outside, ProxyHost, state_of, init_callback, cleanup_callback, handle_message_callback,
}
use esphome_linux.Service.Radio.{Unseen, ble_scanner_init_new, deleting_unseen}

-- The calls of the radio and of the scanner's threads leave alone what `f` sees of the world.
pub record RadioUnseen {V A : Type 0} (driver : Driver V) (f : V → A) : Type 0 where
  pub start : (v : V) → f (driver.start v).1 ≡ f v
  pub stop : (v : V) → f (driver.stop v) ≡ f v
  pub pthread_create : (t : ScannerThread) (v : V) → f (driver.pthread_create t v).1 ≡ f v
  pub pthread_join : (t : ScannerThread) (v : V) → f (driver.pthread_join t v) ≡ f v

module _ {V A : Type 0} (system : System V) (driver : Driver V) (host : ProxyHost V) (f : V → A)
    (unseen : Unseen system driver host f) (radio : RadioUnseen driver f) where
  -- A call of the scanner from the world `v`.
  abbrev Same : V → ℕ × (Option BleScanner × V) → Type 0
  Same v r = f r.1.1 ≡ f v

  start_threads_unseen : (ble : BleScanner) (v : V) → Same v (start_threads driver ble v)
  start_threads_unseen ble v =
      let event = driver.pthread_create event_thread v in
      let report = driver.pthread_create report_thread event.1 in
      let w1 = radio.pthread_create event_thread v in
      let w2 = radio.pthread_create report_thread event.1 ∙ w1 in
      choose (Same v) (not (event.0 == 0)) (radio.stop event.1 ∙ w1) (
        choose (Same v) (not (report.0 == 0))
          (radio.stop (driver.pthread_join event_thread report.1)
            ∙ radio.pthread_join event_thread report.1
            ∙ w2)
          w2)

  ble_scanner_start_unseen :
      (ble : Option BleScanner) (v : V) → Same v (ble_scanner_start driver ble v)
  unfolding ble_scanner_start
  ble_scanner_start_unseen none v = refl
  ble_scanner_start_unseen (some ble) v =
      let started = driver.start v in
      choose (Same v) ble.running refl (
        choose (Same v) (not started.0) (radio.start v)
          (start_threads_unseen ble started.1 ∙ radio.start v))

  ble_scanner_stop_unseen :
      (ble : Option BleScanner) (v : V) → Same v (ble_scanner_stop driver ble v)
  unfolding ble_scanner_stop
  ble_scanner_stop_unseen none v = refl
  ble_scanner_stop_unseen (some ble) v =
      let v1 = driver.stop v in
      choose (Same v) (not ble.running) refl (
        radio.pthread_join report_thread (driver.pthread_join event_thread v1)
        ∙ radio.pthread_join event_thread v1
        ∙ radio.stop v)

  ble_scanner_free_unseen :
      (ble : Option BleScanner) (v : V) → f (ble_scanner_free driver ble v) ≡ f v
  unfolding ble_scanner_free
  ble_scanner_free_unseen none v = refl
  ble_scanner_free_unseen (some ble) v =
      let stopped = (ble_scanner_stop driver (some ble) v).1.1 in
      deleting_unseen system driver host f unseen (if ble.running then stopped else v)
      ∙ choose (λ (v' : V). f v' ≡ f v) ble.running (ble_scanner_stop_unseen (some ble) v) refl

  abbrev SameHandled : V → ℕ × (Option ProxyState × (Option BleScanner × V)) → Type 0
  SameHandled v r = f r.1.1.1 ≡ f v

  handled_unseen :
      (t : ℕ) (proxy : Option ProxyState) (ble : Option BleScanner) (v : V)
      → SameHandled v (bluetooth_proxy_handle_message (ble_scanner driver) t proxy (ble, v))
  unfolding bluetooth_proxy_handle_message handle_subscribe_ble_advertisements
      handle_unsubscribe_ble_advertisements
  handled_unseen t none ble v =
      choose (SameHandled v) (t == 66) refl (choose (SameHandled v) (t == 87) refl refl)
  handled_unseen t (some state) ble v =
      let started = ble_scanner_start driver ble v in
      let stopped = ble_scanner_stop driver ble v in
      choose (SameHandled v) (t == 66)
        (choose (SameHandled v) (not state.scanner) refl (
          choose (SameHandled v) state.subscribed refl (
            choose (SameHandled v) (is_negative started.0) (ble_scanner_start_unseen ble v)
              (ble_scanner_start_unseen ble v))))
        (choose (SameHandled v) (t == 87)
          (choose (SameHandled v) (not state.scanner) refl (
            choose (SameHandled v) (not state.subscribed) refl (
              choose (SameHandled v) (is_negative stopped.0) (ble_scanner_stop_unseen ble v)
                (ble_scanner_stop_unseen ble v))))
          refl)

  pub handle_message_unseen :
      (ctx : Context) (client_id t : ℕ) (payload : List ℕ) (world : World (Outside V))
      → f (handle_message_callback driver host ctx client_id t payload world).world.outside.rest
        ≡ f world.outside.rest
  unfolding handle_message_callback
  handle_message_unseen ctx client_id t payload world =
      handled_unseen t (state_of ctx world.outside) world.outside.ble world.outside.rest

  pub init_callback_unseen :
      (ctx : Context) (world : World (Outside V))
      → f (init_callback driver host ctx world).world.outside.rest ≡ f world.outside.rest
  unfolding init_callback bluetooth_proxy_init
  init_callback_unseen ctx world =
      let v = world.outside.rest in
      let v1 = (host.calloc v).1 in
      let v2 = (host.clock_gettime v1).1 in
      let v3 = (host.create_flush_thread v2).1 in
      let same1 = unseen.host_calloc v in
      let same3 = unseen.create_flush_thread v2 ∙ unseen.clock_gettime v1 ∙ same1 in
      elim (Bool-cases (host.calloc v).0) [
        | inr no_memory ↦ rw (no_memory, init_callback, no_memory) same1
        | inl memory ↦ elim (Bool-cases ((host.create_flush_thread v2).0 == 0)) [
          | inr no_thread ↦ rw (memory, no_thread, init_callback, memory) same3
          | inl created ↦
              rw (memory, created, init_callback)
                ((ble_scanner_init_new system driver host f unseen v3).1 ∙ same3)
        ]
      ]

  pub cleanup_callback_unseen :
      (ctx : Context) (world : World (Outside V))
      → f (cleanup_callback driver host ctx world).outside.rest ≡ f world.outside.rest
  unfolding cleanup_callback bluetooth_proxy_cleanup
  cleanup_callback_unseen ctx world = elim (Option-cases (state_of ctx world.outside)) [
    | inl null ↦ rw (null, cleanup_callback) refl
    | inr (state, there) ↦
        (let v = world.outside.rest in
          let v' = if state.flush_thread_running then host.join_flush_thread v else v in
          let joined : f v' ≡ f v =
            choose (λ (u : V). f u ≡ f v) state.flush_thread_running (unseen.join_flush_thread v)
              refl in
          let stopped = ble_scanner_stop driver world.outside.ble v' in
          rw (there, cleanup_callback)
            (choose (λ (s : Option BleScanner × V). f s.1 ≡ f v) state.scanner
              (ble_scanner_free_unseen stopped.1.0 stopped.1.1
                ∙ ble_scanner_stop_unseen world.outside.ble v'
                ∙ joined)
              joined))
  ]
