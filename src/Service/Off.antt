-- ===== src/Service/Off.antt =====
-- A plugin that has not started, or has been cleaned up.
use esphome_linux.Base.{
  ℕ, ◌≡◌, refl, sym, Bool, true, false, Option, none, some, List, All, ◌==◌, if◌then◌else◌,
  Bool-cases, Option-cases, inl, inr,
}
use mathlib.Core.Path.{subst}
use mathlib.Core.Option.{some-injective, none-ne-some}
use esphome_linux.Proto.Response.{DeviceInfoResponse}
use esphome_linux.Plugin.{Context, Answer, minus_one}
use esphome_linux.Plugin.Invariant.{Preserves, with_ctx-Preserves}
use esphome_linux.Api.Server.{World, Node, System}
use esphome_linux.Api.Handlers.Unchanged.{dispatch_message-Keeps}
use esphome_linux.Proxy.{ProxyState, bluetooth_proxy_init, bluetooth_proxy_cleanup}
use esphome_linux.Scanner.Control.{
  BleScanner, Driver, event_thread, report_thread, ble_scanner_stop, ble_scanner_free, ble_scanner,
}
use esphome_linux.Scanner.Lifecycle.{DriverLaws, Consistent, ble_scanner_stop-Consistent}
use esphome_linux.Service.{
  Outside, ProxyHost, system_outside, state_of, init_callback, cleanup_callback,
  handle_message_callback, configure_device_info_callback, bluetooth_proxy_plugin, report_to,
  flush_from, Event, message, report, flush, happen,
}
use esphome_linux.Service.Radio.{
  Unseen, ble_scanner_init_new, Idle, Idle-same, Sound, Sound-same, ble_scanner_free-Idle,
  stopped-Idle,
}
use esphome_linux.Service.Sound.{handle_message-stateless, SoundWorld, OffWorld}

no_state : {V : Type 0} (ctx : Context) (o : Outside V) → o.proxy ≡ none → state_of ctx o ≡ none
no_state ctx o e = elim (Bool-cases (ctx.plugin_data == 0)) [
  | inl null ↦ rw null refl
  | inr there ↦ rw there e
]

module _ {V : Type 0} (system : System V) (driver : Driver V) (host : ProxyHost V)
    (scans : V → Bool) (threads : V → ℕ) (laws : DriverLaws driver scans threads)
    (no_scan : Unseen system driver host scans)
    (no_thread : Unseen system driver host threads) where
  abbrev pub Off : World (Outside V) → Type 0
  Off = OffWorld system driver host scans threads laws no_scan no_thread

  handle_message-Off :
      (ctx : Context) (client_id t : ℕ) (payload : List ℕ) (world : World (Outside V))
      → Off world
      → Off (handle_message_callback driver host ctx client_id t payload world).world
  unfolding handle_message_callback
  handle_message-Off ctx client_id t payload world (e, absent, idle) =
      let o = world.outside in
      let same = handle_message-stateless (ble_scanner driver) t (o.ble, o.rest) in
      let none_there : (if ctx.plugin_data == 0 then o.proxy else none) ≡ none =
        elim (Bool-cases (ctx.plugin_data == 0)) [
          | inl null ↦ rw null e
          | inr there ↦ rw there refl
        ] in
      rw (no_state ctx o e) (
        subst
          (λ (r : Option ProxyState × (Option BleScanner × V)).
            ((if ctx.plugin_data == 0 then o.proxy else r.0) ≡ none)
            × (r.1.0 ≡ none)
            × Idle scans threads r.1.1)
          (sym same) (none_there, absent, idle))

  pub bluetooth_proxy_plugin-PreservesOff : Preserves Off (bluetooth_proxy_plugin driver host)
  unfolding configure_device_info_callback
  bluetooth_proxy_plugin-PreservesOff = record {
    handle_message = λ f e ctx i t d world h.
        subst
          (λ (g : Context → ℕ → ℕ → List ℕ → World (Outside V) → Answer (World (Outside V))).
            Off (g ctx i t d world).world)
          (some-injective (handle_message_callback driver host) f e)
          (handle_message-Off ctx i t d world h);
    configure_device_info = λ f e ctx info world h.
        subst
          (λ (g : Context
              → DeviceInfoResponse
              → World (Outside V)
              → DeviceInfoResponse × Answer (World (Outside V))).
            Off (g ctx info world).1.world)
          (some-injective (configure_device_info_callback driver host) f e) h;
    list_entities = λ f e. absurd (none-ne-some f e);
    subscribe_states = λ f e. absurd (none-ne-some f e);
  }

  pub happen-Off :
      (build_time : List ℕ) (event : Event) (node : Node (Outside V))
      → Off node.world
      → All (Preserves Off) node.plugins
      → Off (happen system build_time event node).world
  unfolding happen report_to flush_from
  happen-Off build_time (message slot t payload) node h hs =
      (dispatch_message-Keeps (system_outside system) build_time slot Off
        (λ fd bytes world kept. (
          kept.0,
          kept.1,
          Idle-same scans threads (no_scan.send fd bytes world.outside.rest)
              (no_thread.send fd bytes world.outside.rest) kept.2,
        ))
        (λ world kept. kept) (Preserves Off) (λ p hp. hp) (with_ctx-Preserves Off) t payload node
        (h, hs)).0
  happen-Off build_time (report now ctx advert) node h hs =
      rw (no_state ctx node.world.outside h.0, report_to) h
  happen-Off build_time (flush now) node h hs = rw (h.0, flush_from) h

  -- Starting the plugin fails and leaves it off, or gives it its state, which agrees with the scanner.
  pub data Starts (world : World (Outside V)) (answer : Answer (World (Outside V))) : Type 0 where
    fails : answer.result ≡ minus_one → Off answer.world → Starts world answer
    succeeds :
        answer.result ≡ 0
        → answer.ctx.plugin_data ≡ host.state_address
        → SoundWorld system driver host scans threads laws no_scan no_thread answer.world
        → Starts world answer

  pub init_callback-Starts :
      (ctx : Context) (world : World (Outside V))
      → Off world
      → Starts world (init_callback driver host ctx world)
  unfolding init_callback bluetooth_proxy_init
  init_callback-Starts ctx world (e, absent, idle) =
      let v = world.outside.rest in
      let v1 = (host.calloc v).1 in
      let v2 = (host.clock_gettime v1).1 in
      let v3 = (host.create_flush_thread v2).1 in
      let idle1 = Idle-same scans threads (no_scan.host_calloc v) (no_thread.host_calloc v) idle in
      let idle2 =
        Idle-same scans threads (no_scan.clock_gettime v1) (no_thread.clock_gettime v1) idle1 in
      let idle3 =
        Idle-same scans threads (no_scan.create_flush_thread v2) (no_thread.create_flush_thread v2)
          idle2 in
      let new_scan = ble_scanner_init_new system driver host scans no_scan v3 in
      let new_thread = ble_scanner_init_new system driver host threads no_thread v3 in
      let idle4 = Idle-same scans threads new_scan.1 new_thread.1 idle3 in
      elim (Bool-cases (host.calloc v).0) [
        | inr no_memory ↦ rw (no_memory, init_callback, no_memory) (fails refl (e, absent, idle1))
        | inl memory ↦ elim (Bool-cases ((host.create_flush_thread v2).0 == 0)) [
          | inr no_thread_made ↦
              rw (memory, no_thread_made, init_callback, memory) (fails refl (e, absent, idle3))
          | inl created ↦ elim new_scan.0 [
            | inl none_made ↦
                rw (memory, created, none_made, init_callback)
                  (succeeds refl refl (refl, refl, idle4))
            | inr one_made ↦
                rw (memory, created, one_made, init_callback)
                  (succeeds refl refl (refl, refl, idle4))
          ]
        ]
      ]

  joined-Sound :
      (running : Bool) (proxy : Option ProxyState) (ble : Option BleScanner) (v : V)
      → Sound scans threads proxy ble v
      → Sound scans threads proxy ble (if running then host.join_flush_thread v else v)
  joined-Sound true proxy ble v h =
      Sound-same scans threads proxy ble (no_scan.join_flush_thread v)
        (no_thread.join_flush_thread v) h
  joined-Sound false proxy ble v h = h

  abbrev Ended : Option ProxyState × (Option BleScanner × V) → Type 0
  Ended r = (r.0 ≡ none) × (r.1.0 ≡ none) × Idle scans threads r.1.1

  stopped_free-Idle :
      (ble : BleScanner) (v : V)
      → Consistent driver scans threads laws ble v
      → let stopped = ble_scanner_stop driver (some ble) v in
        Idle scans threads (ble_scanner_free driver stopped.1.0 stopped.1.1)
  unfolding ble_scanner_stop
  stopped_free-Idle ble v h =
      let c = ble_scanner_stop-Consistent driver scans threads laws ble v h in
      elim (Bool-cases ble.running) [
        | inr off ↦ rw off (
            ble_scanner_free-Idle system driver host scans threads laws no_scan no_thread
              (record ble { running = false }) v
              (stopped-Idle system driver host scans threads laws no_scan no_thread ble v off h))
        | inl on ↦
            (let kept = rw on at c in
              rw on (
                ble_scanner_free-Idle system driver host scans threads laws no_scan no_thread
                  (record ble { running = false; stop_requested = true })
                  (driver.pthread_join report_thread
                    (driver.pthread_join event_thread (driver.stop v)))
                  kept.0))
      ]

  cleaned :
      (state : ProxyState) (ble : Option BleScanner) (v : V)
      → Sound scans threads (some state) ble v
      → Ended (bluetooth_proxy_cleanup (ble_scanner driver) (some state) (ble, v))
  unfolding bluetooth_proxy_cleanup
  cleaned state none v (absent, off, idle) = rw absent (refl, refl, idle)
  cleaned state (some ble) v (present, same, h) = rw present (refl, refl, stopped_free-Idle ble v h)

  pub cleanup_callback-Off :
      (ctx : Context) (world : World (Outside V))
      → (ctx.plugin_data == 0) ≡ false
      → SoundWorld system driver host scans threads laws no_scan no_thread world
      → Off (cleanup_callback driver host ctx world)
  unfolding cleanup_callback
  cleanup_callback-Off ctx world there h =
      let o = world.outside in
      elim (Option-cases o.proxy) [
        | inl none_yet ↦
            (let off = rw none_yet at h in
              rw (there, none_yet, cleanup_callback) (none_yet, off.0, off.1))
        | inr (state, mine) ↦
            (let sound = rw mine at h in
              rw (there, mine, cleanup_callback)
                (cleaned state o.ble
                  (if state.flush_thread_running then host.join_flush_thread o.rest else o.rest)
                  (joined-Sound state.flush_thread_running (some state) o.ble o.rest sound)))
      ]
