-- ===== src/Scanner/Subscription.antt =====
-- The subscription of the plugin on top of the scanner that it starts and stops.
use esphome_linux.Base.{
  ℕ, ◌≡◌, refl, sym, ap, ◌∙◌, Bool, true, false, Option, none, some, arith, ◌==◌, if◌then◌else◌,
  Bool-cases, inl, inr,
}
use mathlib.Core.Path.{subst}
use esphome_linux.Plugin.{minus_one, is_negative}
use esphome_linux.Proxy.{
  ProxyState, handle_subscribe_ble_advertisements, handle_unsubscribe_ble_advertisements,
  bluetooth_proxy_handle_message,
}
use esphome_linux.Scanner.Control.{
  BleScanner, event_thread, report_thread, Driver, ble_scanner_start, ble_scanner_stop,
  ble_scanner_is_running, ble_scanner,
}
use esphome_linux.Scanner.Lifecycle.{
  DriverLaws, Consistent, ConsistentState, ble_scanner_start-Consistent,
  ble_scanner_stop-Consistent,
}

-- A scanner after a call, with its answer: 0 or -1.
pub record Answered {W : Type 0} (result : ℕ × (Option BleScanner × W)) : Type 0 where
  pub scanner : BleScanner
  pub there : result.1.0 ≡ some scanner
  pub answer : result.0 ≡ (if result.0 == 0 then 0 else minus_one)

succeeded : {W : Type 0} (scanner : BleScanner) (w : W) → Answered (0, (some scanner, w))
succeeded scanner w = record { scanner = scanner; there = refl; answer = refl }

refused : {W : Type 0} (scanner : BleScanner) (w : W) → Answered (minus_one, (some scanner, w))
refused scanner w = record { scanner = scanner; there = refl; answer = refl }

module _ {W : Type 0} (driver : Driver W) where
  ble_scanner_start-Answered :
      (scanner : BleScanner) (w : W) → Answered (ble_scanner_start driver (some scanner) w)
  unfolding ble_scanner_start
  ble_scanner_start-Answered scanner w =
      let event = driver.pthread_create event_thread (driver.start w).1 in
      let report = driver.pthread_create report_thread event.1 in
      elim (Bool-cases scanner.running) [
        | inl on ↦ rw on (refused _ _)
        | inr off ↦ elim (Bool-cases (driver.start w).0) [
          | inr thrown ↦ rw (off, thrown) (refused _ _)
          | inl begun ↦ elim (Bool-cases (event.0 == 0)) [
            | inr lost ↦ rw (off, begun, lost) (refused _ _)
            | inl made ↦ elim (Bool-cases (report.0 == 0)) [
              | inr lost ↦ rw (off, begun, made, lost) (refused _ _)
              | inl both ↦ rw (off, begun, made, both) (succeeded _ _)
            ]
          ]
        ]
      ]

  ble_scanner_stop-Answered :
      (scanner : BleScanner) (w : W) → Answered (ble_scanner_stop driver (some scanner) w)
  unfolding ble_scanner_stop
  ble_scanner_stop-Answered scanner w = elim (Bool-cases scanner.running) [
    | inl on ↦ rw on (succeeded _ _)
    | inr off ↦ rw off (refused _ _)
  ]

module _ {W : Type 0} (driver : Driver W) (scans : W → Bool) (threads : W → ℕ)
    (laws : DriverLaws driver scans threads) where
  -- The plugin is subscribed exactly if its scanner runs, and the scanner is consistent.
  abbrev pub Agrees : Option ProxyState → Option BleScanner × W → Type 0
  Agrees (some state) (some scanner, w) =
      (state.scanner ≡ true)
      × (state.subscribed ≡ scanner.running)
      × Consistent driver scans threads laws scanner w
  Agrees none s = ⊥
  Agrees (some state) (none, w) = ⊥

  abbrev After : ℕ × (Option ProxyState × (Option BleScanner × W)) → Type 0
  After handled = Agrees handled.1.0 handled.1.1

  abbrev Answers : ℕ × (Option ProxyState × (Option BleScanner × W)) → Type 0
  Answers handled = After handled × (handled.0 ≡ 0)

  agree :
      (state : ProxyState) (s : Option BleScanner × W) (scanner : BleScanner)
      → s.0 ≡ some scanner
      → state.scanner ≡ true
      → ble_scanner_is_running s.0 ≡ state.subscribed
      → ConsistentState driver scans threads laws s
      → Agrees (some state) s
  unfolding ble_scanner_is_running
  agree state (none, w) scanner e present same h = cc
  agree state (some scanner', w) scanner e present same h = (present, sym same, h)

  subscribe-Agrees :
      (state : ProxyState) (scanner : BleScanner) (w : W)
      → Agrees (some state) (some scanner, w)
      → let handled =
          handle_subscribe_ble_advertisements (ble_scanner driver) (some state) (some scanner, w) in
        Agrees handled.1.0 handled.1.1
  unfolding handle_subscribe_ble_advertisements
  subscribe-Agrees state scanner w (present, same, h) =
      let handled : ℕ × (Option ProxyState × (Option BleScanner × W)) =
        handle_subscribe_ble_advertisements (ble_scanner driver) (some state) (some scanner, w) in
      elim (Bool-cases state.subscribed) [
        | inl already ↦
            (let step : handled ≡ (0, (some state, (some scanner, w))) =
                rw (present, already) refl in
              subst After (sym step) (present, same, h))
        | inr idle ↦
            let started = ble_scanner_start driver (some scanner) w in
            let a = ble_scanner_start-Answered driver scanner w in
            let c = ble_scanner_start-Consistent driver scans threads laws scanner w h in
            let off : scanner.running ≡ false = sym same ∙ idle in
            elim (Bool-cases (started.0 == 0)) [
              | inl done ↦
                  let good : is_negative started.0 ≡ false = ground arith in
                  let step : handled ≡ (0, (some (record state { subscribed = true }), started.1)) =
                    rw (present, idle, good) refl in
                  subst After (sym step) (
                    agree (record state { subscribed = true }) started.1 a.scanner a.there present
                      (c.1.0 done).1 c.0)
              | inr failed ↦
                  let value : started.0 ≡ minus_one =
                    a.answer ∙ ap (λ (b : Bool). if b then 0 else minus_one) failed in
                  let bad : is_negative started.0 ≡ true = rw value refl in
                  let stopped : ble_scanner_is_running started.1.0 ≡ false =
                    elim (Bool-cases (ble_scanner_is_running started.1.0)) [
                      | inr no_run ↦ no_run
                      | inl runs ↦ (let done = c.1.1 (off, runs) in cc)
                    ] in
                  let step : handled ≡ (minus_one, (some state, started.1)) =
                    rw (present, idle, bad) refl in
                  subst After (sym step)
                    (agree state started.1 a.scanner a.there present (stopped ∙ sym idle) c.0)
            ]
      ]

  unsubscribe-Agrees :
      (state : ProxyState) (scanner : BleScanner) (w : W)
      → Agrees (some state) (some scanner, w)
      → let handled =
          handle_unsubscribe_ble_advertisements
            (ble_scanner driver)
            (some state)
            (some scanner, w) in
        Agrees handled.1.0 handled.1.1 × (handled.0 ≡ 0)
  unfolding handle_unsubscribe_ble_advertisements
  unsubscribe-Agrees state scanner w (present, same, h) =
      let handled : ℕ × (Option ProxyState × (Option BleScanner × W)) =
        handle_unsubscribe_ble_advertisements (ble_scanner driver) (some state) (some scanner, w) in
      elim (Bool-cases state.subscribed) [
        | inr idle ↦
            (let step : handled ≡ (0, (some state, (some scanner, w))) = rw (present, idle) refl in
              subst Answers (sym step) ((present, same, h), refl))
        | inl active ↦
            let stopped = ble_scanner_stop driver (some scanner) w in
            let a = ble_scanner_stop-Answered driver scanner w in
            let c = ble_scanner_stop-Consistent driver scans threads laws scanner w h in
            let done : (stopped.0 == 0) ≡ true = c.1.1 (sym same ∙ active) in
            let good : is_negative stopped.0 ≡ false = ground arith in
            let step : handled ≡ (0, (some (record state { subscribed = false }), stopped.1)) =
              rw (present, active, good) refl in
            subst Answers (sym step) (
              agree (record state { subscribed = false }) stopped.1 a.scanner a.there present c.2
                  c.0,
              refl,
            )
      ]

  pub bluetooth_proxy_handle_message-Agrees :
      (msg_type : ℕ) (state : ProxyState) (scanner : BleScanner) (w : W)
      → Agrees (some state) (some scanner, w)
      → let handled =
          bluetooth_proxy_handle_message
            (ble_scanner driver)
            msg_type
            (some state)
            (some scanner, w) in
        Agrees handled.1.0 handled.1.1 × (if msg_type == 87 then handled.0 ≡ 0 else Unit {0})
  unfolding bluetooth_proxy_handle_message
  bluetooth_proxy_handle_message-Agrees msg_type state scanner w (present, same, h) =
      elim (Bool-cases (msg_type == 66)) [
        | inl subscribe ↦
            let other : (msg_type == 87) ≡ false = ground arith in
            rw (subscribe, other) (subscribe-Agrees state scanner w (present, same, h), tt)
        | inr other ↦ elim (Bool-cases (msg_type == 87)) [
          | inl unsubscribe ↦
              rw (other, unsubscribe) (unsubscribe-Agrees state scanner w (present, same, h))
          | inr none_of_these ↦ rw (other, none_of_these) ((present, same, h), tt)
        ]
      ]
