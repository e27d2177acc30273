-- ===== src/Scanner/Lifecycle.antt =====
-- Starting and stopping the scanner of ble_scanner.cpp, and the plugin's subscription on top of it.
use esphome_linux.Base.{
  ℕ, ◌+◌, ◌-◌, ◌≡◌, ◌↔◌, refl, ap, ◌∙◌, Bool, true, false, Option, none, some, arith, ◌==◌,
  if◌then◌else◌, Bool-cases, inl, inr,
}
use esphome_linux.Scanner.Control.{
  BleScanner, ScannerThread, event_thread, report_thread, Driver, ble_scanner_start,
  ble_scanner_stop, ble_scanner_is_running,
}

-- What is relied on of libblepp and the threads: whether the radio scans, and how many threads of
-- the scanner there are. A start without an exception makes it scan, a stop ends it, a thread that is
-- created is one more, and one that is joined is one less.
pub record DriverLaws {W : Type 0} (driver : Driver W) (scans : W → Bool) (threads : W → ℕ)
    : Type 0 where
  pub start_scans :
      (w : W) → scans (driver.start w).1 ≡ (if (driver.start w).0 then true else scans w)
  pub start_threads : (w : W) → threads (driver.start w).1 ≡ threads w
  pub stop_scans : (w : W) → scans (driver.stop w) ≡ false
  pub stop_threads : (w : W) → threads (driver.stop w) ≡ threads w
  pub create_scans : (t : ScannerThread) (w : W) → scans (driver.pthread_create t w).1 ≡ scans w
  pub create_threads :
      (t : ScannerThread) (w : W)
      → threads (driver.pthread_create t w).1
        ≡ (if (driver.pthread_create t w).0 == 0 then threads w + 1 else threads w)
  pub join_scans : (t : ScannerThread) (w : W) → scans (driver.pthread_join t w) ≡ scans w
  pub join_threads : (t : ScannerThread) (w : W) → threads (driver.pthread_join t w) ≡ threads w - 1

module _ {W : Type 0} (driver : Driver W) (scans : W → Bool) (threads : W → ℕ)
    (laws : DriverLaws driver scans threads) where
  -- A scanner that runs scans with two threads, and one that does not run does not scan and has none.
  abbrev pub Consistent : BleScanner → W → Type 0
  Consistent scanner w =
      (scans w ≡ scanner.running) × (threads w ≡ (if scanner.running then 2 else 0))

  abbrev pub ConsistentState : Option BleScanner × W → Type 0
  ConsistentState (none, w) = Unit {0}
  ConsistentState (some scanner, w) = Consistent scanner w

  pub ble_scanner_start-Consistent :
      (scanner : BleScanner) (w : W)
      → Consistent scanner w
      → let started = ble_scanner_start driver (some scanner) w in
        ConsistentState started.1
        × (((started.0 == 0) ≡ true)
            ↔ ((scanner.running ≡ false) × (ble_scanner_is_running started.1.0 ≡ true)))
  unfolding ble_scanner_start ble_scanner_is_running
  ble_scanner_start-Consistent scanner w (hs, ht) = elim (Bool-cases scanner.running) [
    | inl on ↦ rw on (
      (hs ∙ on, ht ∙ ap (λ (b : Bool). if b then 2 else 0) on),
      ((λ no. cc), (λ no. (let other = no.0 in cc))),
    )
    | inr off ↦
        let still : scans w ≡ false = hs ∙ off in
        let none_yet : threads w ≡ 0 = ht ∙ ap (λ (b : Bool). if b then 2 else 0) off in
        let w' = (driver.start w).1 in
        let event = driver.pthread_create event_thread w' in
        let report = driver.pthread_create report_thread event.1 in
        elim (Bool-cases (driver.start w).0) [
          | inr thrown ↦
              let quiet : scans w' ≡ false =
                laws.start_scans w
                ∙ ap (λ (b : Bool). if b then true else scans w) thrown
                ∙ still in
              rw (off, thrown)
                (
                  (quiet, laws.start_threads w ∙ none_yet),
                  ((λ no. cc), (λ no. (let other = no.1 in cc))),
                )
          | inl begun ↦ elim (Bool-cases (event.0 == 0)) [
            | inr lost ↦
                let count : threads event.1 ≡ 0 =
                  laws.create_threads event_thread w'
                  ∙ ap (λ (b : Bool). if b then threads w' + 1 else threads w') lost
                  ∙ laws.start_threads w
                  ∙ none_yet in
                rw (off, begun, lost)
                  (
                    (laws.stop_scans event.1, laws.stop_threads event.1 ∙ count),
                    ((λ no. cc), (λ no. (let other = no.1 in cc))),
                  )
            | inl made ↦
                let count : threads event.1 ≡ 1 =
                  laws.create_threads event_thread w'
                  ∙ ap (λ (b : Bool). if b then threads w' + 1 else threads w') made
                  ∙ omega (arith, laws.start_threads w, none_yet) in
                let radio : scans event.1 ≡ true =
                  laws.create_scans event_thread w'
                  ∙ laws.start_scans w
                  ∙ ap (λ (b : Bool). if b then true else scans w) begun in
                elim (Bool-cases (report.0 == 0)) [
                  | inr lost ↦
                      let one : threads report.1 ≡ 1 =
                        laws.create_threads report_thread event.1
                        ∙ ap (λ (b : Bool). if b then threads event.1 + 1 else threads event.1) lost
                        ∙ count in
                      let joined = driver.pthread_join event_thread report.1 in
                      let none_left : threads joined ≡ 0 =
                        omega (arith, laws.join_threads event_thread report.1, one) in
                      rw (off, begun, made, lost)
                        (
                          (laws.stop_scans joined, laws.stop_threads joined ∙ none_left),
                          ((λ no. cc), (λ no. (let other = no.1 in cc))),
                        )
                  | inl both ↦
                      let two : threads report.1 ≡ 2 =
                        laws.create_threads report_thread event.1
                        ∙ ap (λ (b : Bool). if b then threads event.1 + 1 else threads event.1) both
                        ∙ omega (arith, count) in
                      rw (off, begun, made, both)
                        (
                          (laws.create_scans report_thread event.1 ∙ radio, two),
                          ((λ done. (refl, refl)), (λ done. refl)),
                        )
                ]
          ]
        ]
  ]

  -- Stopping a scanner answers 0 exactly if it was running, and leaves one that neither runs nor
  -- scans and has no thread.
  pub ble_scanner_stop-Consistent :
      (scanner : BleScanner) (w : W)
      → Consistent scanner w
      → let stopped = ble_scanner_stop driver (some scanner) w in
        ConsistentState stopped.1
        × (((stopped.0 == 0) ≡ true) ↔ (scanner.running ≡ true))
        × (ble_scanner_is_running stopped.1.0 ≡ false)
  unfolding ble_scanner_stop ble_scanner_is_running
  ble_scanner_stop-Consistent scanner w (hs, ht) = elim (Bool-cases scanner.running) [
    | inr off ↦
        rw off (
          (hs ∙ off, ht ∙ ap (λ (b : Bool). if b then 2 else 0) off),
          ((λ no. cc), (λ no. cc)),
          refl,
        )
    | inl on ↦
        let two : threads w ≡ 2 = ht ∙ ap (λ (b : Bool). if b then 2 else 0) on in
        let w1 = driver.stop w in
        let w2 = driver.pthread_join event_thread w1 in
        let none_left : threads (driver.pthread_join report_thread w2) ≡ 0 = omega (
          arith,
          laws.join_threads report_thread w2,
          laws.join_threads event_thread w1,
          laws.stop_threads w,
          two,
        ) in
        let quiet =
          laws.join_scans report_thread w2 ∙ laws.join_scans event_thread w1 ∙ laws.stop_scans w in
        rw on ((quiet, none_left), ((λ done. refl), (λ done. refl)), refl)
  ]
