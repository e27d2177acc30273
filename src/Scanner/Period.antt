-- ===== src/Scanner/Period.antt =====
-- When the report thread of ble_scanner.cpp reports, and what.
use esphome_linux.Base.{
  suc, ◌+◌, ◌*◌, ◌<◌, ◌≡◌, refl, sym, ap, ◌∙◌, Bool, true, false, Option, some, List, [], ◌∷◌, ◌++◌,
  All, arith, map, length, ltb, if◌then◌else◌, Bool-cases, inl, inr, lt→ltb,
}
use esphome_linux.Proxy.{BleReport}
use esphome_linux.Scanner.{CachedDevice, cleanup_stale_devices, advert_of}
use esphome_linux.Scanner.Loops.{Tick, Reported, report_devices, report_rounds}

-- A round in which the thread is not asked to stop.
abbrev pub GoesOn : Tick → Type 0
GoesOn tick = (tick.stop_before ≡ false) × (tick.stop_after ≡ false)

abbrev pub valid_devices : List CachedDevice → List CachedDevice
valid_devices [] = []
valid_devices (device ∷ cache) =
    if device.valid then device ∷ valid_devices cache else valid_devices cache

module _ {W : Type 0} (f : BleReport → W → W) where
  abbrev pub send_all : List BleReport → W → W
  send_all [] w = w
  send_all (advert ∷ adverts) w = send_all adverts (f advert w)

  -- The callback is given each valid device once, in the order of the slots.
  pub report_devices-send_all :
      (cache : List CachedDevice) (w : W)
      → report_devices (some f) cache w ≡ send_all (map advert_of (valid_devices cache)) w
  unfolding report_devices
  report_devices-send_all [] w = refl
  report_devices-send_all (device ∷ cache) w = elim (Bool-cases device.valid) [
    | inl valid ↦
        ap (λ (b : Bool). report_devices (some f) cache (if b then f (advert_of device) w else w))
          valid
        ∙ report_devices-send_all cache (f (advert_of device) w)
        ∙ ap
            (λ (b : Bool).
              send_all
                (map advert_of (if b then device ∷ valid_devices cache else valid_devices cache)) w)
            (sym valid)
    | inr free ↦
        ap (λ (b : Bool). report_devices (some f) cache (if b then f (advert_of device) w else w))
          free
        ∙ report_devices-send_all cache w
        ∙ ap
            (λ (b : Bool).
              send_all
                (map advert_of (if b then device ∷ valid_devices cache else valid_devices cache)) w)
            (sym free)
  ]

module _ {W : Type 0} (callback : Option (BleReport → W → W)) where
  report_rounds-waits :
      (ticks later : List Tick) (r : Reported W)
      → All GoesOn ticks
      → r.elapsed_ms + length ticks * 100 < 10000
      → report_rounds callback (ticks ++ later) r
        ≡ report_rounds callback later (record r { elapsed_ms = r.elapsed_ms + length ticks * 100 })
  unfolding report_rounds
  report_rounds-waits [] later r go h =
      let none_yet : r.elapsed_ms + 0 * 100 ≡ r.elapsed_ms = omega arith in rw none_yet refl
  report_rounds-waits (tick ∷ ticks) later r ((before, after), go) h =
      let early : ltb (r.elapsed_ms + 100) 10000 ≡ true = lt→ltb _ _ (omega arith) in
      let total : r.elapsed_ms + 100 + length ticks * 100
          ≡ r.elapsed_ms + suc (length ticks) * 100 =
        omega arith in
      rw (before, after, early)
        (report_rounds-waits ticks later (record r { elapsed_ms = r.elapsed_ms + 100 }) go
            (omega arith)
          ∙ rw total refl)

  -- From the start of a period, 99 rounds of 100 ms pass with nothing done. The hundredth removes
  -- the stale devices, reports those that are left, and starts the next period.
  pub report_rounds-period :
      (ticks : List Tick) (tick : Tick) (later : List Tick) (cache : List CachedDevice) (w : W)
      → All GoesOn ticks
      → length ticks ≡ 99
      → GoesOn tick
      → report_rounds callback
          (ticks ++ tick ∷ later)
          (record { elapsed_ms = 0; device_cache = cache; world = w })
        ≡ report_rounds callback later (record {
          elapsed_ms = 0;
          device_cache = cleanup_stale_devices tick.now cache;
          world = report_devices callback (cleanup_stale_devices tick.now cache) w;
        })
  unfolding report_rounds
  report_rounds-period ticks tick later cache w go e (before, after) =
      let r : Reported W = record { elapsed_ms = 0; device_cache = cache; world = w } in
      let total : 0 + length ticks * 100 ≡ 9900 = omega arith in
      report_rounds-waits ticks (tick ∷ later) r go (omega arith) ∙ rw (total, before, after) refl
