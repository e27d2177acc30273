-- ===== src/Scanner/Stale.antt =====
-- Which devices `cleanup_stale_devices` of ble_scanner.cpp removes.
use esphome_linux.Base.{
  ℕ, ◌+◌, ◌-◌, ◌^◌, ◌≤◌, ◌<◌, ◌≡◌, refl, ap, ◌∙◌, Bool, true, false, ◌&&◌, Option, List, [], ◌∷◌,
  All, arith, map, ltb, if◌then◌else◌, Bool-cases, inl, inr,
}
use esphome_linux.Proxy.{BleReport}
use esphome_linux.Scanner.{
  CachedDevice, no_device, stale, timeout_threshold, cleanup_stale_devices, advert_of,
}
use esphome_linux.Scanner.Loops.{send_advert, report_devices}

-- A valid device that was last seen more than a minute ago.
abbrev pub expired : ℕ → CachedDevice → Bool
expired now device = device.valid && ltb (device.last_seen + 60000) now

stale-expired :
    (now : ℕ) (device : CachedDevice)
    → 60000 ≤ now
    → now < 2 ^ 64
    → stale (timeout_threshold now) device ≡ expired now device
stale-expired now device h small =
    let threshold : timeout_threshold now ≡ now - 60000 = omega arith in
    let same : ltb device.last_seen (now - 60000) ≡ ltb (device.last_seen + 60000) now =
      ground arith in
    ap (λ (t : ℕ). device.valid && ltb device.last_seen t) threshold
    ∙ ap (λ (b : Bool). device.valid && b) same

-- From one minute after the start of the clock on, exactly the valid devices are removed that were
-- last seen more than a minute ago.
pub cleanup_stale_devices-expired :
    (now : ℕ) (cache : List CachedDevice)
    → 60000 ≤ now
    → now < 2 ^ 64
    → cleanup_stale_devices now cache
      ≡ map (λ device. if expired now device then no_device else device) cache
unfolding cleanup_stale_devices
cleanup_stale_devices-expired now [] h small = refl
cleanup_stale_devices-expired now (device ∷ cache) h small =
    ap
      (λ (b : Bool).
        (if b then no_device else device)
        ∷ map (λ d. if stale (timeout_threshold now) d then no_device else d) cache)
      (stale-expired now device h small)
    ∙ ap (λ t. (if expired now device then no_device else device) ∷ t)
        (cleanup_stale_devices-expired now cache h small)

abbrev pub SeenBy : ℕ → CachedDevice → Type 0
SeenBy now device = device.last_seen ≤ now

stale-early :
    (now : ℕ) (device : CachedDevice)
    → now < 60000
    → SeenBy now device
    → stale (timeout_threshold now) device ≡ device.valid
stale-early now device h seen =
    let threshold : timeout_threshold now ≡ now + (2 ^ 64 - 60000) = omega arith in
    let old : ltb device.last_seen (now + (2 ^ 64 - 60000)) ≡ true = ground arith in
    ap (λ (t : ℕ). device.valid && ltb device.last_seen t) threshold
    ∙ ap (λ (b : Bool). device.valid && b) old
    ∙ and_true device.valid
  where
    and_true : (b : Bool) → (b && true) ≡ b
    and_true true = refl
    and_true false = refl

module _ {W : Type 0} (callback : Option (BleReport → W → W)) where
  -- A round of the report thread in the first minute of the clock reports nothing: the difference of
  -- the times wraps around, and every device that was seen by then is removed before it is reported.
  pub report_devices-early :
      (now : ℕ) (cache : List CachedDevice) (w : W)
      → now < 60000
      → All (SeenBy now) cache
      → report_devices callback (cleanup_stale_devices now cache) w ≡ w
  unfolding report_devices cleanup_stale_devices
  report_devices-early now [] w h seen = refl
  report_devices-early now (device ∷ cache) w h (first, seen) =
      let removed : Bool → W = λ (b : Bool).
        report_devices callback (cleanup_stale_devices now cache) (
          let d = if b then no_device else device in
          if d.valid then send_advert callback (advert_of d) w else w) in
      elim (Bool-cases device.valid) [
        | inl valid ↦
            ap removed (stale-early now device h first ∙ valid)
            ∙ report_devices-early now cache w h seen
        | inr free ↦
            ap removed (stale-early now device h first ∙ free)
            ∙ ap
                (λ (b : Bool).
                  report_devices callback (cleanup_stale_devices now cache)
                    (if b then send_advert callback (advert_of device) w else w))
                free
            ∙ report_devices-early now cache w h seen
      ]
