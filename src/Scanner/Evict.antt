-- ===== src/Scanner/Evict.antt =====
-- Which entry of the cache a new device takes, `get_or_create_cached_device` of ble_scanner.cpp.
use esphome_linux.Base.{
  ℕ, suc, ◌+◌, ◌≤◌, ◌<◌, ◌≡◌, ◌⊎◌, refl, sym, ap, ◌∙◌, Bool, true, false, not, ◌||◌, none, some,
  List, [], ◌∷◌, ◌++◌, All, All-append, arith, length, set, get_or-middle, length-append,
  append-nil, append_assoc, ltb, if◌then◌else◌, Bool-cases, inl, inr, ltb→lt, ltb→le,
}
use mathlib.Core.Path.{subst}
use esphome_linux.Scanner.{
  CachedDevice, no_device, device_at, is_entry, find_device, find_oldest,
  get_or_create_cached_device,
}

-- Some valid entry has the address.
abbrev pub known : List ℕ → List CachedDevice → Bool
known mac [] = false
known mac (device ∷ cache) = is_entry mac device || known mac cache

-- A valid entry that was seen no earlier than `seen`.
abbrev pub SeenSince : ℕ → CachedDevice → Type 0
SeenSince seen device = (device.valid ≡ true) × (seen ≤ device.last_seen)

-- An index whose entry is not valid, or one of those seen longest ago where all are valid.
abbrev pub IsVictim : List CachedDevice → ℕ → Type 0
IsVictim cache i =
    (i < length cache)
    × (((device_at cache i).valid ≡ false) ⊎ All (SeenSince (device_at cache i).last_seen) cache)

find_device-known :
    (i : ℕ) (mac : List ℕ) (cache : List CachedDevice)
    → known mac cache ≡ false
    → find_device i mac cache ≡ none
unfolding find_device
find_device-known i mac [] h = refl
find_device-known i mac (device ∷ cache) h = elim (Bool-cases (is_entry mac device)) [
  | inl here ↦ (let no : true ≡ false = rw here at h in cc)
  | inr other ↦ rw other (find_device-known (i + 1) mac cache (rw other at h))
]

-- The slot that is found, and that its entry is the one looked for.
pub record Found (i : ℕ) (mac : List ℕ) (cache : List CachedDevice) : Type 0 where
  pub slot : ℕ
  pub within : slot < length cache
  pub is_there : is_entry mac (device_at cache slot) ≡ true
  pub found : find_device i mac cache ≡ some (i + slot)

find_device-Found :
    (i : ℕ) (mac : List ℕ) (cache : List CachedDevice) → known mac cache ≡ true → Found i mac cache
unfolding find_device
find_device-Found i mac [] h = cc
find_device-Found i mac (device ∷ cache) h = elim (Bool-cases (is_entry mac device)) [
  | inl here ↦ record {
    slot = 0;
    within = omega arith;
    is_there = here;
    found = rw here (ap some (omega arith));
  }
  | inr other ↦
      let later = find_device-Found (i + 1) mac cache (rw other at h) in
      let next : i + 1 + later.slot ≡ i + suc later.slot = omega arith in
      record {
        slot = suc later.slot;
        within = omega (arith, later.within);
        is_there = later.is_there;
        found = rw other (later.found ∙ ap some next);
      }
]

SeenSince-earlier :
    (seen earlier : ℕ) (cache : List CachedDevice)
    → earlier ≤ seen
    → All (SeenSince seen) cache
    → All (SeenSince earlier) cache
SeenSince-earlier seen earlier [] h all = tt
SeenSince-earlier seen earlier (device ∷ cache) h ((valid, since), all) =
    ((valid, omega arith), SeenSince-earlier seen earlier cache h all)

-- One round of the second loop, at an entry that is valid.
find_oldest-valid :
    (i : ℕ) (device : CachedDevice) (cache : List CachedDevice) (oldest seen : ℕ) (older : Bool)
    → device.valid ≡ true
    → ltb device.last_seen seen ≡ older
    → find_oldest i (device ∷ cache) oldest seen
      ≡ find_oldest
          (i + 1)
          cache
          (if older then i else oldest)
          (if older then device.last_seen else seen)
unfolding find_oldest
find_oldest-valid i device cache oldest seen older valid e =
    let rest = λ (b : Bool).
      find_oldest (i + 1) cache (if b then i else oldest) (if b then device.last_seen else seen) in
    ap (λ (b : Bool). if not b then i else rest (ltb device.last_seen seen)) valid ∙ ap rest e

find_oldest-free :
    (i : ℕ) (device : CachedDevice) (cache : List CachedDevice) (oldest seen : ℕ)
    → device.valid ≡ false
    → find_oldest i (device ∷ cache) oldest seen ≡ i
unfolding find_oldest
find_oldest-free i device cache oldest seen free = ground (arith, free)

-- The loop behind a front whose entries are valid and not older than the best one so far.
find_oldest-IsVictim :
    (front : List CachedDevice) (cache : List CachedDevice) (oldest seen : ℕ)
    → oldest < length (front ++ cache)
    → (device_at (front ++ cache) oldest).last_seen ≡ seen
    → All (SeenSince seen) front
    → IsVictim (front ++ cache) (find_oldest (length front) cache oldest seen)
unfolding find_oldest
find_oldest-IsVictim front [] oldest seen within e all =
    let same : (device_at front oldest).last_seen ≡ seen = rw (append-nil front) at e in
    (within, inr (rw (append-nil front, same) all))
find_oldest-IsVictim front (device ∷ cache) oldest seen within e all =
    let middle : device_at (front ++ device ∷ cache) (length front) ≡ device =
      get_or-middle front device cache no_device in
    let here : length front < length (front ++ device ∷ cache) =
      omega (arith, length-append front (device ∷ cache)) in
    let assoc : (front ++ device ∷ []) ++ cache ≡ front ++ device ∷ cache =
      append_assoc front (device ∷ []) cache in
    let next : length (front ++ device ∷ []) ≡ length front + 1 =
      omega (arith, length-append front (device ∷ [])) in
    elim (Bool-cases device.valid) [
      | inr free ↦
          subst (IsVictim (front ++ device ∷ cache))
            (sym (find_oldest-free (length front) device cache oldest seen free))
            (here, inl (ap (λ (d : CachedDevice). d.valid) middle ∙ free))
      | inl valid ↦ elim (Bool-cases (ltb device.last_seen seen)) [
        | inl older ↦
            subst (IsVictim (front ++ device ∷ cache))
              (sym (find_oldest-valid (length front) device cache oldest seen true valid older))
              (rw (assoc, next) at
                (find_oldest-IsVictim (front ++ device ∷ []) cache (length front) device.last_seen
                  (rw assoc here) (rw assoc (ap (λ (d : CachedDevice). d.last_seen) middle))
                  (All-append (SeenSince device.last_seen) front (device ∷ [])
                    (SeenSince-earlier seen device.last_seen front (omega (arith, ltb→lt _ _ older))
                      all)
                    ((valid, omega arith), tt))))
        | inr newer ↦
            subst (IsVictim (front ++ device ∷ cache))
              (sym (find_oldest-valid (length front) device cache oldest seen false valid newer))
              (rw (assoc, next) at
                (find_oldest-IsVictim (front ++ device ∷ []) cache oldest seen (rw assoc within)
                  (rw assoc e)
                  (All-append (SeenSince seen) front (device ∷ []) all
                    ((valid, ltb→le _ _ newer), tt))))
      ]
    ]

-- For an address that the cache has, its entry is found and nothing changes.
pub get_or_create_cached_device-known :
    (now : ℕ) (mac : List ℕ) (cache : List CachedDevice)
    → known mac cache ≡ true
    → (i : ℕ) × (get_or_create_cached_device now mac cache ≡ (i, cache))
      × (i < length cache)
      × (is_entry mac (device_at cache i) ≡ true)
unfolding get_or_create_cached_device
get_or_create_cached_device-known now mac cache h =
    let d = find_device-Found 0 mac cache h in
    let e : 0 + d.slot ≡ d.slot = omega arith in
    (d.slot, rw (d.found, e, get_or_create_cached_device) refl, d.within, d.is_there)

-- A new entry for an address.
abbrev pub fresh : ℕ → List ℕ → CachedDevice
fresh now mac = record no_device { address = mac; valid = true; last_seen = now }

-- For an address that the cache does not have, a new entry is written over an entry that is not
-- valid if there is one, and over one of those seen longest ago if all are valid; the others stay.
pub get_or_create_cached_device-IsVictim :
    (now : ℕ) (mac : List ℕ) (cache : List CachedDevice)
    → 1 ≤ length cache
    → known mac cache ≡ false
    → (i : ℕ) × (get_or_create_cached_device now mac cache ≡ (i, set cache i (fresh now mac)))
      × IsVictim cache i
unfolding get_or_create_cached_device
get_or_create_cached_device-IsVictim now mac cache some_slot h =
    let victim = find_oldest-IsVictim [] cache 0 (device_at cache 0).last_seen some_slot refl tt in
    (
      find_oldest 0 cache 0 (device_at cache 0).last_seen,
      rw (find_device-known 0 mac cache h, get_or_create_cached_device) refl,
      victim,
    )
