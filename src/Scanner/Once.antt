-- ===== src/Scanner/Once.antt =====
-- No address has two valid entries in the cache of ble_scanner.cpp.
use mathlib.Core.Path.{subst}
use esphome_linux.Base.{
  ℕ, zero, suc, ◌≡◌, refl, sym, ap, ◌∙◌, Bool, true, false, ◌&&◌, ◌||◌, List, [], ◌∷◌, arith, map,
  set, replicate, ◌==◌, if◌then◌else◌, Bool-cases, inl, inr,
}
use esphome_linux.Scanner.{CachedDevice, no_device, device_at, same_bytes, is_entry, stale}
use esphome_linux.Scanner.Evict.{known}

abbrev pub Once : List CachedDevice → Type 0
Once [] = Unit {0}
Once (device ∷ cache) = ((device.valid && known device.address cache) ≡ false) × Once cache

pub same_bytes_refl : (xs : List ℕ) → same_bytes xs xs ≡ true
same_bytes_refl [] = refl
same_bytes_refl (x ∷ xs) = let e : (x == x) ≡ true = ground arith in rw e (same_bytes_refl xs)

same_bytes_comm : (xs ys : List ℕ) → same_bytes xs ys ≡ same_bytes ys xs
same_bytes_comm [] [] = refl
same_bytes_comm [] (y ∷ ys) = refl
same_bytes_comm (x ∷ xs) [] = refl
same_bytes_comm (x ∷ xs) (y ∷ ys) =
    let e : (x == y) ≡ (y == x) = ground arith in
    ap (λ (b : Bool). b && same_bytes xs ys) e
    ∙ ap (λ (b : Bool). (y == x) && b) (same_bytes_comm xs ys)

or_left : (a b : Bool) → (a || b) ≡ false → a ≡ false
or_left a b h = ground arith

or_right : (a b : Bool) → (a || b) ≡ false → b ≡ false
or_right a b h = ground arith

and_false : (a b : Bool) → b ≡ false → (a && b) ≡ false
and_false a b h = ground arith

-- Changing an entry by `f` does not make an address known that `f`'s entry does not have.
known-set :
    (mac : List ℕ) (cache : List CachedDevice) (i : ℕ) (device : CachedDevice)
    → known mac cache ≡ false
    → is_entry mac device ≡ false
    → known mac (set cache i device) ≡ false
known-set mac [] i device h e = refl
known-set mac (d ∷ cache) zero device h e =
    ap (λ (b : Bool). b || known mac cache) e ∙ or_right (is_entry mac d) _ h
known-set mac (d ∷ cache) (suc i) device h e =
    ap (λ (b : Bool). b || known mac (set cache i device)) (or_left _ _ h)
    ∙ known-set mac cache i device (or_right (is_entry mac d) _ h) e

known-map :
    (mac : List ℕ) (f : CachedDevice → CachedDevice)
    → ((d : CachedDevice) → is_entry mac d ≡ false → is_entry mac (f d) ≡ false)
    → (cache : List CachedDevice) → known mac cache ≡ false
    → known mac (map f cache) ≡ false
known-map mac f keep [] h = refl
known-map mac f keep (d ∷ cache) h =
    ap (λ (b : Bool). b || known mac (map f cache)) (keep d (or_left _ _ h))
    ∙ known-map mac f keep cache (or_right (is_entry mac d) _ h)

valid_only :
    (a b b' : Bool) → (a && b) ≡ false → (a ≡ true → b ≡ false → b' ≡ false) → (a && b') ≡ false
valid_only true b b' h k = k refl h
valid_only false b b' h k = refl

-- Writing an entry for an address that is not known.
pub Once-set :
    (cache : List CachedDevice) (i : ℕ) (device : CachedDevice)
    → Once cache
    → known device.address cache ≡ false
    → Once (set cache i device)
Once-set [] i device h e = tt
Once-set (d ∷ cache) zero device (hd, h) e =
    (and_false device.valid _ (or_right (is_entry device.address d) _ e), h)
Once-set (d ∷ cache) (suc i) device (hd, h) e = (
  valid_only d.valid (known d.address cache) _ hd (λ valid absent.
      known-set d.address cache i device absent (
        and_false device.valid _ (
          same_bytes_comm device.address d.address
          ∙ ap (λ (b : Bool). b && same_bytes d.address device.address) (sym valid)
          ∙ or_left _ _ e))),
  Once-set cache i device h (or_right (is_entry device.address d) _ e),
)

-- An entry that is changed under its address.
known-update :
    (mac : List ℕ) (cache : List CachedDevice) (i : ℕ) (device : CachedDevice)
    → device.address ≡ (device_at cache i).address
    → device.valid ≡ (device_at cache i).valid
    → known mac (set cache i device) ≡ known mac cache
known-update mac [] i device ea ev = refl
known-update mac (d ∷ cache) zero device ea ev =
    ap (λ (b : Bool). b && same_bytes device.address mac || known mac cache) ev
    ∙ ap (λ (a : List ℕ). d.valid && same_bytes a mac || known mac cache) ea
known-update mac (d ∷ cache) (suc i) device ea ev =
    ap (λ (b : Bool). is_entry mac d || b) (known-update mac cache i device ea ev)

pub Once-update :
    (cache : List CachedDevice) (i : ℕ) (device : CachedDevice)
    → device.address ≡ (device_at cache i).address
    → device.valid ≡ (device_at cache i).valid
    → Once cache
    → Once (set cache i device)
Once-update [] i device ea ev h = tt
Once-update (d ∷ cache) zero device ea ev (hd, h) = (
  ap (λ (b : Bool). b && known device.address cache) ev
      ∙ ap (λ (a : List ℕ). d.valid && known a cache) ea
      ∙ hd,
  h,
)
Once-update (d ∷ cache) (suc i) device ea ev (hd, h) = (
  ap (λ (b : Bool). d.valid && b) (known-update d.address cache i device ea ev) ∙ hd,
  Once-update cache i device ea ev h,
)

abbrev pub drop_stale : ℕ → CachedDevice → CachedDevice
drop_stale timeout_threshold device = if stale timeout_threshold device then no_device else device

drop_stale-entry :
    (mac : List ℕ) (threshold : ℕ) (d : CachedDevice)
    → is_entry mac d ≡ false
    → is_entry mac (drop_stale threshold d) ≡ false
drop_stale-entry mac threshold d h = elim (Bool-cases (stale threshold d)) [
  | inl old ↦ subst (λ (b : Bool). is_entry mac (if b then no_device else d) ≡ false) (sym old) refl
  | inr new ↦ subst (λ (b : Bool). is_entry mac (if b then no_device else d) ≡ false) (sym new) h
]

pub Once-drop_stale :
    (threshold : ℕ) (cache : List CachedDevice)
    → Once cache
    → Once (map (drop_stale threshold) cache)
Once-drop_stale threshold [] h = tt
Once-drop_stale threshold (d ∷ cache) (hd, h) = (first, Once-drop_stale threshold cache h)
  where
    others :
        (a : List ℕ) → known a cache ≡ false → known a (map (drop_stale threshold) cache) ≡ false
    others a = known-map a (drop_stale threshold) (drop_stale-entry a threshold) cache

    kept : Bool → Type 0
    kept b =
        ((if b then no_device else d).valid
          && known (if b then no_device else d).address (map (drop_stale threshold) cache))
        ≡ false

    first : kept (stale threshold d)
    first = elim (Bool-cases (stale threshold d)) [
      | inl old ↦ subst kept (sym old) refl
      | inr new ↦ subst kept (sym new) (
          valid_only d.valid (known d.address cache) _ hd (λ valid absent. others d.address absent))
    ]

pub Once-replicate : (n : ℕ) → Once (replicate n no_device)
Once-replicate zero = tt
Once-replicate (suc n) = (refl, Once-replicate n)
