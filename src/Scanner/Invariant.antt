-- ===== src/Scanner/Invariant.antt =====
-- The invariant of the cache of ble_scanner.cpp, under both of its threads.
use esphome_linux.Base.{
  ℕ, zero, suc, ◌%◌, ◌≤◌, ◌<◌, ◌≡◌, sym, ap, ◌∙◌, Bool, true, none, some, List, [], ◌∷◌, All,
  All-set, All-map, arith, map, length, set, length-set, length-map, get_or-set, ◌==◌,
  if◌then◌else◌, Bool-cases, Option-cases, inl, inr,
}
use mathlib.Core.Path.{subst}
use esphome_linux.Base.Hex.{scan_hex}
use esphome_linux.Scanner.{
  CachedDevice, AdvertisingResponse, no_device, device_at, scan_colons, scan_address,
  parse_mac_address, is_entry, stale, timeout_threshold, get_or_create_cached_device,
  cleanup_stale_devices, refresh,
}
use esphome_linux.Scanner.Merge.{merge_packets-Merged}
use esphome_linux.Scanner.Evict.{
  known, fresh, get_or_create_cached_device-known, get_or_create_cached_device-IsVictim,
}
use esphome_linux.Scanner.Once.{Once, same_bytes_refl, Once-set, drop_stale, Once-drop_stale}

-- The arrays of an entry have their sizes, and its numbers their ranges.
pub record IsDevice (device : CachedDevice) : Type 0 where
  pub address : length device.address ≡ 6
  pub address_type : device.address_type < 256
  pub rssi : device.rssi < 256
  pub size : length device.bytes ≡ 62
  pub data_len : device.data_len ≤ 62

-- A cache of 64 entries, no two of the valid ones with the same address.
pub record IsCache (cache : List CachedDevice) : Type 0 where
  pub slots : length cache ≡ 64
  pub devices : All IsDevice cache
  pub once : Once cache

pub no_device-IsDevice : IsDevice no_device
no_device-IsDevice = omega arith

fresh-IsDevice : (now : ℕ) (mac : List ℕ) → length mac ≡ 6 → IsDevice (fresh now mac)
fresh-IsDevice now mac h = omega (arith, h)

pub refresh-IsDevice :
    (now : ℕ) (ad : AdvertisingResponse) (device : CachedDevice)
    → IsDevice device
    → IsDevice (refresh now ad device)
refresh-IsDevice now ad device h =
    let m = merge_packets-Merged device.bytes ad.raw_packet h.size in
    record {
      address = h.address;
      address_type = omega arith;
      rssi = omega arith;
      size = m.size;
      data_len = omega (arith, m.data_len);
    }

pub cleanup_stale_devices-IsCache :
    (now : ℕ) (cache : List CachedDevice)
    → IsCache cache
    → IsCache (cleanup_stale_devices now cache)
unfolding cleanup_stale_devices
cleanup_stale_devices-IsCache now cache h = record {
  slots = length-map (drop_stale (timeout_threshold now)) cache ∙ h.slots;
  devices = All-map IsDevice (drop_stale (timeout_threshold now)) keep cache h.devices;
  once = Once-drop_stale (timeout_threshold now) cache h.once;
}
  where
    keep : (d : CachedDevice) → IsDevice d → IsDevice (drop_stale (timeout_threshold now) d)
    keep d hd = elim (Bool-cases (stale (timeout_threshold now) d)) [
      | inl old ↦
          subst (λ (b : Bool). IsDevice (if b then no_device else d)) (sym old) no_device-IsDevice
      | inr new ↦ subst (λ (b : Bool). IsDevice (if b then no_device else d)) (sym new) hd
    ]

-- What looking an address up leaves: a cache with an entry for it.
pub record HasEntry (mac : List ℕ) (i : ℕ) (cache : List CachedDevice) : Type 0 where
  pub valid : IsCache cache
  pub within : i < length cache
  pub is_there : is_entry mac (device_at cache i) ≡ true

pub get_or_create-HasEntry :
    (now : ℕ) (mac : List ℕ) (cache : List CachedDevice)
    → length mac ≡ 6
    → IsCache cache
    → let (i, cache') = get_or_create_cached_device now mac cache in HasEntry mac i cache'
get_or_create-HasEntry now mac cache hm h = elim (Bool-cases (known mac cache)) [
  | inl old ↦
      let (i, same, within, is_there) = get_or_create_cached_device-known now mac cache old in
      rw same (record { valid = h; within = within; is_there = is_there })
  | inr new ↦
      let (i, same, victim) =
        get_or_create_cached_device-IsVictim now mac cache (omega (arith, h.slots)) new in
      let there : device_at (set cache i (fresh now mac)) i ≡ fresh now mac =
        get_or-set cache i (fresh now mac) no_device victim.0 in
      rw same (record {
        valid = record {
          slots = length-set cache i (fresh now mac) ∙ h.slots;
          devices = All-set IsDevice cache i (fresh now mac) h.devices (fresh-IsDevice now mac hm);
          once = Once-set cache i (fresh now mac) h.once new;
        };
        within = omega (arith, victim.0, length-set cache i (fresh now mac));
        is_there = ap (is_entry mac) there ∙ same_bytes_refl mac;
      })
]

scan_colons-length : (n : ℕ) (s vs : List ℕ) → scan_colons n s ≡ some vs → length vs ≡ n
unfolding scan_colons
scan_colons-length zero s vs e = ground (arith, e)
scan_colons-length (suc n) [] vs e = cc
scan_colons-length (suc n) (c ∷ s) vs e =
    elim (Option-cases (if c == 58 then scan_hex s else none)) [
      | inl stop ↦ (let no : none ≡ some vs = rw (stop, scan_colons) at e in cc)
      | inr ((v, rest), go) ↦ elim (Option-cases (scan_colons n rest)) [
        | inl stop ↦ (let no : none ≡ some vs = rw (go, stop, scan_colons) at e in cc)
        | inr (ws, more) ↦
            let same : some (v ∷ ws) ≡ some vs = rw (go, more, scan_colons) at e in
            let k = scan_colons-length n rest ws more in
            let whole : v ∷ ws ≡ vs = cc in omega (arith, k, ap length whole)
      ]
    ]

scan_address-length : (s vs : List ℕ) → scan_address s ≡ some vs → length vs ≡ 6
unfolding scan_address
scan_address-length s vs e = elim (Option-cases (scan_hex s)) [
  | inl stop ↦ (let no : none ≡ some vs = rw (stop, scan_address) at e in cc)
  | inr ((v, rest), go) ↦ elim (Option-cases (scan_colons 5 rest)) [
    | inl stop ↦ (let no : none ≡ some vs = rw (go, stop, scan_address) at e in cc)
    | inr (ws, more) ↦
        let same : some (v ∷ ws) ≡ some vs = rw (go, more, scan_address) at e in
        let k = scan_colons-length 5 rest ws more in
        let whole : v ∷ ws ≡ vs = cc in omega (arith, k, ap length whole)
  ]
]

pub parse_mac_address-length : (s mac : List ℕ) → parse_mac_address s ≡ some mac → length mac ≡ 6
unfolding parse_mac_address
parse_mac_address-length s mac e = elim (Option-cases (scan_address s)) [
  | inl stop ↦ (let no : none ≡ some mac = rw (stop, parse_mac_address, stop) at e in cc)
  | inr (vs, go) ↦
      let same : some (map (λ v. v % 256) vs) ≡ some mac = rw (go, parse_mac_address) at e in
      let whole : map (λ v. v % 256) vs ≡ mac = cc in
      sym (ap length whole) ∙ length-map (λ v. v % 256) vs ∙ scan_address-length s vs go
]
