-- ===== src/Scanner.antt =====
-- The BLE scanner, plugins/bluetooth_proxy/ble_scanner.cpp: the text of an address, the cache of
-- devices, the reports and the threads. What libblepp does is a parameter.
pub mod Address
pub mod Evict
pub mod Once
pub mod Invariant
pub mod Advert
pub mod Stale
pub mod Period
pub mod Forward
pub mod Reach
pub mod Lifecycle
pub mod Subscription
mod Tests
pub mod Merge
pub mod Loops
pub mod Control
use esphome_linux.Base.{
  ℕ, zero, suc, ◌+◌, ◌-◌, ◌%◌, ◌^◌, Bool, true, false, not, ◌&&◌, Option, none, some, List, [], ◌∷◌,
  map, length, take, replicate, set, get_or, write_at, ltb, leb, ◌==◌, if◌then◌else◌, uninitialised,
}
use esphome_linux.Base.Hex.{scan_hex}
use esphome_linux.Plugin.{minus_one}
use esphome_linux.Proxy.{BleReport}

abbrev pub ble_mac_len : ℕ
ble_mac_len = 6

abbrev pub ble_adv_data_max : ℕ
ble_adv_data_max = 62

abbrev pub max_cached_devices : ℕ
max_cached_devices = 64

abbrev pub report_interval_ms : ℕ
report_interval_ms = 10000

abbrev pub device_timeout_ms : ℕ
device_timeout_ms = 60000

-- `cached_device_t`; `rssi` is the bit pattern of an `int8_t`.
pub record CachedDevice : Type 0 where
  pub address : List ℕ
  pub address_type : ℕ
  pub rssi : ℕ
  pub bytes : List ℕ
  pub data_len : ℕ
  pub valid : Bool
  pub last_seen : ℕ

-- `memset(device, 0, sizeof(cached_device_t))`
abbrev pub no_device : CachedDevice
no_device = record {
  address = replicate ble_mac_len 0;
  address_type = 0;
  rssi = 0;
  bytes = replicate ble_adv_data_max 0;
  data_len = 0;
  valid = false;
  last_seen = 0;
}

abbrev pub device_at : List CachedDevice → ℕ → CachedDevice
device_at cache i = get_or cache i no_device

-- What the code reads of a `BLEPP::AdvertisingResponse`.
pub record AdvertisingResponse : Type 0 where
  pub address : List ℕ
  pub rssi : ℕ
  pub raw_packet : List (List ℕ)

-- The conversions behind the first one, each after a colon.
unfoldable pub scan_colons : ℕ → List ℕ → Option (List ℕ)
scan_colons zero s = some []
scan_colons (suc n) [] = none
scan_colons (suc n) (c ∷ s) = elim (if c == 58 then scan_hex s else none) [
  | none ↦ none
  | some (v, rest) ↦ elim (scan_colons n rest) [ none ↦ none | some vs ↦ some (v ∷ vs) ]
]

-- `sscanf` with the six conversions of an address, if it answers 6.
unfoldable pub scan_address : List ℕ → Option (List ℕ)
unfolding scan_colons
scan_address s = elim (scan_hex s) [
  | none ↦ none
  | some (v, rest) ↦ elim (scan_colons 5 rest) [ none ↦ none | some vs ↦ some (v ∷ vs) ]
]

-- The second attempt reads by `%02x`, which is the same conversion.
unfoldable pub parse_mac_address : List ℕ → Option (List ℕ)
unfolding scan_address
parse_mac_address str = elim (scan_address str) [
  | some values ↦ some (map (λ v. v % 256) values)
  | none ↦ elim (scan_address str) [ some values ↦ some (map (λ v. v % 256) values) | none ↦ none ]
]

-- `memcmp(xs, ys, n) == 0` for two arrays of `n` bytes.
abbrev pub same_bytes : List ℕ → List ℕ → Bool
same_bytes [] [] = true
same_bytes [] (y ∷ ys) = false
same_bytes (x ∷ xs) [] = false
same_bytes (x ∷ xs) (y ∷ ys) = x == y && same_bytes xs ys

abbrev pub is_entry : List ℕ → CachedDevice → Bool
is_entry mac device = device.valid && same_bytes device.address mac

-- The valid entry with an address, from index `i` on.
unfoldable pub find_device : ℕ → List ℕ → List CachedDevice → Option ℕ
find_device i mac [] = none
find_device i mac (device ∷ cache) =
    if is_entry mac device then some i else find_device (i + 1) mac cache

-- The first entry that is not valid, or else the first of those seen longest ago; `oldest` is the
-- best index so far, and `seen` its `last_seen`.
unfoldable pub find_oldest : ℕ → List CachedDevice → ℕ → ℕ → ℕ
find_oldest i [] oldest seen = oldest
find_oldest i (device ∷ cache) oldest seen =
    let older = ltb device.last_seen seen in
    let rest =
      find_oldest (i + 1) cache (if older then i else oldest)
        (if older then device.last_seen else seen) in
    if not device.valid then i else rest

-- The slot of the entry, with the cache; `now` is the time if a new one is made.
unfoldable pub get_or_create_cached_device : ℕ → List ℕ → List CachedDevice → ℕ × List CachedDevice
unfolding find_device find_oldest
get_or_create_cached_device now mac cache = elim (find_device 0 mac cache) [
  | some i ↦ (i, cache)
  | none ↦
      let oldest = find_oldest 0 cache 0 (device_at cache 0).last_seen in
      (oldest, set cache oldest (record no_device { address = mac; valid = true; last_seen = now }))
]

abbrev pub stale : ℕ → CachedDevice → Bool
stale timeout_threshold device = device.valid && ltb device.last_seen timeout_threshold

-- `now - DEVICE_TIMEOUT_MS` in 64 bits.
abbrev pub timeout_threshold : ℕ → ℕ
timeout_threshold now = (now + 2 ^ 64 - device_timeout_ms) % 2 ^ 64

unfoldable pub cleanup_stale_devices : ℕ → List CachedDevice → List CachedDevice
cleanup_stale_devices now =
    map (λ device. if stale (timeout_threshold now) device then no_device else device)

-- The packets behind each other, as many bytes as there is room for.
unfoldable pub merge_packets : List ℕ → ℕ → List (List ℕ) → List ℕ × ℕ
merge_packets bytes data_len [] = (bytes, data_len)
merge_packets bytes data_len (packet ∷ packets) =
    let remaining = ble_adv_data_max - data_len in
    let rest = merge_packets (write_at bytes data_len packet) (data_len + length packet) packets in
    if leb (data_len + length packet) ble_adv_data_max
    then rest
    else if ltb 0 remaining
    then (write_at bytes data_len (take remaining packet), ble_adv_data_max)
    else (bytes, data_len)

abbrev pub refresh : ℕ → AdvertisingResponse → CachedDevice → CachedDevice
refresh now ad device =
    let (bytes, data_len) = merge_packets device.bytes 0 ad.raw_packet in
    record device {
      rssi = ad.rssi % 256;
      address_type = 0;
      bytes = bytes;
      data_len = data_len;
      last_seen = now;
    }

-- `created` is the time if a new entry is made, and `now` the time at the end.
unfoldable pub process_advertisement :
    ℕ → ℕ → AdvertisingResponse → List CachedDevice → List CachedDevice
unfolding parse_mac_address get_or_create_cached_device merge_packets
process_advertisement created now ad cache = elim (parse_mac_address ad.address) [
  | none ↦ cache
  | some mac ↦
      let (i, cache') = get_or_create_cached_device created mac cache in
      set cache' i (refresh now ad (device_at cache' i))
]

-- What the report thread makes of an entry.
abbrev pub advert_of : CachedDevice → BleReport
advert_of device = record {
  address = device.address;
  address_type = device.address_type;
  rssi = device.rssi;
  bytes = write_at (uninitialised ble_adv_data_max) 0 (take device.data_len device.bytes);
  data_len = device.data_len;
}
