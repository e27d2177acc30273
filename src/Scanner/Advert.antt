-- ===== src/Scanner/Advert.antt =====
-- What an advertisement leaves in the cache, `process_advertisement` of ble_scanner.cpp.
use esphome_linux.Base.{
  ℕ, ◌%◌, ◌≡◌, ◌⊎◌, refl, ◌∙◌, true, none, some, List, All-set, All-get_or, take, length, set,
  flatten, min, length-set, get_or-set, Option-cases, inl, inr,
}
use esphome_linux.Scanner.{
  CachedDevice, AdvertisingResponse, no_device, device_at, parse_mac_address, is_entry,
  get_or_create_cached_device, refresh, process_advertisement,
}
use esphome_linux.Scanner.Merge.{merge_packets-Merged}
use esphome_linux.Scanner.Once.{Once-update}
use esphome_linux.Scanner.Invariant.{
  IsDevice, IsCache, no_device-IsDevice, refresh-IsDevice, get_or_create-HasEntry,
  parse_mac_address-length,
}

-- An entry for an address, with what an advertisement of it says.
pub record Remembers (mac : List ℕ) (now : ℕ) (ad : AdvertisingResponse) (device : CachedDevice)
    : Type 0 where
  pub is_there : is_entry mac device ≡ true
  pub rssi : device.rssi ≡ ad.rssi % 256
  pub content : take device.data_len device.bytes ≡ take 62 (flatten ad.raw_packet)
  pub data_len : device.data_len ≡ min 62 (length (flatten ad.raw_packet))
  pub last_seen : device.last_seen ≡ now

refresh-Remembers :
    (mac : List ℕ) (now : ℕ) (ad : AdvertisingResponse) (device : CachedDevice)
    → is_entry mac device ≡ true
    → IsDevice device
    → Remembers mac now ad (refresh now ad device)
refresh-Remembers mac now ad device there h =
    let m = merge_packets-Merged device.bytes ad.raw_packet h.size in
    record {
      is_there = there;
      rssi = refl;
      content = m.content;
      data_len = m.data_len;
      last_seen = refl;
    }

-- An advertisement with an address that can be read leaves, in a valid cache, a valid cache with an
-- entry for the address. The entry has the signal strength, the time, and the first 62 bytes of the
-- packets. One whose address cannot be read changes nothing.
pub process_advertisement-Remembers :
    (created now : ℕ) (ad : AdvertisingResponse) (cache : List CachedDevice)
    → IsCache cache
    → let after = process_advertisement created now ad cache in
      IsCache after
      × (((parse_mac_address ad.address ≡ none) × (after ≡ cache))
          ⊎ ((mac : List ℕ) × (parse_mac_address ad.address ≡ some mac)
              × ((i : ℕ) × Remembers mac now ad (device_at after i))))
unfolding process_advertisement
process_advertisement-Remembers created now ad cache h =
    elim (Option-cases (parse_mac_address ad.address)) [
      | inl bad ↦ rw (bad, process_advertisement) (h, inl (refl, refl))
      | inr (mac, good) ↦
          let looked = get_or_create_cached_device created mac cache in
          let found =
            get_or_create-HasEntry created mac cache (parse_mac_address-length ad.address mac good)
              h in
          let old = device_at looked.1 looked.0 in
          let valid_old : IsDevice old =
            All-get_or IsDevice looked.1 looked.0 no_device found.valid.devices
              no_device-IsDevice in
          let new = refresh now ad old in
          let there : device_at (set looked.1 looked.0 new) looked.0 ≡ new =
            get_or-set looked.1 looked.0 new no_device found.within in
          rw (good, process_advertisement)
            (
              record {
                slots = length-set looked.1 looked.0 new ∙ found.valid.slots;
                devices =
                    All-set IsDevice looked.1 looked.0 new found.valid.devices
                      (refresh-IsDevice now ad old valid_old);
                once = Once-update looked.1 looked.0 new refl refl found.valid.once;
              },
              inr (
                mac,
                refl,
                (looked.0, rw there (refresh-Remembers mac now ad old found.is_there valid_old)),
              ),
            )
    ]
