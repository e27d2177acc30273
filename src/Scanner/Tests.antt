-- ===== src/Scanner/Tests.antt =====
-- The theorems on plugins/bluetooth_proxy/ble_scanner.cpp at concrete inputs, with a radio and threads
-- that never fail.
use esphome_linux.Base.{
  ℕ, ◌+◌, ◌-◌, ◌≡◌, ◌⊎◌, inl, refl, Bool, true, false, none, some, List, [], ◌∷◌, ◌++◌,
  All-replicate, arith, map, length, replicate, set, flatten, if◌then◌else◌,
}
use esphome_linux.Base.Hex.{print_address, scan_hex}
use esphome_linux.Api.Server.{Server, System}
use esphome_linux.Proxy.{BleReport, ProxyState, empty_entry}
use esphome_linux.Scanner.{
  CachedDevice, AdvertisingResponse, no_device, device_at, parse_mac_address, scan_address,
  scan_colons, get_or_create_cached_device, cleanup_stale_devices, merge_packets,
  process_advertisement,
}
use esphome_linux.Scanner.Address.{parse_mac_address-print_address}
use esphome_linux.Scanner.Evict.{fresh, IsVictim, get_or_create_cached_device-IsVictim}
use esphome_linux.Scanner.Merge.{Merged, merge_packets-Merged}
use esphome_linux.Scanner.Invariant.{IsCache}
use esphome_linux.Scanner.Advert.{Remembers, process_advertisement-Remembers}
use esphome_linux.Scanner.Stale.{expired, cleanup_stale_devices-expired, report_devices-early}
use esphome_linux.Scanner.Loops.{Tick, Arrival, report_devices, report_rounds}
use esphome_linux.Scanner.Period.{GoesOn, report_rounds-period}
use esphome_linux.Scanner.Reach.{start, Reach-IsCache}
use esphome_linux.Scanner.Control.{BleScanner, Driver}

abbrev mac : List ℕ
mac = 1 ∷ 0xAB ∷ 3 ∷ 4 ∷ 5 ∷ 255 ∷ []

parse_mac_address-print_address_example : parse_mac_address (print_address 65 mac) ≡ some mac
parse_mac_address-print_address_example =
    parse_mac_address-print_address 65 1 (0xAB ∷ 3 ∷ 4 ∷ 5 ∷ 255 ∷ []) (inl refl) (omega arith) refl

-- "1:2" is not an address.
too_short : parse_mac_address (49 ∷ 58 ∷ 50 ∷ []) ≡ none
unfolding parse_mac_address scan_address scan_colons scan_hex
too_short = refl

abbrev packets : List (List ℕ)
packets = (2 ∷ 1 ∷ 6 ∷ []) ∷ replicate 60 7 ∷ []

merge_packets-Merged_example : Merged (flatten packets) (merge_packets (replicate 62 0) 0 packets)
merge_packets-Merged_example = merge_packets-Merged (replicate 62 0) packets refl

abbrev empty_cache : List CachedDevice
empty_cache = replicate 64 no_device

empty-IsCache : IsCache empty_cache
empty-IsCache = Reach-IsCache start

abbrev ad : AdvertisingResponse
ad = record { address = print_address 97 mac; rssi = 200; raw_packet = packets }

process_advertisement-Remembers_example :
    let after = process_advertisement 5 6 ad empty_cache in
    IsCache after
    × (((parse_mac_address ad.address ≡ none) × (after ≡ empty_cache))
        ⊎ ((m : List ℕ) × (parse_mac_address ad.address ≡ some m)
            × ((i : ℕ) × Remembers m 6 ad (device_at after i))))
process_advertisement-Remembers_example =
    process_advertisement-Remembers 5 6 ad empty_cache empty-IsCache

get_or_create_cached_device-IsVictim_example :
    (i : ℕ) × (get_or_create_cached_device 7 mac empty_cache ≡ (i, set empty_cache i (fresh 7 mac)))
    × IsVictim empty_cache i
get_or_create_cached_device-IsVictim_example =
    get_or_create_cached_device-IsVictim 7 mac empty_cache (omega arith) refl

abbrev arrival : Arrival
arrival = record { stop_requested = false; ad = ad; created = 5; now = 6 }

-- One device that was seen a while ago, and one that was not.
abbrev two : List CachedDevice
two = fresh 20000 mac ∷ fresh 90000 (replicate 6 9) ∷ []

cleanup_stale_devices-expired_example :
    cleanup_stale_devices 100000 two
    ≡ map (λ device. if expired 100000 device then no_device else device) two
cleanup_stale_devices-expired_example =
    cleanup_stale_devices-expired 100000 two (omega arith) (omega arith)

first_goes : cleanup_stale_devices 100000 two ≡ no_device ∷ fresh 90000 (replicate 6 9) ∷ []
unfolding cleanup_stale_devices
first_goes = refl

-- A callback that keeps what it is given.
abbrev note : BleReport → List BleReport → List BleReport
note advert adverts = advert ∷ adverts

report_devices-early_example :
    report_devices (some note) (cleanup_stale_devices 30000 (fresh 29999 mac ∷ [])) [] ≡ []
report_devices-early_example =
    report_devices-early (some note) 30000 (fresh 29999 mac ∷ []) [] (omega arith) (omega arith)

abbrev tick : Tick
tick = record { stop_before = false; stop_after = false; now = 100000 }

report_rounds-period_example :
    report_rounds
      (some note)
      (replicate 99 tick ++ tick ∷ [])
      (record { elapsed_ms = 0; device_cache = two; world = [] })
    ≡ report_rounds (some note) [] (record {
      elapsed_ms = 0;
      device_cache = cleanup_stale_devices 100000 two;
      world = report_devices (some note) (cleanup_stale_devices 100000 two) [];
    })
report_rounds-period_example =
    report_rounds-period (some note) (replicate 99 tick) tick [] two []
      (All-replicate GoesOn 99 tick (refl, refl)) refl (refl, refl)

-- The plugin behind the scanner, with calls of `send` counted.
abbrev count_sends : System ℕ
count_sends = record {
  send = λ fd bytes w. (some (length bytes), w + 1);
  close = λ fd w. w;
  shutdown = λ fd w. w;
}

abbrev server : Server
server = record {
  config = record {
    device_name = [];
    mac_address = [];
    esphome_version = [];
    model = [];
    manufacturer = [];
    friendly_name = [];
    suggested_area = [];
  };
  listen_fd = 3;
  running = true;
  clients = [];
}

abbrev idle_state : ProxyState
idle_state = record {
  scanner = true;
  subscribed = false;
  ble_batch = record { advertisements = replicate 16 empty_entry; count = 0 };
  last_flush = 0;
  flush_thread_running = true;
}

-- Whether the radio scans, and the number of threads.
abbrev steady : Driver (Bool × ℕ)
steady = record {
  calloc = λ w. (true, w);
  free = λ w. w;
  create_transport = λ w. (some true, w);
  delete_transport = λ w. w;
  new_scanner = λ w. (true, w);
  delete_scanner = λ w. w;
  start = λ w. (true, (true, w.1));
  stop = λ w. (false, w.1);
  pthread_create = λ t w. (0, (w.0, w.1 + 1));
  pthread_join = λ t w. (w.0, w.1 - 1);
}

abbrev stopped_scanner : BleScanner
stopped_scanner = record { running = false; stop_requested = false; device_cache = empty_cache }
