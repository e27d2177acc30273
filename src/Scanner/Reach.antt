-- ===== src/Scanner/Reach.antt =====
-- The cache of ble_scanner.cpp under both threads in any order: each change of it is one step, under
-- `cache_mutex`.
use esphome_linux.Base.{
  ℕ, List, [], ◌∷◌, All-replicate, replicate, length-replicate, Bool-cases, inl, inr,
}
use esphome_linux.Scanner.{CachedDevice, no_device, cleanup_stale_devices, process_advertisement}
use esphome_linux.Scanner.Loops.{Arrival, event_round}
use esphome_linux.Scanner.Once.{Once-replicate}
use esphome_linux.Scanner.Invariant.{
  IsDevice, IsCache, no_device-IsDevice, cleanup_stale_devices-IsCache,
}
use esphome_linux.Scanner.Advert.{process_advertisement-Remembers}

-- The event thread takes what one call of `get_advertisements` returned, or the report thread removes
-- stale devices.
pub data Step (cache : List CachedDevice) : List CachedDevice → Type 0 where
  arrive : (arrivals : List Arrival) → Step cache (event_round arrivals cache)
  clean : (now : ℕ) → Step cache (cleanup_stale_devices now cache)

pub data Reach : List CachedDevice → Type 0 where
  start : Reach (replicate 64 no_device)
  later : {cache cache' : List CachedDevice} → Reach cache → Step cache cache' → Reach cache'

event_round-IsCache :
    (arrivals : List Arrival) (cache : List CachedDevice)
    → IsCache cache
    → IsCache (event_round arrivals cache)
unfolding event_round
event_round-IsCache [] cache h = h
event_round-IsCache (arrival ∷ arrivals) cache h = elim (Bool-cases arrival.stop_requested) [
  | inl stop ↦ rw stop h
  | inr go ↦ rw go (
      event_round-IsCache arrivals
        (process_advertisement arrival.created arrival.now arrival.ad cache)
        (process_advertisement-Remembers arrival.created arrival.now arrival.ad cache h).0)
]

pub Reach-IsCache : {cache : List CachedDevice} → Reach cache → IsCache cache
Reach-IsCache start = record {
  slots = length-replicate 64 no_device;
  devices = All-replicate IsDevice 64 no_device no_device-IsDevice;
  once = Once-replicate 64;
}
Reach-IsCache (later r (arrive arrivals)) = event_round-IsCache arrivals _ (Reach-IsCache r)
Reach-IsCache (later r (clean now)) = cleanup_stale_devices-IsCache now _ (Reach-IsCache r)
