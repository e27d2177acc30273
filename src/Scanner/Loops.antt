-- ===== src/Scanner/Loops.antt =====
-- The loops of the two threads of plugins/bluetooth_proxy/ble_scanner.cpp, over the rounds that they
-- make. A round is one step: the cache is locked while it is read or changed.
use esphome_linux.Base.{ℕ, ◌+◌, Bool, Option, none, some, List, [], ◌∷◌, ltb, if◌then◌else◌}
use esphome_linux.Proxy.{BleReport}
use esphome_linux.Scanner.{
  CachedDevice, AdvertisingResponse, report_interval_ms, cleanup_stale_devices,
  process_advertisement, advert_of,
}

-- A round of `report_thread_func`: what it reads of `stop_requested` before and after it sleeps, and
-- the time.
pub record Tick : Type 0 where
  pub stop_before : Bool
  pub stop_after : Bool
  pub now : ℕ

-- An advertisement that the event thread gets: what it reads of `stop_requested` before it, and the
-- times.
pub record Arrival : Type 0 where
  pub stop_requested : Bool
  pub ad : AdvertisingResponse
  pub created : ℕ
  pub now : ℕ

abbrev pub sleep_interval_ms : ℕ
sleep_interval_ms = 100

-- What the report thread leaves of the cache and of the world, and its `elapsed_ms`.
pub record Reported (W : Type 0) : Type 0 where
  pub elapsed_ms : ℕ
  pub device_cache : List CachedDevice
  pub world : W

-- The inner loop of `event_loop_thread` over the advertisements of one call.
unfoldable pub event_round : List Arrival → List CachedDevice → List CachedDevice
unfolding process_advertisement
event_round [] cache = cache
event_round (arrival ∷ arrivals) cache =
    let rest =
      event_round arrivals (process_advertisement arrival.created arrival.now arrival.ad cache) in
    if arrival.stop_requested then cache else rest

-- `callback` is `none` for a null pointer.
module _ {W : Type 0} (callback : Option (BleReport → W → W)) where
  abbrev pub send_advert : BleReport → W → W
  send_advert advert w = elim callback [ none ↦ w | some f ↦ f advert w ]

  unfoldable pub report_devices : List CachedDevice → W → W
  report_devices [] w = w
  report_devices (device ∷ cache) w =
      report_devices cache (if device.valid then send_advert (advert_of device) w else w)

  -- The loop of `report_thread_func`; the list ends where the thread sleeps.
  unfoldable pub report_rounds : List Tick → Reported W → Reported W
  unfolding report_devices cleanup_stale_devices
  report_rounds [] r = r
  report_rounds (tick ∷ ticks) r =
      let elapsed_ms = r.elapsed_ms + sleep_interval_ms in
      let cache = cleanup_stale_devices tick.now r.device_cache in
      let reported : Reported W = record {
        elapsed_ms = 0;
        device_cache = cache;
        world = report_devices cache r.world;
      } in
      let waiting = report_rounds ticks (record r { elapsed_ms = elapsed_ms }) in
      let rest = report_rounds ticks reported in
      if tick.stop_before
      then r
      else if tick.stop_after
      then record r { elapsed_ms = elapsed_ms }
      else if ltb elapsed_ms report_interval_ms
      then waiting
      else rest
