-- ===== src/Scanner/Control.antt =====
-- The state of `struct ble_scanner` and its life, plugins/bluetooth_proxy/ble_scanner.cpp.
use esphome_linux.Base.{
  ℕ, Bool, true, false, not, Option, none, some, List, replicate, ◌==◌, if◌then◌else◌,
}
use esphome_linux.Plugin.{minus_one}
use esphome_linux.Proxy.{Scanner}
use esphome_linux.Scanner.{CachedDevice, no_device, max_cached_devices}

-- `struct ble_scanner`, without its mutex and its callback; the two pointers are never null once
-- `ble_scanner_init` has returned.
pub record BleScanner : Type 0 where
  pub running : Bool
  pub stop_requested : Bool
  pub device_cache : List CachedDevice

pub data ScannerThread : Type 0 where
  event_thread report_thread : ScannerThread

-- libblepp and the threads: `create_transport` answers whether there is one, `none` for an exception,
-- and `new_scanner` and `start` answer whether there was no exception. An exception of `stop` is only
-- reported.
pub record Driver (W : Type 0) : Type 0 where
  pub calloc : W → Bool × W
  pub free : W → W
  pub create_transport : W → Option Bool × W
  pub delete_transport : W → W
  pub new_scanner : W → Bool × W
  pub delete_scanner : W → W
  pub start : W → Bool × W
  pub stop : W → W
  pub pthread_create : ScannerThread → W → ℕ × W
  pub pthread_join : ScannerThread → W → W

unfoldable pub ble_scanner_is_running : Option BleScanner → Bool
ble_scanner_is_running none = false
ble_scanner_is_running (some scanner) = scanner.running

module _ {W : Type 0} (driver : Driver W) where
  -- The log level, which libblepp's output reads, is left out.
  unfoldable pub ble_scanner_init : W → Option BleScanner × W
  ble_scanner_init w =
      let (allocated, w1) = driver.calloc w in
      let (transport, w2) = driver.create_transport w1 in
      let (made, w3) = driver.new_scanner w2 in
      if not allocated then (none, w1) else elim transport [
        | none ↦ (none, driver.free w2)
        | some false ↦ (none, driver.free w2)
        | some true ↦
            if made
            then (
              some (record {
                running = false;
                stop_requested = false;
                device_cache = replicate max_cached_devices no_device;
              }),
              w3,
            )
            else (none, driver.free (driver.delete_transport w3))
      ]

  abbrev pub start_threads : BleScanner → W → ℕ × (Option BleScanner × W)
  start_threads scanner w =
      let (event, w1) = driver.pthread_create event_thread w in
      let (report, w2) = driver.pthread_create report_thread w1 in
      if not (event == 0)
      then (
        minus_one,
        (some (record scanner { running = false; stop_requested = false }), driver.stop w1),
      )
      else if not (report == 0)
      then (
        minus_one,
        (
          some (record scanner { running = false; stop_requested = true }),
          driver.stop (driver.pthread_join event_thread w2),
        ),
      )
      else (0, (some (record scanner { running = true; stop_requested = false }), w2))

  unfoldable pub ble_scanner_start : Option BleScanner → W → ℕ × (Option BleScanner × W)
  ble_scanner_start none w = (minus_one, (none, w))
  ble_scanner_start (some scanner) w =
      let (started, w') = driver.start w in
      if scanner.running
      then (minus_one, (some scanner, w))
      else if not started
      then (minus_one, (some (record scanner { stop_requested = false }), w'))
      else start_threads scanner w'

  unfoldable pub ble_scanner_stop : Option BleScanner → W → ℕ × (Option BleScanner × W)
  ble_scanner_stop none w = (minus_one, (none, w))
  ble_scanner_stop (some scanner) w =
      let w' =
        driver.pthread_join report_thread (driver.pthread_join event_thread (driver.stop w)) in
      if not scanner.running
      then (minus_one, (some scanner, w))
      else (0, (some (record scanner { running = false; stop_requested = true }), w'))

  unfoldable pub ble_scanner_free : Option BleScanner → W → W
  unfolding ble_scanner_stop
  ble_scanner_free none w = w
  ble_scanner_free (some scanner) w =
      let w' = if scanner.running then (ble_scanner_stop (some scanner) w).1.1 else w in
      driver.free (driver.delete_transport (driver.delete_scanner w'))

  -- The scanner that the plugin calls, over its own state and the world.
  abbrev pub ble_scanner : Scanner (Option BleScanner × W)
  ble_scanner = record {
    start = λ s. ble_scanner_start s.0 s.1;
    stop = λ s. ble_scanner_stop s.0 s.1;
    free = λ s. (none, ble_scanner_free s.0 s.1);
  }
