-- ===== src/Proxy/Tests.antt =====
-- The theorems on plugins/bluetooth_proxy/bluetooth_proxy_plugin.c at concrete inputs.
use esphome_linux.Base.{
  ℕ, ◌+◌, ◌≤◌, ◌≡◌, refl, true, false, some, List, [], ◌∷◌, arith, length, replicate,
}
use esphome_linux.Api.Server.{Server, System, client_init}
use esphome_linux.Proxy.{
  BleReport, ProxyState, Scanner, mac_to_uint64, empty_entry, flush_ble_batch, on_ble_advertisement,
  bluetooth_proxy_handle_message,
}
use esphome_linux.Proxy.Batch.{
  Holds, deliver_batch, enqueue, flush_ble_batch-Holds, on_ble_advertisement-enqueue,
}
use esphome_linux.Proxy.Flush.{FlushTick, elapsed_ms, elapsed_ms_bounds}
use esphome_linux.Proxy.Run.{Event, Ran, report, flush, run, run-Ran}
use esphome_linux.Proxy.Subscription.{subscribe_twice, subscribe_unsubscribe}

-- Every call of `send` is counted.
abbrev count_sends : System ℕ
count_sends = record {
  send = λ fd bytes w. (some (length bytes), w + 1);
  close = λ fd w. w;
  shutdown = λ fd w. w;
}

abbrev server : Server
server = record {
  config = record {
    device_name = [];
    mac_address = [];
    esphome_version = [];
    model = [];
    manufacturer = [];
    friendly_name = [];
    suggested_area = [];
  };
  listen_fd = 3;
  running = true;
  clients = record client_init { fd = 5 } ∷ client_init ∷ [];
}

abbrev advert : BleReport
advert = record {
  address = 1 ∷ 2 ∷ 3 ∷ 4 ∷ 5 ∷ 6 ∷ [];
  address_type = 1;
  rssi = 187;
  bytes = 2 ∷ 1 ∷ 6 ∷ [];
  data_len = 3;
}

abbrev empty_state : ProxyState
empty_state = record {
  scanner = true;
  subscribed = false;
  ble_batch = record { advertisements = replicate 16 empty_entry; count = 0 };
  last_flush = 0;
  flush_thread_running = true;
}

mac_example : mac_to_uint64 (1 ∷ 2 ∷ 3 ∷ 4 ∷ 5 ∷ 6 ∷ []) ≡ 0x010203040506
unfolding mac_to_uint64
mac_example = refl

empty-Holds : Holds empty_state []
empty-Holds = record {
  slots = refl;
  entries = omega arith;
  count = refl;
  room = omega arith;
  content = refl;
}

flush_ble_batch-Holds_example :
    let flushed = flush_ble_batch count_sends server 7 empty_state 0 in
    Holds flushed.0 [] × (flushed.1 ≡ deliver_batch count_sends server [] 0)
flush_ble_batch-Holds_example =
    flush_ble_batch-Holds count_sends server 7 empty_state 0 [] empty-Holds

on_ble_advertisement-enqueue_example :
    let handled = on_ble_advertisement count_sends server 7 advert empty_state 0 in
    let queued = enqueue count_sends server [] advert 0 in
    Holds handled.0 queued.0 × (handled.1 ≡ queued.1)
on_ble_advertisement-enqueue_example =
    on_ble_advertisement-enqueue count_sends server 7 advert empty_state 0 [] (omega arith)
      empty-Holds

-- A scanner that counts its calls.
abbrev scanner : Scanner ℕ
scanner = record { start = λ w. (0, w + 1); stop = λ w. (0, w + 10); free = λ w. w }

subscribed_once : (bluetooth_proxy_handle_message scanner 66 (some empty_state) 0).0 ≡ 0
unfolding bluetooth_proxy_handle_message
subscribed_once = refl

subscribe_twice_example :
    let first = bluetooth_proxy_handle_message scanner 66 (some empty_state) 0 in
    bluetooth_proxy_handle_message scanner 66 first.1.0 first.1.1 ≡ (0, (first.1.0, first.1.1))
subscribe_twice_example = subscribe_twice scanner (some empty_state) 0 subscribed_once

subscribe_unsubscribe_example :
    let first = bluetooth_proxy_handle_message scanner 66 (some empty_state) 0 in
    bluetooth_proxy_handle_message scanner 87 first.1.0 first.1.1 ≡ (0, (some empty_state, 11))
subscribe_unsubscribe_example = subscribe_unsubscribe scanner empty_state 0 refl refl refl refl

-- Two reports, with a flush between.
abbrev events : List Event
events = report 5 advert ∷ flush 9 ∷ report 12 advert ∷ []

run-Ran_example :
    Ran count_sends server []
      (advert ∷ advert ∷ [])
      0
      (run count_sends server events (empty_state, 0))
run-Ran_example =
    run-Ran count_sends server events (empty_state, 0) [] (omega arith, (tt, (omega arith, tt)))
      empty-Holds

elapsed_ms_bounds_example :
    (1 ≤ elapsed_ms 1000400000 999000000) × (elapsed_ms 1000400000 999000000 ≤ 2)
elapsed_ms_bounds_example = elapsed_ms_bounds 1000400000 999000000 (omega arith) (omega arith)

-- The thread wakes up at a time in nanoseconds, and runs on.
abbrev wake_up : ℕ → FlushTick
wake_up time = record { running_before = true; running_after = true; now = time; flushed = time }

abbrev ticks : List FlushTick
ticks = replicate 9 (wake_up 0)
