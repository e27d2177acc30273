-- ===== src/Proxy/Flush.antt =====
-- `flush_thread_func` of plugins/bluetooth_proxy/bluetooth_proxy_plugin.c, over the rounds that it makes.
-- A time is in nanoseconds.
use esphome_linux.Base.{
  ℕ, ◌+◌, ◌-◌, ◌*◌, ◌/◌, ◌%◌, ◌^◌, ◌≤◌, ◌<◌, ◌≡◌, Bool, true, not, ◌&&◌, List, [], ◌∷◌, arith, ltb,
  leb, if◌then◌else◌, Bool-cases, inl, inr, leb→le, leb→lt,
}
use esphome_linux.Api.Server.{Server, System}
use esphome_linux.Proxy.{BleReport, ProxyState, flush_ble_batch}
use esphome_linux.Proxy.Batch.{deliver_batch}

abbrev pub ble_batch_flush_interval_ms : ℕ
ble_batch_flush_interval_ms = 100

abbrev tv_sec : ℕ → ℕ
tv_sec time = time / 1000000000

abbrev tv_nsec : ℕ → ℕ
tv_nsec time = time % 1000000000

-- The seconds' difference in milliseconds and that of the nanoseconds, which C rounds towards 0, in
-- 64 bits.
unfoldable pub elapsed_ms : ℕ → ℕ → ℕ
elapsed_ms now last =
    let seconds = (tv_sec now + 2 ^ 64 - tv_sec last) * 1000 in
    if leb (tv_nsec last) (tv_nsec now)
    then (seconds + (tv_nsec now - tv_nsec last) / 1000000) % 2 ^ 64
    else (seconds + 2 ^ 64 - (tv_nsec last - tv_nsec now) / 1000000) % 2 ^ 64

-- A round: what it reads of `flush_thread_running` before and after it sleeps, the time that it reads,
-- and the time at which a flush ends.
pub record FlushTick : Type 0 where
  pub running_before : Bool
  pub running_after : Bool
  pub now : ℕ
  pub flushed : ℕ

-- What the thread leaves, and its `sleep_count`.
pub record Flushed (W : Type 0) : Type 0 where
  pub sleep_count : ℕ
  pub state : ProxyState
  pub world : W

module _ {W : Type 0} (system : System W) (server : Server) where
  -- `elapsed_ms >= BLE_BATCH_FLUSH_INTERVAL_MS && state->ble_batch.count > 0`
  abbrev pub is_due : FlushTick → ProxyState → Bool
  is_due tick state =
      leb ble_batch_flush_interval_ms (elapsed_ms tick.now state.last_flush)
      && ltb 0 state.ble_batch.count

  abbrev pub flush_if_due : FlushTick → ProxyState → W → ProxyState × W
  flush_if_due tick state w =
      if is_due tick state then flush_ble_batch system server tick.flushed state w else (state, w)

  unfoldable pub flush_rounds : List FlushTick → Flushed W → Flushed W
  flush_rounds [] r = r
  flush_rounds (tick ∷ ticks) r =
      let sleep_count = r.sleep_count + 1 in
      let after = flush_if_due tick r.state r.world in
      let flushed : Flushed W = record { sleep_count = 0; state = after.0; world = after.1 } in
      let waiting = flush_rounds ticks (record r { sleep_count = sleep_count }) in
      let rest = flush_rounds ticks flushed in
      if not tick.running_before
      then r
      else if not tick.running_after
      then record r { sleep_count = sleep_count }
      else if ltb (sleep_count * 10) ble_batch_flush_interval_ms
      then waiting
      else rest

-- From an earlier time to a later one, the milliseconds are those between the two, or one more.
pub elapsed_ms_bounds :
    (now last : ℕ)
    → last ≤ now
    → now < 2 ^ 63
    → ((now - last) / 1000000 ≤ elapsed_ms now last)
      × (elapsed_ms now last ≤ (now - last) / 1000000 + 1)
unfolding elapsed_ms
elapsed_ms_bounds now last h small = elim (Bool-cases (leb (tv_nsec last) (tv_nsec now))) [
  | inl above ↦ rw above (omega (arith, leb→le _ _ above))
  | inr below ↦ rw below (omega (arith, leb→lt _ _ below))
]

abbrev pub KeepsRunning : FlushTick → Type 0
KeepsRunning tick = (tick.running_before ≡ true) × (tick.running_after ≡ true)

module _ {W : Type 0} (system : System W) (server : Server) where
  -- The reports that a flush leaves in the queue, and what it does to the world.
  abbrev pub deliver_if : Bool → List BleReport → W → List BleReport × W
  deliver_if due reports w =
      if due then ([], deliver_batch system server reports w) else (reports, w)
