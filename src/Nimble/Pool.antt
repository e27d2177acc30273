-- ===== src/Nimble/Pool.antt =====
-- The pool of event queues, nimble/os/os_eventq.c. A queue is the number of its block, a
-- `struct ble_npl_eventq` is `none` or the block that it points to, and the flags of the events are
-- shared by all queues.
use esphome_linux.Base.{ℕ, Bool, true, false, Option, none, some, List, [], ◌==◌, if◌then◌else◌}
use esphome_linux.Nimble.{EventQueue, ble_npl_eventq_put}

-- `os_mempool_init`, `os_memblock_get` and `os_memblock_put` on the pool of eight blocks.
pub record Mempool (P : Type 0) : Type 0 where
  pub init : P → P
  pub get : P → Option ℕ × P
  pub put : ℕ → P → P

pub record Queues (P : Type 0) : Type 0 where
  pub b_pool_init : Bool
  pub pool : P
  pub b_init : ℕ → Bool
  pub heads : ℕ → List ℕ
  pub ev_queued : ℕ → Bool

-- The queue of a block, and storing it back.
abbrev pub queue_at : {P : Type 0} → ℕ → Queues P → EventQueue
queue_at b s = record { mq_head = s.heads b; ev_queued = s.ev_queued }

abbrev pub store_at : {P : Type 0} → ℕ → EventQueue → Queues P → Queues P
store_at b q s = record s {
  heads = λ x. if x == b then q.mq_head else s.heads x;
  ev_queued = q.ev_queued;
}

abbrev pub set_init : {P : Type 0} → ℕ → Bool → Queues P → Queues P
set_init b flag s = record s { b_init = λ x. if x == b then flag else s.b_init x }

abbrev pub mqueue_init : {P : Type 0} → ℕ → Queues P → Queues P
mqueue_init b s = record s { heads = λ x. if x == b then [] else s.heads x }

abbrev pub wqueue_init : {P : Type 0} → ℕ → Queues P → Queues P
wqueue_init b s = mqueue_init b (set_init b true s)

abbrev pub wqueue_deinit : {P : Type 0} → ℕ → Queues P → Queues P
wqueue_deinit b s = if s.b_init b then set_init b false s else s

module _ {P : Type 0} (mempool : Mempool P) where
  -- The pool is made once.
  abbrev pub with_pool : Queues P → Queues P
  with_pool s =
      if s.b_pool_init then s else record s { b_pool_init = true; pool = mempool.init s.pool }

  -- What `evq->q` is set to, from what the pool answers.
  abbrev pub new_queue : Queues P → Option ℕ × P → Option ℕ × Queues P
  new_queue s answer = elim answer.0 [
    | none ↦ (none, record s { pool = answer.1 })
    | some b ↦ (some b, wqueue_init b (record s { pool = answer.1 }))
  ]

  unfoldable pub ble_npl_eventq_init : Queues P → Option ℕ × Queues P
  ble_npl_eventq_init s = let ready = with_pool s in new_queue ready (mempool.get ready.pool)

  unfoldable pub ble_npl_eventq_release : Option ℕ → Queues P → Queues P
  ble_npl_eventq_release none s = s
  ble_npl_eventq_release (some b) s =
      let closed = wqueue_deinit b s in record closed { pool = mempool.put b closed.pool }

-- `ble_npl_eventq_put` on a block.
abbrev pub put_at : {P : Type 0} → ℕ → ℕ → Queues P → Queues P
put_at b ev s = store_at b (ble_npl_eventq_put ev (queue_at b s)) s
