-- ===== src/Nimble.antt =====
-- The event queues of the NimBLE porting layer, nimble/os/os_eventq.c. An event is a pointer, here a
-- number; the mutex and the condition variable are left out, since each operation is one step.
pub mod Fifo
pub mod Pool
mod Tests
use esphome_linux.Base.{
  ℕ, Bool, true, false, not, Option, none, some, List, [], ◌∷◌, ◌++◌, ◌==◌, if◌then◌else◌,
}

-- The list behind `mq_head`, and the `ev_queued` flags of the events.
pub record EventQueue : Type 0 where
  pub mq_head : List ℕ
  pub ev_queued : ℕ → Bool

abbrev pub mark : ℕ → Bool → EventQueue → EventQueue
mark ev flag q = record q { ev_queued = λ x. if x == ev then flag else q.ev_queued x }

-- `STAILQ_FIRST`, or a null pointer.
abbrev pub mqueue_pick : EventQueue → Option ℕ
mqueue_pick q = elim q.mq_head [ [] ↦ none | x ∷ xs ↦ some x ]

abbrev pub mqueue_get : EventQueue → Option ℕ × EventQueue
mqueue_get q = elim q.mq_head [ [] ↦ (none, q) | x ∷ xs ↦ (some x, record q { mq_head = xs }) ]

abbrev pub mqueue_put : ℕ → EventQueue → EventQueue
mqueue_put ev q = record q { mq_head = q.mq_head ++ (ev ∷ []) }

-- `STAILQ_REMOVE` on an event that is there.
abbrev pub delete : ℕ → List ℕ → List ℕ
delete ev [] = []
delete ev (x ∷ xs) = if x == ev then xs else x ∷ delete ev xs

abbrev pub mqueue_del_unlock : ℕ → EventQueue → EventQueue
mqueue_del_unlock ev q = record q { mq_head = delete ev q.mq_head }

unfoldable pub ble_npl_eventq_is_empty : EventQueue → Bool
ble_npl_eventq_is_empty q = elim (mqueue_pick q) [ none ↦ false | some x ↦ true ]

unfoldable pub ble_npl_eventq_put : ℕ → EventQueue → EventQueue
ble_npl_eventq_put ev q = if q.ev_queued ev then q else mqueue_put ev (mark ev true q)

-- What a caller of `ble_npl_eventq_get` sees: it waits for an event, or gets a null pointer or an
-- event.
pub data Got : Type 0 where
  waits : Got
  nothing : Got
  event : ℕ → Got

unfoldable pub ble_npl_eventq_get : ℕ → EventQueue → Got × EventQueue
ble_npl_eventq_get tmo q = elim (mqueue_get q).0 [
  | none ↦ ((if tmo == 0 then nothing else waits), q)
  | some ev ↦ (event ev, mark ev false (mqueue_get q).1)
]

unfoldable pub ble_npl_eventq_remove : ℕ → EventQueue → EventQueue
ble_npl_eventq_remove ev q =
    if not (q.ev_queued ev) then q else mqueue_del_unlock ev (mark ev false q)
