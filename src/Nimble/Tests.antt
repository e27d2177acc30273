-- ===== src/Nimble/Tests.antt =====
-- The theorems on nimble/os/os_eventq.c at concrete queues.
use esphome_linux.Base.{
  ℕ, ◌≡◌, ◌↔◌, refl, true, false, none, some, List, [], ◌∷◌, ◌++◌, ◌==◌, if◌then◌else◌,
}
use esphome_linux.Nimble.{
  EventQueue, delete, nothing, event, ble_npl_eventq_is_empty, ble_npl_eventq_put,
  ble_npl_eventq_get, ble_npl_eventq_remove,
}
use esphome_linux.Nimble.Fifo.{
  elem, IsQueue, ble_npl_eventq_put-IsQueue, ble_npl_eventq_get-IsQueue,
  ble_npl_eventq_remove-IsQueue, ble_npl_eventq_is_empty_inverted,
}
use esphome_linux.Nimble.Pool.{Mempool, Queues}

abbrev two_events : EventQueue
two_events = record { mq_head = 5 ∷ 6 ∷ []; ev_queued = λ e. elem e (5 ∷ 6 ∷ []) }

two_events-IsQueue : IsQueue two_events
two_events-IsQueue = record { marked = λ e. refl; distinct = (refl, (refl, tt)) }

fifo : (ble_npl_eventq_get 1 (ble_npl_eventq_put 7 two_events)).1.mq_head ≡ 6 ∷ 7 ∷ []
unfolding ble_npl_eventq_get ble_npl_eventq_put
fifo = refl

ble_npl_eventq_put-IsQueue_example :
    let after = ble_npl_eventq_put 7 two_events in
    IsQueue after
    × (after.mq_head ≡ (
        if elem 7 two_events.mq_head then two_events.mq_head else two_events.mq_head ++ (7 ∷ [])))
ble_npl_eventq_put-IsQueue_example = ble_npl_eventq_put-IsQueue 7 two_events two_events-IsQueue

ble_npl_eventq_get-IsQueue_example :
    let (got, after) = ble_npl_eventq_get 0 two_events in
    IsQueue after × (got ≡ event 5) × (after.mq_head ≡ 6 ∷ [])
ble_npl_eventq_get-IsQueue_example =
    ble_npl_eventq_get-IsQueue 0 5 (6 ∷ []) two_events two_events-IsQueue refl

ble_npl_eventq_remove-IsQueue_example :
    let after = ble_npl_eventq_remove 6 two_events in
    IsQueue after × (after.mq_head ≡ delete 6 two_events.mq_head)
ble_npl_eventq_remove-IsQueue_example =
    ble_npl_eventq_remove-IsQueue 6 two_events two_events-IsQueue

ble_npl_eventq_is_empty_inverted_example :
    (ble_npl_eventq_is_empty two_events ≡ false) ↔ ((ble_npl_eventq_get 0 two_events).0 ≡ nothing)
ble_npl_eventq_is_empty_inverted_example = ble_npl_eventq_is_empty_inverted two_events

-- A pool as the list of its free blocks.
abbrev free_list : Mempool (List ℕ)
free_list = record {
  init = λ free. 0 ∷ 1 ∷ 2 ∷ 3 ∷ 4 ∷ 5 ∷ 6 ∷ 7 ∷ [];
  get = λ free. elim free [ [] ↦ (none, []) | b ∷ rest ↦ (some b, rest) ];
  put = λ b free. b ∷ free;
}

-- Block 0 has a queue, in which event 5 waits.
abbrev one_queue : Queues (List ℕ)
one_queue = record {
  b_pool_init = true;
  pool = 1 ∷ 2 ∷ [];
  b_init = λ b. b == 0;
  heads = λ b. if b == 0 then 5 ∷ [] else [];
  ev_queued = λ e. e == 5;
}
