-- ===== src/Proxy/Run.antt =====
-- Any run of reports and flushes of plugins/bluetooth_proxy/bluetooth_proxy_plugin.c: nothing that is
-- reported is lost, sent twice or reordered. What `batch_mutex` guards is one step.
use esphome_linux.Base.{
  ℕ, ◌≤◌, ◌≡◌, refl, sym, ap, ◌∙◌, List, [], ◌∷◌, ◌++◌, All, All-append, flatten, arith, length,
  length-append, leb, leb→lt, append-nil, append_assoc, Bool-cases, inl, inr,
}
use esphome_linux.Api.Server.{Server, System}
use esphome_linux.Proxy.{BleReport, ProxyState, flush_ble_batch, on_ble_advertisement}
use esphome_linux.Proxy.Batch.{
  IsReport, Holds, deliver_batch, flush_ble_batch-Holds, on_ble_advertisement-enqueue,
}

-- The scanner reports an advertisement, or the batch is flushed; `now` is the time of a flush.
pub data Event : Type 0 where
  report : (now : ℕ) → BleReport → Event
  flush : (now : ℕ) → Event

abbrev pub reported : List Event → List BleReport
reported [] = []
reported (report now advert ∷ events) = advert ∷ reported events
reported (flush now ∷ events) = reported events

abbrev pub IsEvent : Event → Type 0
IsEvent (report now advert) = IsReport advert
IsEvent (flush now) = Unit {0}

-- A batch that can be broadcast.
abbrev pub IsBatch : List BleReport → Type 0
IsBatch reports = length reports ≤ 16

flatten-append : (xs ys : List (List BleReport)) → flatten (xs ++ ys) ≡ flatten xs ++ flatten ys
flatten-append [] ys = refl
flatten-append (x ∷ xs) ys =
    ap (λ t. x ++ t) (flatten-append xs ys) ∙ sym (append_assoc x (flatten xs) (flatten ys))

module _ {W : Type 0} (system : System W) (server : Server) where
  abbrev pub step : Event → ProxyState × W → ProxyState × W
  step (report now advert) s = on_ble_advertisement system server now advert s.0 s.1
  step (flush now) s = flush_ble_batch system server now s.0 s.1

  abbrev pub run : List Event → ProxyState × W → ProxyState × W
  run [] s = s
  run (event ∷ events) s = run events (step event s)

  -- Broadcasting batches one after the other.
  abbrev pub deliver_batches : List (List BleReport) → W → W
  deliver_batches [] w = w
  deliver_batches (reports ∷ batches) w =
      deliver_batches batches (deliver_batch system server reports w)

  deliver_batches-append :
      (xs ys : List (List BleReport)) (w : W)
      → deliver_batches (xs ++ ys) w ≡ deliver_batches ys (deliver_batches xs w)
  deliver_batches-append [] ys w = refl
  deliver_batches-append (x ∷ xs) ys w =
      deliver_batches-append xs ys (deliver_batch system server x w)

  -- What a run from a queue comes to: the batches that were broadcast, and the queue that is left.
  pub record Ran (queue : List BleReport) (added : List BleReport) (w : W) (s : ProxyState × W)
      : Type 0 where
    pub batches : List (List BleReport)
    pub left : List BleReport
    pub holds : Holds s.0 left
    pub small : All IsBatch batches
    pub complete : flatten batches ++ left ≡ queue ++ added
    pub sent : s.1 ≡ deliver_batches batches w

  step-Ran :
      (event : Event) (s : ProxyState × W) (queue : List BleReport)
      → IsEvent event
      → Holds s.0 queue
      → Ran queue (reported (event ∷ [])) s.1 (step event s)
  step-Ran (flush now) s queue he h =
      let flushed = flush_ble_batch-Holds system server now s.0 s.1 queue h in
      record {
        batches = queue ∷ [];
        left = [];
        holds = flushed.0;
        small = (h.room, tt);
        complete = append-nil (queue ++ []);
        sent = flushed.1;
      }
  step-Ran (report now advert) s queue he h =
      let joined = queue ++ (advert ∷ []) in
      let done = on_ble_advertisement-enqueue system server now advert s.0 s.1 queue he h in
      elim (Bool-cases (leb 16 (length queue))) [
        | inl full ↦
            let kept = rw full at done in
            record {
              batches = queue ∷ [];
              left = advert ∷ [];
              holds = kept.0;
              small = (h.room, tt);
              complete = ap (λ t. t ++ (advert ∷ [])) (append-nil queue);
              sent = kept.1;
            }
        | inr room ↦
            let fits : length joined ≤ 16 =
              omega (arith, length-append queue (advert ∷ []), leb→lt _ _ room) in
            elim (Bool-cases (leb 16 (length joined))) [
              | inl last ↦
                  let kept = rw (room, last) at done in
                  record {
                    batches = joined ∷ [];
                    left = [];
                    holds = kept.0;
                    small = (fits, tt);
                    complete = append-nil (joined ++ []) ∙ append-nil joined;
                    sent = kept.1;
                  }
              | inr waits ↦
                  let kept = rw (room, waits) at done in
                  record {
                    batches = [];
                    left = joined;
                    holds = kept.0;
                    small = tt;
                    complete = refl;
                    sent = kept.1;
                  }
            ]
      ]

  -- In any order of reports and flushes, from a batch that holds a queue: what has been broadcast,
  -- in batches of at most 16 reports, and what is still held are together the queue and all that was
  -- reported, each report once and in order.
  pub run-Ran :
      (events : List Event) (s : ProxyState × W) (queue : List BleReport)
      → All IsEvent events
      → Holds s.0 queue
      → Ran queue (reported events) s.1 (run events s)
  run-Ran [] s queue he h = record {
    batches = [];
    left = queue;
    holds = h;
    small = tt;
    complete = sym (append-nil queue);
    sent = refl;
  }
  run-Ran (event ∷ events) s queue (he, hs) h =
      let first = step-Ran event s queue he h in
      let rest = run-Ran events (step event s) first.left hs first.holds in
      record {
        batches = first.batches ++ rest.batches;
        left = rest.left;
        holds = rest.holds;
        small = All-append IsBatch first.batches rest.batches first.small rest.small;
        complete =
            ap (λ t. t ++ rest.left) (flatten-append first.batches rest.batches)
            ∙ append_assoc (flatten first.batches) (flatten rest.batches) rest.left
            ∙ ap (λ t. flatten first.batches ++ t) rest.complete
            ∙ sym (append_assoc (flatten first.batches) first.left (reported events))
            ∙ ap (λ t. t ++ reported events) first.complete
            ∙ append_assoc queue (reported (event ∷ [])) (reported events)
            ∙ ap (λ t. queue ++ t) (sym (reported-cons event events));
        sent =
            rest.sent
            ∙ ap (deliver_batches rest.batches) first.sent
            ∙ sym (deliver_batches-append first.batches rest.batches s.1);
      }
    where
      reported-cons :
          (event : Event) (events : List Event)
          → reported (event ∷ events) ≡ reported (event ∷ []) ++ reported events
      reported-cons (report now advert) events = refl
      reported-cons (flush now) events = refl
