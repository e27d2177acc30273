-- ===== src/Nimble/Fifo.antt =====
-- The event queue is a first-in, first-out queue in which each event stands at most once.
use esphome_linux.Base.{
  ℕ, ◌≡◌, ◌↔◌, refl, sym, ap, ◌∙◌, Bool, true, false, List, [], ◌∷◌, ◌++◌, arith, ◌==◌,
  if◌then◌else◌, Bool-cases, inl, inr,
}
use esphome_linux.Nimble.{
  EventQueue, delete, ble_npl_eventq_is_empty, ble_npl_eventq_put, nothing, event,
  ble_npl_eventq_get, ble_npl_eventq_remove,
}

abbrev pub elem : ℕ → List ℕ → Bool
elem e [] = false
elem e (x ∷ xs) = if e == x then true else elem e xs

abbrev pub Distinct : List ℕ → Type 0
Distinct [] = Unit {0}
Distinct (x ∷ xs) = (elem x xs ≡ false) × Distinct xs

-- The flags tell the events that are queued, and none is queued twice.
pub record IsQueue (q : EventQueue) : Type 0 where
  pub marked : (e : ℕ) → q.ev_queued e ≡ elem e q.mq_head
  pub distinct : Distinct q.mq_head

elem-append :
    (e x : ℕ) (xs : List ℕ) → elem e (xs ++ (x ∷ [])) ≡ (if e == x then true else elem e xs)
elem-append e x [] = refl
elem-append e x (y ∷ ys) = elim (Bool-cases (e == y)) [
  | inl same ↦ elim (Bool-cases (e == x)) [ inl h ↦ rw (same, h) refl | inr h ↦ rw (same, h) refl ]
  | inr other ↦ rw other (elem-append e x ys)
]

Distinct-append :
    (x : ℕ) (xs : List ℕ) → elem x xs ≡ false → Distinct xs → Distinct (xs ++ (x ∷ []))
Distinct-append x [] h d = (refl, tt)
Distinct-append x (y ∷ ys) h (hy, d) = elim (Bool-cases (x == y)) [
  | inl same ↦ (let no : true ≡ false = rw same at h in cc)
  | inr other ↦
      let apart : (y == x) ≡ false = ground arith in
      (elem-append y x ys ∙ rw apart hy, Distinct-append x ys (rw other at h) d)
]

elem-delete :
    (e x : ℕ) (xs : List ℕ)
    → Distinct xs
    → elem e (delete x xs) ≡ (if e == x then false else elem e xs)
elem-delete e x [] d = elim (Bool-cases (e == x)) [ inl h ↦ rw h refl | inr h ↦ rw h refl ]
elem-delete e x (y ∷ ys) (hy, d) = elim (Bool-cases (y == x)) [
  | inl same ↦ elim (Bool-cases (e == x)) [
    | inl here ↦
        let eq : e ≡ y = ground arith in rw (same, here) (ap (λ (k : ℕ). elem k ys) eq ∙ hy)
    | inr away ↦ let apart : (e == y) ≡ false = ground arith in rw (same, away, apart) refl
  ]
  | inr other ↦ elim (Bool-cases (e == y)) [
    | inl here ↦ let apart : (e == x) ≡ false = ground arith in rw (other, here, apart) refl
    | inr away ↦ rw (other, away) (elem-delete e x ys d)
  ]
]

Distinct-delete : (x : ℕ) (xs : List ℕ) → Distinct xs → Distinct (delete x xs)
Distinct-delete x [] d = tt
Distinct-delete x (y ∷ ys) (hy, d) = elim (Bool-cases (y == x)) [
  | inl same ↦ rw same d
  | inr other ↦ rw other (elem-delete y x ys d ∙ rw other hy, Distinct-delete x ys d)
]

delete-absent : (ev : ℕ) (xs : List ℕ) → elem ev xs ≡ false → delete ev xs ≡ xs
delete-absent ev [] h = refl
delete-absent ev (x ∷ xs) h = elim (Bool-cases (ev == x)) [
  | inl same ↦ (let no : true ≡ false = rw same at h in cc)
  | inr other ↦
      let apart : (x == ev) ≡ false = ground arith in
      rw apart (ap (λ t. x ∷ t) (delete-absent ev xs (rw other at h)))
]

-- An event that is not queued joins the queue at its end, and one that is queued stays where it is.
pub ble_npl_eventq_put-IsQueue :
    (ev : ℕ) (q : EventQueue)
    → IsQueue q
    → let after = ble_npl_eventq_put ev q in
      IsQueue after
      × (after.mq_head ≡ (if elem ev q.mq_head then q.mq_head else q.mq_head ++ (ev ∷ [])))
unfolding ble_npl_eventq_put
ble_npl_eventq_put-IsQueue ev q h = elim (Bool-cases (q.ev_queued ev)) [
  | inl queued ↦
      let there : elem ev q.mq_head ≡ true = sym (h.marked ev) ∙ queued in
      rw (queued, there) (h, refl)
  | inr free ↦
      let absent : elem ev q.mq_head ≡ false = sym (h.marked ev) ∙ free in
      rw (free, absent)
        (
          record {
            marked = λ e.
                ap (λ (b : Bool). if e == ev then true else b) (h.marked e)
                ∙ sym (elem-append e ev q.mq_head);
            distinct = Distinct-append ev q.mq_head absent h.distinct;
          },
          refl,
        )
]

-- From a queue that holds an event the oldest one is got, with or without a timeout, and the others
-- stay in order.
pub ble_npl_eventq_get-IsQueue :
    (tmo x : ℕ) (xs : List ℕ) (q : EventQueue)
    → IsQueue q
    → q.mq_head ≡ x ∷ xs
    → let (got, after) = ble_npl_eventq_get tmo q in
      IsQueue after × (got ≡ event x) × (after.mq_head ≡ xs)
unfolding ble_npl_eventq_get
ble_npl_eventq_get-IsQueue tmo x xs q h full =
    let distinct : Distinct (x ∷ xs) = rw full at h.distinct in
    let first : (e : ℕ) → (if e == x then false else q.ev_queued e) ≡ elem e xs =
      λ e. unmarked e distinct.0 (h.marked e ∙ ap (elem e) full) in
    rw (full) (record { marked = first; distinct = distinct.1 }, refl, refl)
  where
    unmarked :
        (e : ℕ)
        → elem x xs ≡ false
        → q.ev_queued e ≡ elem e (x ∷ xs)
        → (if e == x then false else q.ev_queued e) ≡ elem e xs
    unmarked e hx m = elim (Bool-cases (e == x)) [
      | inl here ↦
          let eq : e ≡ x = ground arith in rw here (sym (ap (λ (k : ℕ). elem k xs) eq ∙ hx))
      | inr away ↦ rw away (rw away at m)
    ]

-- An event that is removed is no longer queued, and the others keep their order.
pub ble_npl_eventq_remove-IsQueue :
    (ev : ℕ) (q : EventQueue)
    → IsQueue q
    → let after = ble_npl_eventq_remove ev q in
      IsQueue after × (after.mq_head ≡ delete ev q.mq_head)
unfolding ble_npl_eventq_remove
ble_npl_eventq_remove-IsQueue ev q h = elim (Bool-cases (q.ev_queued ev)) [
  | inl queued ↦ rw queued (
    record {
      marked = λ e.
          ap (λ (b : Bool). if e == ev then false else b) (h.marked e)
          ∙ sym (elem-delete e ev q.mq_head h.distinct);
      distinct = Distinct-delete ev q.mq_head h.distinct;
    },
    refl,
  )
  | inr free ↦ rw free (h, sym (delete-absent ev q.mq_head (sym (h.marked ev) ∙ free)))
]

-- `ble_npl_eventq_is_empty` is true exactly if `ble_npl_eventq_get` without a timeout gets an event:
-- it says the opposite of its name.
pub ble_npl_eventq_is_empty_inverted :
    (q : EventQueue) → (ble_npl_eventq_is_empty q ≡ false) ↔ ((ble_npl_eventq_get 0 q).0 ≡ nothing)
unfolding ble_npl_eventq_is_empty ble_npl_eventq_get
ble_npl_eventq_is_empty_inverted q = go q.mq_head refl
  where
    go :
        (xs : List ℕ)
        → q.mq_head ≡ xs
        → (ble_npl_eventq_is_empty q ≡ false) ↔ ((ble_npl_eventq_get 0 q).0 ≡ nothing)
    go [] e = rw e (λ _. refl, λ _. refl)
    go (x ∷ xs) e = rw e (λ no. cc, λ no. cc)
