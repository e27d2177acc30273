-- ===== src/Base/Bytes.antt =====
-- Arrays of bytes: copying into one, and what a copy leaves.
use Prim.Native.Nat.{ℕ, zero, suc, ◌+◌, ◌-◌, ◌≤◌, ◌<◌}
use mathlib.Core.Path.{◌≡◌, refl, sym, ap, ◌∙◌}
use mathlib.Core.List.{List, [], ◌∷◌, ◌++◌, append-nil, append_assoc}
use native.Mathlib.Omega.{arith}
use esphome_linux.Base.Lists.{length, set, take, drop, replicate, length-set, length-replicate}

module _ {ℓ} {A : Type ℓ} where
  -- `memcpy(xs + i, ys, length ys)`; what falls outside the array is dropped.
  abbrev pub write_at : List A → ℕ → List A → List A
  write_at xs i [] = xs
  write_at xs i (y ∷ ys) = write_at (set xs i y) (i + 1) ys

  pub length-write_at : (xs : List A) (i : ℕ) (ys : List A) → length (write_at xs i ys) ≡ length xs
  length-write_at xs i [] = refl
  length-write_at xs i (y ∷ ys) =
      omega (arith, length-write_at (set xs i y) (i + 1) ys, length-set xs i y)

  pub take-set :
      (xs : List A) (i : ℕ) (v : A)
      → i < length xs
      → take (suc i) (set xs i v) ≡ take i xs ++ (v ∷ [])
  take-set [] i v h = absurd (omega arith)
  take-set (x ∷ xs) zero v h = refl
  take-set (x ∷ xs) (suc i) v h = ap (λ t. x ∷ t) (take-set xs i v (omega arith))

  -- A copy that fits extends the text in front of it.
  pub take-write_at :
      (xs : List A) (i n : ℕ) (ys : List A)
      → i + length ys ≤ length xs
      → n ≡ i + length ys
      → take n (write_at xs i ys) ≡ take i xs ++ ys
  take-write_at xs i n [] h e = let e' : n ≡ i = omega arith in rw e' (sym (append-nil (take i xs)))
  take-write_at xs i n (y ∷ ys) h e =
      let next : i + 1 ≡ suc i = omega arith in
      take-write_at (set xs i y) (i + 1) n ys (omega (arith, length-set xs i y)) (omega arith)
      ∙ rw (next, take-set xs i y (omega arith)) (append_assoc (take i xs) (y ∷ []) ys)

  pub take-length : (n : ℕ) (xs : List A) → length xs ≤ n → take n xs ≡ xs
  take-length zero [] h = refl
  take-length zero (x ∷ xs) h = absurd (omega arith)
  take-length (suc n) [] h = refl
  take-length (suc n) (x ∷ xs) h = ap (λ t. x ∷ t) (take-length n xs (omega arith))

  pub take-append : (xs ys : List A) → take (length xs) (xs ++ ys) ≡ xs
  take-append [] ys = refl
  take-append (x ∷ xs) ys = ap (λ t. x ∷ t) (take-append xs ys)

  pub drop-append : (xs ys : List A) → drop (length xs) (xs ++ ys) ≡ ys
  drop-append [] ys = refl
  drop-append (x ∷ xs) ys = drop-append xs ys

  pub drop-drop : (i j : ℕ) (xs : List A) → drop j (drop i xs) ≡ drop (i + j) xs
  drop-drop zero j xs = let e : 0 + j ≡ j = omega arith in rw e
  drop-drop (suc i) j [] = let e : suc i + j ≡ suc (i + j) = omega arith in rw e (drop-nil j)
    where
      drop-nil : (j : ℕ) → drop j (let xs : List A = [] in xs) ≡ []
      drop-nil zero = refl
      drop-nil (suc j) = refl
  drop-drop (suc i) j (x ∷ xs) =
      let e : suc i + j ≡ suc (i + j) = omega arith in rw e (drop-drop i j xs)

  pub drop-take : (i n : ℕ) (xs : List A) → drop i (take n xs) ≡ take (n - i) (drop i xs)
  drop-take zero n xs = let e : n - 0 ≡ n = omega arith in rw e
  drop-take (suc i) zero xs = let e : 0 - suc i ≡ 0 = omega arith in rw e
  drop-take (suc i) (suc n) [] = take-nil (suc n - suc i)
    where
      take-nil : (k : ℕ) → [] ≡ take k (let xs : List A = [] in xs)
      take-nil zero = refl
      take-nil (suc k) = refl
  drop-take (suc i) (suc n) (x ∷ xs) =
      let e : suc n - suc i ≡ n - i = omega arith in rw e (drop-take i n xs)

  pub take-take : (i n : ℕ) (xs : List A) → i ≤ n → take i (take n xs) ≡ take i xs
  take-take zero n xs h = refl
  take-take (suc i) zero xs h = absurd (omega arith)
  take-take (suc i) (suc n) [] h = refl
  take-take (suc i) (suc n) (x ∷ xs) h = ap (λ t. x ∷ t) (take-take i n xs (omega arith))

-- An array on the stack. What it holds before it is written is unspecified in C; it is zeros here.
unfoldable pub uninitialised : ℕ → List ℕ
uninitialised n = replicate n 0

pub length-uninitialised : (n : ℕ) → length (uninitialised n) ≡ n
unfolding uninitialised
length-uninitialised n = length-replicate n 0
