-- ===== src/Base/Forall.antt =====
-- `All` under the operations on lists, and reading and writing in the middle of a list.
use Prim.Native.Nat.{ℕ, zero, suc, ◌<◌}
use mathlib.Core.Path.{◌≡◌, refl, ap}
use mathlib.Core.List.{List, [], ◌∷◌, ◌++◌, map}
use native.Mathlib.Omega.{arith}
use esphome_linux.Base.Lists.{length, get_or, set, take, replicate, All}

module _ {ℓ κ} {A : Type ℓ} (P : A → Type κ) where
  pub All-get_or : (xs : List A) (i : ℕ) (d : A) → All P xs → P d → P (get_or xs i d)
  All-get_or [] i d h hd = hd
  All-get_or (x ∷ xs) zero d (hx, hs) hd = hx
  All-get_or (x ∷ xs) (suc i) d (hx, hs) hd = All-get_or xs i d hs hd

  pub All-set : (xs : List A) (i : ℕ) (v : A) → All P xs → P v → All P (set xs i v)
  All-set [] i v h hv = tt
  All-set (x ∷ xs) zero v (hx, hs) hv = (hv, hs)
  All-set (x ∷ xs) (suc i) v (hx, hs) hv = (hx, All-set xs i v hs hv)

  pub All-take : (n : ℕ) (xs : List A) → All P xs → All P (take n xs)
  All-take zero xs h = tt
  All-take (suc n) [] h = tt
  All-take (suc n) (x ∷ xs) (hx, hs) = (hx, All-take n xs hs)

  pub All-append : (xs ys : List A) → All P xs → All P ys → All P (xs ++ ys)
  All-append [] ys hx hy = hy
  All-append (x ∷ xs) ys (hx, hs) hy = (hx, All-append xs ys hs hy)

  pub All-replicate : (n : ℕ) (a : A) → P a → All P (replicate n a)
  All-replicate zero a h = tt
  All-replicate (suc n) a h = (h, All-replicate n a h)

  pub All-map :
      (f : A → A) → ((a : A) → P a → P (f a)) → (xs : List A) → All P xs → All P (map f xs)
  All-map f keep [] h = tt
  All-map f keep (x ∷ xs) (hx, hs) = (keep x hx, All-map f keep xs hs)

module _ {ℓ} {A : Type ℓ} where
  pub get_or-middle :
      (front : List A) (a : A) (back : List A) (d : A)
      → get_or (front ++ a ∷ back) (length front) d ≡ a
  get_or-middle [] a back d = refl
  get_or-middle (x ∷ front) a back d = get_or-middle front a back d

  pub set-middle :
      (front : List A) (a b : A) (back : List A)
      → set (front ++ a ∷ back) (length front) b ≡ front ++ b ∷ back
  set-middle [] a b back = refl
  set-middle (x ∷ front) a b back = ap (λ t. x ∷ t) (set-middle front a b back)

  pub get_or-set : (xs : List A) (i : ℕ) (v d : A) → i < length xs → get_or (set xs i v) i d ≡ v
  get_or-set [] i v d h = absurd (omega arith)
  get_or-set (x ∷ xs) zero v d h = refl
  get_or-set (x ∷ xs) (suc i) v d h = get_or-set xs i v d (omega arith)

  pub length-map : (f : A → A) (xs : List A) → length (map f xs) ≡ length xs
  length-map f [] = refl
  length-map f (x ∷ xs) = ap suc (length-map f xs)
