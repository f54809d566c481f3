-- ===== src/Prelude/Slices.antt =====
-- Taking from and dropping off a joined list.
use Prim.Native.Nat.{ℕ, zero, suc, ◌+◌, ◌≤◌}
use mathlib.Core.Path.{◌≡◌, refl, sym, ap, ◌∙◌}
use mathlib.Core.List.{List, [], ◌∷◌, ◌++◌}
use native.Mathlib.Omega.{arith}
use Prim.Native.Nat.add
use actor_network.Prelude.Lists.{length, take, drop}

module _ {ℓ} {A : Type ℓ} where
  pub drop-append : (n : ℕ) (xs ys : List A) → drop (length xs + n) (xs ++ ys) ≡ drop n ys
  drop-append n [] ys = rw (add.zero n) refl
  drop-append n (x ∷ xs) ys = rw (add.suc _ _) (drop-append n xs ys)

  pub drop-append_left :
      (n : ℕ) (xs ys : List A) → n ≤ length xs → drop n (xs ++ ys) ≡ drop n xs ++ ys
  drop-append_left zero xs ys h = refl
  drop-append_left (suc n) [] ys h = elim h [ ]
  drop-append_left (suc n) (x ∷ xs) ys h = drop-append_left n xs ys (omega arith)

  pub take-append : (n : ℕ) (xs ys : List A) → take (length xs + n) (xs ++ ys) ≡ xs ++ take n ys
  take-append n [] ys = rw (add.zero n) refl
  take-append n (x ∷ xs) ys = rw (add.suc _ _) (ap (◌∷◌ x) (take-append n xs ys))

  pub take-append_left : (n : ℕ) (xs ys : List A) → n ≤ length xs → take n (xs ++ ys) ≡ take n xs
  take-append_left zero xs ys h = refl
  take-append_left (suc n) [] ys h = elim h [ ]
  take-append_left (suc n) (x ∷ xs) ys h = ap (◌∷◌ x) (take-append_left n xs ys (omega arith))

  pub take_all : (xs : List A) → take (length xs) xs ≡ xs
  take_all [] = refl
  take_all (x ∷ xs) = ap (◌∷◌ x) (take_all xs)

  pub drop_all : (xs : List A) → drop (length xs) xs ≡ []
  drop_all [] = refl
  drop_all (x ∷ xs) = drop_all xs

  pub take_nil : (n : ℕ) → take {A = A} n [] ≡ []
  take_nil zero = refl
  take_nil (suc n) = refl

  drop_nil : (n : ℕ) → drop {A = A} n [] ≡ []
  drop_nil zero = refl
  drop_nil (suc n) = refl

  pub drop-drop : (n m : ℕ) (xs : List A) → drop n (drop m xs) ≡ drop (m + n) xs
  drop-drop n zero xs = rw (add.zero n) refl
  drop-drop n (suc m) [] = rw (add.suc _ _) (drop_nil n)
  drop-drop n (suc m) (x ∷ xs) = rw (add.suc _ _) (drop-drop n m xs)

pub take-add {ℓ} :
    {A : Type ℓ} (n k : ℕ) (xs : List A) → take (n + k) xs ≡ take n xs ++ take k (drop n xs)
take-add zero k xs = ap (λ i. take i xs) (omega arith)
take-add (suc n) k [] = ap (λ i. take i []) (omega arith) ∙ take_nil (n + k + 1) ∙ sym (take_nil k)
take-add (suc n) k (x ∷ xs) = ap (λ i. take i (x ∷ xs)) (suc_add n k) ∙ ap (◌∷◌ x) (take-add n k xs)
  where
    suc_add : (a b : ℕ) → suc a + b ≡ suc (a + b)
    suc_add a b = omega arith

pub drop-take {ℓ} :
    {A : Type ℓ} (n k : ℕ) (xs : List A) → drop n (take (n + k) xs) ≡ take k (drop n xs)
drop-take zero k xs = ap (λ i. take i xs) (omega arith)
drop-take (suc n) k [] = ap (drop (suc n)) (take_nil (suc n + k)) ∙ sym (take_nil k)
drop-take (suc n) k (x ∷ xs) =
    ap (λ i. drop (suc n) (take i (x ∷ xs))) (suc_add n k) ∙ drop-take n k xs
  where
    suc_add : (a b : ℕ) → suc a + b ≡ suc (a + b)
    suc_add a b = omega arith

pub drop-length {ℓ} : {A : Type ℓ} (xs ys : List A) → drop (length xs) (xs ++ ys) ≡ ys
drop-length [] ys = refl
drop-length (x ∷ xs) ys = drop-length xs ys
