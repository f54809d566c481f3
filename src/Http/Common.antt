-- ===== src/Http/Common.antt =====
-- include/nil/actor/http/common.hh and src/http/common.cc: the path parameters and the methods.
use actor_network.Prelude.{
  Bool, List, Option, [], arith, codes, drop, false, if◌then◌else◌, none, refl, some, true, ℕ, ◌&&◌,
  ◌==◌, ◌>>=◌, ◌∷◌, ◌≡◌,
}

-- A dictionary of texts, the newest entry of a key first.
abbrev pub Dict : Type 0
Dict = List (List ℕ × List ℕ)

pub text_eq : List ℕ → List ℕ → Bool
text_eq [] [] = true
text_eq [] (b ∷ ys) = false
text_eq (a ∷ xs) [] = false
text_eq (a ∷ xs) (b ∷ ys) = a == b && text_eq xs ys

-- `parameters::set`, `exists`, `path` (which throws on a missing key) and `clear`.
unfoldable pub set_param : Dict → List ℕ → List ℕ → Dict
set_param m key value = (key, value) ∷ m

unfoldable pub param : Dict → List ℕ → Option (List ℕ)
unfolding text_eq
param [] key = none
param ((k, v) ∷ m) key = if text_eq k key then some v else param m key

unfoldable pub param_exists : Dict → List ℕ → Bool
unfolding param
param_exists m key = elim (param m key) [ none ↦ false | some v ↦ true ]

-- `operator[]` leaves out the first character, the slash.
unfoldable pub param_value : Dict → List ℕ → Option (List ℕ)
unfolding param
param_value m key = param m key >>= λ v. some (drop 1 v)

unfoldable pub clear_params : Dict → Dict
clear_params m = []

pub data OperationType : Type 0 where
  get post put delete head options trace connect : OperationType

-- `str2type`: any other text is a GET.
unfoldable pub str2type : List ℕ → OperationType
unfolding text_eq
str2type type =
    if text_eq type (codes "DELETE")
    then delete
    else if text_eq type (codes "POST")
    then post
    else if text_eq type (codes "PUT")
    then put
    else if text_eq type (codes "HEAD")
    then head
    else if text_eq type (codes "OPTIONS")
    then options
    else if text_eq type (codes "TRACE")
    then trace
    else if text_eq type (codes "CONNECT")
    then connect
    else get

pub text_eq_refl : (xs : List ℕ) → text_eq xs xs ≡ true
unfolding text_eq
text_eq_refl [] = refl
text_eq_refl (a ∷ xs) = rw (text_eq_refl xs) (ground arith)

pub text_eq_sound : (xs ys : List ℕ) → text_eq xs ys ≡ true → xs ≡ ys
unfolding text_eq
text_eq_sound [] [] h = refl
text_eq_sound [] (b ∷ ys) h = cc
text_eq_sound (a ∷ xs) [] h = cc
text_eq_sound (a ∷ xs) (b ∷ ys) h = ground (arith, text_eq_sound xs ys)
