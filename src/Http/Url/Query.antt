-- ===== src/Http/Url/Query.antt =====
-- The parameters of an encoded query come back.
use actor_network.Prelude.{
  Bool-cases, List, [], ap, arith, drop, drop-append, inl, inr, leb, leb→le, length, length-append,
  none, refl, some, some-injective, suc, sym, take, take-append_left, take_all, true, zero, ℕ, ◌%◌,
  ◌++◌, ◌+◌, ◌-◌, ◌<◌, ◌^◌, ◌∙◌, ◌∷◌, ◌≡◌, ◌≢◌, ◌≤◌, ◌⊎◌,
}
use actor_network.Http.Common.{Dict, set_param}
use actor_network.Http.Url.{add_param, find, query_loop, set_query_param, url_decode}
use actor_network.Http.Url.Decode.{Encodes, ended, escape, plain, space, url_decode-Encodes}

-- A key and a value as they are in a query, with `=` between the two, and `&` between the pairs.
abbrev pub pair_text : List ℕ × List ℕ → List ℕ
pair_text (kt, vt) = kt ++ b'=' ∷ vt

abbrev pub query_text : List ℕ × List ℕ → List (List ℕ × List ℕ) → List ℕ
query_text pt [] = pair_text pt
query_text pt (pt' ∷ texts) = pair_text pt ++ b'&' ∷ query_text pt' texts

-- The dictionary after all pairs are set, first to last.
abbrev pub set_all : Dict → Dict → Dict
set_all params [] = params
set_all params (kv ∷ rest) = set_all (kv ∷ params) rest

-- The texts encode the keys and values, pair by pair.
abbrev pub EncodesAll : List (List ℕ × List ℕ) → Dict → Type 0
EncodesAll [] [] = Unit
EncodesAll (pt ∷ texts) [] = ⊥
EncodesAll [] (kv ∷ rest) = ⊥
EncodesAll (pt ∷ texts) (kv ∷ rest) = Encodes pt.0 kv.0 × Encodes pt.1 kv.1 × EncodesAll texts rest

abbrev pub AllNe : ℕ → List ℕ → Type 0
AllNe c [] = Unit
AllNe c (x ∷ xs) = (x ≢ c) × AllNe c xs

AllNe-append : (c : ℕ) (xs ys : List ℕ) → AllNe c xs → AllNe c ys → AllNe c (xs ++ ys)
AllNe-append c [] ys h k = k
AllNe-append c (x ∷ xs) ys h k = (h.0, AllNe-append c xs ys h.1 k)

-- No encoded text has a `=` or a `&` in it.
AllNe-Encodes : {cs bs : List ℕ} (c : ℕ) → (c ≡ b'=') ⊎ (c ≡ b'&') → Encodes cs bs → AllNe c cs
AllNe-Encodes c e ended = tt
AllNe-Encodes c e (plain x h k) = (ground (arith, e, h), AllNe-Encodes c e k)
AllNe-Encodes c e (space k) = (ground (arith, e), AllNe-Encodes c e k)
AllNe-Encodes c e (escape a b hi lo h i k) =
    (ground (arith, e), (ground (arith, e, h), (ground (arith, e, i), AllNe-Encodes c e k)))

pub find-none : (c : ℕ) (xs : List ℕ) → AllNe c xs → find c xs ≡ none
unfolding find
find-none c [] h = refl
find-none c (x ∷ xs) h = rw (find-none c xs h.1) (ground (arith, h.0))

pub find-some : (c : ℕ) (xs ys : List ℕ) → AllNe c xs → find c (xs ++ c ∷ ys) ≡ some (length xs)
unfolding find
find-some c [] ys h = ground arith
find-some c (x ∷ xs) ys h = rw (find-some c xs ys h.1) (ground (arith, h.0))

pair_text-AllNe :
    {kt vt k v : List ℕ} → Encodes kt k → Encodes vt v → AllNe b'&' (pair_text (kt, vt))
pair_text-AllNe {kt} {vt} hk hv =
    AllNe-append b'&' kt (b'=' ∷ vt) (AllNe-Encodes b'&' (inr refl) hk)
      (omega arith, AllNe-Encodes b'&' (inr refl) hv)

take_front : (xs ys : List ℕ) → take (length xs) (xs ++ ys) ≡ xs
take_front xs ys = take-append_left (length xs) xs ys (omega arith) ∙ take_all xs

drop_behind : (c : ℕ) (xs ys : List ℕ) → drop (length xs + 1) (xs ++ c ∷ ys) ≡ ys
drop_behind c xs ys = drop-append 1 xs (c ∷ ys)

module _ (params : Dict) (kt vt k v : List ℕ) (hk : Encodes kt k) (hv : Encodes vt v)
    (fits : length (pair_text (kt, vt)) < 2 ^ 64) where
  key_decoded : url_decode (take (length kt) (pair_text (kt, vt))) ≡ some k
  key_decoded = ap url_decode (take_front kt (b'=' ∷ vt)) ∙ url_decode-Encodes hk

  value_decoded : url_decode (drop (length kt + 1) (pair_text (kt, vt))) ≡ some v
  value_decoded = ap url_decode (drop_behind b'=' kt vt) ∙ url_decode-Encodes hv

  no_value : leb ((length (pair_text (kt, vt)) + 2 ^ 64 - 1) % 2 ^ 64) (length kt) ≡ true → v ≡ []
  unfolding url_decode
  no_value e = empty_value vt v hv fits (leb→le _ _ e)
    where
      empty_value :
          (ut u : List ℕ)
          → Encodes ut u
          → length (pair_text (kt, ut)) < 2 ^ 64
          → (length (pair_text (kt, ut)) + 2 ^ 64 - 1) % 2 ^ 64 ≤ length kt
          → u ≡ []
      empty_value [] u h f l = sym (some-injective [] u (url_decode-Encodes h))
      empty_value (x ∷ ut) u h f l = absurd (omega (arith, length-append kt (b'=' ∷ x ∷ ut)))

  add_param-pair_text : add_param params (pair_text (kt, vt)) ≡ (k, v) ∷ params
  unfolding add_param set_param
  add_param-pair_text =
      let found = find-some b'=' kt vt (AllNe-Encodes b'=' (inl refl) hk) in
      elim (Bool-cases (leb ((length (pair_text (kt, vt)) + 2 ^ 64 - 1) % 2 ^ 64) (length kt))) [
        | inl e ↦ rw (found, e, key_decoded, no_value e) refl
        | inr e ↦ rw (found, e, key_decoded, found, value_decoded) refl
      ]

abbrev pub Fits : List ℕ × List ℕ → List (List ℕ × List ℕ) → Type 0
Fits pt texts = length (query_text pt texts) < 2 ^ 64

query_loop-set_all :
    (fuel : ℕ) (params : Dict) (kt vt : List ℕ) (texts : List (List ℕ × List ℕ)) (k v : List ℕ)
    (rest : Dict)
    → length texts ≤ fuel
    → EncodesAll ((kt, vt) ∷ texts) ((k, v) ∷ rest)
    → Fits (kt, vt) texts
    → query_loop fuel (query_text (kt, vt) texts) params ≡ set_all params ((k, v) ∷ rest)
unfolding query_loop
query_loop-set_all zero params kt vt [] k v [] le h fits =
    add_param-pair_text params kt vt k v h.0 h.1 fits
query_loop-set_all (suc fuel) params kt vt [] k v [] le h fits =
    rw (find-none b'&' (pair_text (kt, vt)) (pair_text-AllNe h.0 h.1), query_loop)
      (add_param-pair_text params kt vt k v h.0 h.1 fits)
query_loop-set_all fuel params kt vt [] k v (kv ∷ rest) le h fits = absurd h.2
query_loop-set_all fuel params kt vt (pt ∷ texts) k v [] le h fits = absurd h.2
query_loop-set_all zero params kt vt (pt ∷ texts) k v (kv ∷ rest) le h fits = elim le [ ]
query_loop-set_all (suc fuel) params kt vt ((kt', vt') ∷ texts) k v ((k', v') ∷ rest) le h fits =
    let found =
      find-some b'&' (pair_text (kt, vt)) (query_text (kt', vt') texts) (pair_text-AllNe h.0 h.1) in
    let split = length-append (pair_text (kt, vt)) (b'&' ∷ query_text (kt', vt') texts) in
    rw
      (
        found,
        query_loop,
        take_front (pair_text (kt, vt)) (b'&' ∷ query_text (kt', vt') texts),
        drop_behind b'&' (pair_text (kt, vt)) (query_text (kt', vt') texts),
        add_param-pair_text params kt vt k v h.0 h.1 (omega (arith, split)),
      )
      (query_loop-set_all fuel ((k, v) ∷ params) kt' vt' texts k' v' rest (omega arith) h.2
        (omega (arith, split)))

length-query_text :
    (pt : List ℕ × List ℕ) (texts : List (List ℕ × List ℕ))
    → length texts < length (query_text pt texts)
length-query_text (kt, vt) [] = omega (arith, length-append kt (b'=' ∷ vt))
length-query_text (kt, vt) ((kt', vt') ∷ texts) = omega (
  arith,
  length-append (pair_text (kt, vt)) (b'&' ∷ query_text (kt', vt') texts),
  length-query_text (kt', vt') texts,
)

-- A url made of a path without `?` and an encoded query gives back the path, and every pair of the
-- query set in the dictionary, in order. In the keys and values a character other than `%`, `+`, `=` and
-- `&` may stand for itself, a `+` for a space, and an escape with digits of either case for any byte;
-- empty keys and values are included. The query is shorter than 2 ^ 64.
pub set_query_param-query_text :
    (path kt vt : List ℕ) (texts : List (List ℕ × List ℕ)) (k v : List ℕ) (rest params : Dict)
    → AllNe b'?' path
    → EncodesAll ((kt, vt) ∷ texts) ((k, v) ∷ rest)
    → Fits (kt, vt) texts
    → set_query_param (path ++ b'?' ∷ query_text (kt, vt) texts) params
      ≡ (path, set_all params ((k, v) ∷ rest))
unfolding set_query_param
set_query_param-query_text path kt vt texts k v rest params free h fits =
    let url = path ++ b'?' ∷ query_text (kt, vt) texts in
    let found = find-some b'?' path (query_text (kt, vt) texts) free in
    let enough : length texts ≤ length (path ++ b'?' ∷ query_text (kt, vt) texts) = omega (
      arith,
      length-append path (b'?' ∷ query_text (kt, vt) texts),
      length-query_text (kt, vt) texts,
    ) in
    rw
      (
        found,
        set_query_param,
        take_front path (b'?' ∷ query_text (kt, vt) texts),
        drop_behind b'?' path (query_text (kt, vt) texts),
        query_loop-set_all (length url) params kt vt texts k v rest enough h fits,
      )
      refl
