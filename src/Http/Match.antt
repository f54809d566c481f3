-- ===== src/Http/Match.antt =====
-- `param_matcher` and `str_matcher` of src/http/matcher.cc, and `match_rule` of
-- include/nil/actor/http/matchrules.hh. Positions are below 2 ^ 64.
pub mod Rule
use actor_network.Prelude.{
  Bool, List, Option, [], drop, false, get_elem?, if◌then◌else◌, leb, length, none, some, take,
  true, ℕ, ◌%◌, ◌&&◌, ◌++◌, ◌+◌, ◌-◌, ◌==◌, ◌^◌, ◌||◌, ◌∷◌,
}
use actor_network.Http.Common.{Dict, set_param}
use actor_network.Http.Url.{find}

pub data Matcher : Type 0 where
  str_matcher : List ℕ → Matcher
  param_matcher : List ℕ → Bool → Matcher

pub is_prefix : List ℕ → List ℕ → Bool
is_prefix [] ys = true
is_prefix (x ∷ xs) [] = false
is_prefix (x ∷ xs) (y ∷ ys) = x == y && is_prefix xs ys

pub is_slash_at : List ℕ → ℕ → Bool
is_slash_at url i = elim (get_elem? url i) [ none ↦ false | some c ↦ c == b'/' ]

-- `find_end_param`.
pub find_end_param : List ℕ → ℕ → Bool → ℕ
find_end_param url ind entire_path =
    if entire_path
    then length url
    else elim (find b'/' (drop (ind + 1) url)) [ none ↦ length url | some i ↦ ind + 1 + i ]

-- `match`: the end of what is matched, or `npos`, and the parameters.
pub match : Matcher → List ℕ → ℕ → Dict → Option ℕ × Dict
unfolding is_prefix is_slash_at
match (param_matcher name entire_path) url ind params =
    let last = find_end_param url ind entire_path in
    if last == ind
    then (if entire_path then (some ind, set_param params name []) else (none, params))
    else (some last, set_param params name (take (last - ind) (drop ind url)))
match (str_matcher cmp) url ind params =
    let len = length cmp % 2 ^ 32 in
    if leb (len + ind) (length url)
      && (is_prefix cmp (drop ind url) && (length url == len + ind || is_slash_at url (len + ind)))
    then (some (len + ind), params)
    else (none, params)

pub record MatchRule {ℓ} (H : Type ℓ) : Type ℓ where
  pub match_list : List Matcher
  pub handler : H

module _ {ℓ} {H : Type ℓ} where
  pub add_str : MatchRule H → List ℕ → MatchRule H
  add_str r s = record r { match_list = r.match_list ++ str_matcher s ∷ [] }

  pub add_param_matcher : MatchRule H → List ℕ → Bool → MatchRule H
  add_param_matcher r name fullpath = record r {
    match_list = r.match_list ++ param_matcher name fullpath ∷ [];
  }

  -- The loop of `get`; a mismatch leaves it with the parameters set so far.
  pub get_loop : H → List Matcher → List ℕ → ℕ → Dict → Option H × Dict
  get_loop h [] url ind params = (if leb (length url) (ind + 1) then some h else none, params)
  get_loop h (m ∷ ms) url ind params =
      let (r, params') = match m url ind params in
      elim r [ none ↦ (none, params') | some last ↦ get_loop h ms url last params' ]

  -- `get`.
  pub get_rule : MatchRule H → List ℕ → Dict → Option H × Dict
  get_rule r url params = elim r.match_list [
    | [] ↦ (some r.handler, params)
    | m ∷ ms ↦ get_loop r.handler (m ∷ ms) url 0 params
  ]
