-- ===== src/Http/Routes.antt =====
-- `routes` of include/nil/actor/http/routes.hh and src/http/routes.cc: the table of exact urls and
-- the rules of each method. A handler is any type; a null pointer is `none`. The hash map is a list of
-- its entries, the map of the rules the list of them in the order of their cookies. The exception
-- handlers and the call of the handler that was found are not modelled.
pub mod Table
pub mod Rules
use actor_network.Prelude.{
  Bool, List, Option, [], false, if◌then◌else◌, length, ltb, none, not, some, take, true, ℕ, ◌%◌,
  ◌+◌, ◌-◌, ◌==◌, ◌^◌, ◌||◌, ◌∷◌,
}
use actor_network.Http.Common.{
  Dict, OperationType, clear_params, connect, delete, get, head, options, post, put, text_eq, trace,
}
use actor_network.Http.Match.{MatchRule, add_param_matcher, add_str, get_rule, is_slash_at}

unfoldable pub op_index : OperationType → ℕ
op_index get = 0
op_index post = 1
op_index put = 2
op_index delete = 3
op_index head = 4
op_index options = 5
op_index trace = 6
op_index connect = 7

-- An array with a place for each method, and `a[op] = v`.
abbrev pub at_op {ℓ} : {A : Type ℓ} → OperationType → A → (OperationType → A) → OperationType → A
at_op op v a other = if op_index op == op_index other then v else a other

pub record Routes {ℓ} (H : Type ℓ) : Type ℓ where
  pub map : OperationType → List (List ℕ × H)
  pub rover : ℕ
  pub rules : OperationType → List (ℕ × MatchRule H)
  pub default_handler : Option H

-- `normalize_url` takes a slash off the end, unless it is all there is.
unfoldable pub normalize_url : List ℕ → List ℕ
normalize_url url =
    if ltb (length url) 2 || not (is_slash_at url (length url - 1))
    then url
    else take (length url - 1) url

abbrev is_empty : List ℕ → Bool
is_empty [] = true
is_empty (c ∷ cs) = false

module _ {ℓ} {H : Type ℓ} where
  unfoldable pub lookup : List (List ℕ × H) → List ℕ → Option H
  lookup [] url = none
  lookup ((k, h) ∷ m) url = if text_eq k url then some h else lookup m url

  unfoldable pub erase : List (List ℕ × H) → List ℕ → List (List ℕ × H)
  erase [] url = []
  erase ((k, h) ∷ m) url = let rest = erase m url in if text_eq k url then rest else (k, h) ∷ rest

  unfoldable pub get_exact_match : OperationType → List ℕ → Routes H → Option H
  unfolding lookup
  get_exact_match op url rs = lookup (rs.map op) url

  -- The loop of `get_handler`: each rule that does not match leaves no parameter behind.
  unfoldable pub try_rules : List (ℕ × MatchRule H) → List ℕ → Dict → Option H × Dict
  try_rules [] url params = (none, params)
  try_rules ((cookie, rule) ∷ rest) url params =
      let (found, params') = get_rule rule url params in
      let later = try_rules rest url (clear_params params') in
      elim found [ none ↦ later | some h ↦ (some h, params') ]

  abbrev pub or_default : Option H → Option H × Dict → Option H × Dict
  or_default d (none, params) = (d, params)
  or_default d (some h, params) = (some h, params)

  unfoldable pub get_handler : OperationType → List ℕ → Dict → Routes H → Option H × Dict
  unfolding get_exact_match try_rules
  get_handler op url params rs = elim (get_exact_match op url rs) [
    | some h ↦ (some h, params)
    | none ↦ or_default rs.default_handler (try_rules (rs.rules op) url params)
  ]

  -- `put`, which throws when the url has a handler.
  unfoldable pub put_handler : OperationType → List ℕ → H → Routes H → Option (Routes H)
  unfolding lookup
  put_handler op url h rs = elim (lookup (rs.map op) url) [
    | some old ↦ none
    | none ↦ some (record rs { map = at_op op ((url, h) ∷ rs.map op) rs.map })
  ]

  -- `drop`: the handler that was there, and the table without it.
  unfoldable pub drop_handler : OperationType → List ℕ → Routes H → Option H × Routes H
  unfolding lookup erase
  drop_handler op url rs =
      (lookup (rs.map op) url, record rs { map = at_op op (erase (rs.map op) url) rs.map })

  unfoldable pub add_default_handler : H → Routes H → Routes H
  add_default_handler h rs = record rs { default_handler = some h }

  -- `_rules[type][pos] = rule`, in the order of the cookies.
  unfoldable pub assign_rule : ℕ → MatchRule H → List (ℕ × MatchRule H) → List (ℕ × MatchRule H)
  assign_rule pos rule [] = (pos, rule) ∷ []
  assign_rule pos rule ((k, r) ∷ rest) =
      let further = assign_rule pos rule rest in
      if ltb pos k
      then (pos, rule) ∷ (k, r) ∷ rest
      else if k == pos
      then (k, rule) ∷ rest
      else (k, r) ∷ further

  -- `add_cookie`: the routes, and the cookie of the rule.
  unfoldable pub add_cookie : MatchRule H → OperationType → Routes H → Routes H × ℕ
  unfolding assign_rule
  add_cookie rule op rs = (
    record rs {
      rover = (rs.rover + 1) % 2 ^ 64;
      rules = at_op op (assign_rule rs.rover rule (rs.rules op)) rs.rules;
    },
    rs.rover,
  )

  unfoldable pub erase_rule :
      ℕ → List (ℕ × MatchRule H) → Option (MatchRule H) × List (ℕ × MatchRule H)
  erase_rule cookie [] = (none, [])
  erase_rule cookie ((k, r) ∷ rest) =
      let (found, left) = erase_rule cookie rest in
      if k == cookie then (some r, rest) else (found, (k, r) ∷ left)

  -- `del_cookie`: the rule that was there, and the routes without it.
  unfoldable pub del_cookie : ℕ → OperationType → Routes H → Option (MatchRule H) × Routes H
  unfolding erase_rule
  del_cookie cookie op rs =
      let (found, left) = erase_rule cookie (rs.rules op) in
      (found, record rs { rules = at_op op left rs.rules })

  -- `add(type, url, handler)`, for a path with the parameter that takes what follows it.
  unfoldable pub add_route : OperationType → List ℕ → List ℕ → H → Routes H → Routes H
  unfolding add_cookie
  add_route op path name h rs =
      let rule = add_str (record { match_list = []; handler = h }) path in
      (add_cookie (if is_empty name then rule else add_param_matcher rule name true) op rs).0
