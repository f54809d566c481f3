-- ===== src/Http/Routes/Rules.antt =====
-- The rules of the routes: a cookie takes back the rule that it was given for, and a route with a
-- remainder parameter is found where nothing before it matches.
use actor_network.Prelude.{
  ==_iff, List, Option, [], ap, arith, false, length, ltb, none, refl, some, true, ℕ, ◌++◌, ◌<◌,
  ◌==◌, ◌^◌, ◌∙◌, ◌∷◌, ◌≡◌,
}
use actor_network.Http.Common.{Dict, OperationType, clear_params}
use actor_network.Http.Match.{MatchRule, add_param_matcher, add_str, get_rule}
use actor_network.Http.Match.Rule.{get_rule-remainder}
use actor_network.Http.Routes.{
  Routes, add_cookie, add_route, assign_rule, at_op, del_cookie, erase_rule, get_exact_match,
  get_handler, try_rules,
}
use actor_network.Http.Routes.Table.{at_op_cases, at_op_same}

module _ {ℓ} {H : Type ℓ} where
  -- Every cookie in use is below the next one.
  abbrev pub AllBelow : ℕ → List (ℕ × MatchRule H) → Type 0
  AllBelow n [] = Unit
  AllBelow n ((k, r) ∷ rest) = (k < n) × AllBelow n rest

  assign_rule_lem :
      (n : ℕ) (rule : MatchRule H) (m : List (ℕ × MatchRule H))
      → AllBelow n m
      → assign_rule n rule m ≡ m ++ (n, rule) ∷ []
  unfolding assign_rule
  assign_rule_lem n rule [] v = refl
  assign_rule_lem n rule ((k, r) ∷ rest) v =
      let above : ltb n k ≡ false = ground (arith, v.0) in
      let differs : (k == n) ≡ false = ground (arith, v.0) in
      rw (above, differs, assign_rule_lem n rule rest v.1) refl

  erase_rule_lem :
      (n : ℕ) (rule : MatchRule H) (m : List (ℕ × MatchRule H))
      → AllBelow n m
      → erase_rule n (m ++ (n, rule) ∷ []) ≡ (some rule, m)
  unfolding erase_rule
  erase_rule_lem n rule [] v = rw ((==_iff n n).1 refl) refl
  erase_rule_lem n rule ((k, r) ∷ rest) v =
      let differs : (k == n) ≡ false = ground (arith, v.0) in
      rw (differs, erase_rule_lem n rule rest v.1) refl

  try_rules_misses :
      (m : List (ℕ × MatchRule H)) (n : ℕ) (rule : MatchRule H) (url : List ℕ)
      → try_rules m url [] ≡ (none, [])
      → try_rules (m ++ (n, rule) ∷ []) url [] ≡ try_rules ((n, rule) ∷ []) url []
  unfolding try_rules clear_params
  try_rules_misses [] n rule url e = refl
  try_rules_misses ((k, r) ∷ rest) n rule url e =
      by_case (λ e'. try_rules_misses rest n rule url e') (get_rule r url []) e
    where
      by_case :
          (try_rules rest url [] ≡ (none, [])
            → try_rules (rest ++ (n, rule) ∷ []) url [] ≡ try_rules ((n, rule) ∷ []) url [])
          → (found : Option H × Dict)
          → elim found.0 [ none ↦ try_rules rest url [] | some h ↦ (some h, found.1) ] ≡ (none, [])
          → elim found.0 [
            | none ↦ try_rules (rest ++ (n, rule) ∷ []) url []
            | some h ↦ (some h, found.1)
          ]
            ≡ try_rules ((n, rule) ∷ []) url []
      by_case further (none, params) e' = further e'
      by_case further (some h, params) e' = cc

  -- `del_cookie` gives back the rule that `add_cookie` gave the cookie for, and leaves the rules of
  -- every method as they were. The cookies in use are below the next one.
  pub del_cookie-add_cookie :
      (rule : MatchRule H) (op : OperationType) (rs : Routes H)
      → AllBelow rs.rover (rs.rules op)
      → ((del_cookie (add_cookie rule op rs).1 op (add_cookie rule op rs).0).0 ≡ some rule)
        × ((other : OperationType)
            → (del_cookie (add_cookie rule op rs).1 op (add_cookie rule op rs).0).1.rules other
              ≡ rs.rules other)
  unfolding del_cookie add_cookie
  del_cookie-add_cookie rule op rs v = (
    ap (λ r. r.0) erased,
    λ other.
        at_op_cases (λ o m. m ≡ rs.rules o) op (erase_rule rs.rover added).1
          (at_op op (assign_rule rs.rover rule (rs.rules op)) rs.rules) (ap (λ r. r.1) erased)
          (λ o e. rw e refl) other,
  )
    where
      added : List (ℕ × MatchRule H)
      added = at_op op (assign_rule rs.rover rule (rs.rules op)) rs.rules op

      erased : erase_rule rs.rover added ≡ (some rule, rs.rules op)
      erased =
          rw
            (
              at_op_same op (assign_rule rs.rover rule (rs.rules op)) rs.rules,
              assign_rule_lem rs.rover rule (rs.rules op) v,
            )
            (erase_rule_lem rs.rover rule (rs.rules op) v)

  -- A url with the path of an added route and something behind it is handled by that route, and its
  -- parameter is all that is behind the path, the slash included. No handler is put for this url and
  -- no older rule of the method matches it; the path is shorter than 2 ^ 32, and the cookies in use
  -- are below the next one.
  pub get_handler-add_route :
      (op : OperationType) (path name rest : List ℕ) (c : ℕ) (h : H) (rs : Routes H)
      → length (b'/' ∷ path) < 2 ^ 32
      → AllBelow rs.rover (rs.rules op)
      → get_exact_match op (b'/' ∷ (path ++ b'/' ∷ rest)) rs ≡ none
      → try_rules (rs.rules op) (b'/' ∷ (path ++ b'/' ∷ rest)) [] ≡ (none, [])
      → get_handler op
          (b'/' ∷ (path ++ b'/' ∷ rest))
          []
          (add_route op (b'/' ∷ path) (c ∷ name) h rs)
        ≡ (some h, (c ∷ name, b'/' ∷ rest) ∷ [])
  unfolding get_handler add_route add_cookie get_exact_match try_rules
  get_handler-add_route op path name rest c h rs small v free misses =
      rw (get_handler, free, searched) refl
    where
      url : List ℕ
      url = b'/' ∷ (path ++ b'/' ∷ rest)

      rule : MatchRule H
      rule =
          add_param_matcher (add_str (record { match_list = []; handler = h }) (b'/' ∷ path))
            (c ∷ name) true

      tried : try_rules ((rs.rover, rule) ∷ []) url [] ≡ (some h, (c ∷ name, b'/' ∷ rest) ∷ [])
      tried =
          ap {A = Option H × Dict} {B = Option H × Dict}
            (λ r. elim r.0 [ none ↦ (none, clear_params r.1) | some h' ↦ (some h', r.1) ])
            (get_rule-remainder h path (c ∷ name) rest small)

      added :
          (add_route op (b'/' ∷ path) (c ∷ name) h rs).rules op
          ≡ rs.rules op ++ (rs.rover, rule) ∷ []
      added =
          at_op_same op (assign_rule rs.rover rule (rs.rules op)) rs.rules
          ∙ assign_rule_lem rs.rover rule (rs.rules op) v

      searched :
          try_rules ((add_route op (b'/' ∷ path) (c ∷ name) h rs).rules op) url []
          ≡ (some h, (c ∷ name, b'/' ∷ rest) ∷ [])
      searched =
          ap (λ m. try_rules m url []) added
          ∙ try_rules_misses (rs.rules op) rs.rover rule url misses
          ∙ tried
