-- ===== src/Http/Match/Rule.antt =====
-- A url that is built from a rule is matched by it, and its parameters are found.
use native.Mathlib.Nat.{mod-eq_of_lt}
use actor_network.Prelude.{
  List, Option, [], ap, append-nil, append_assoc, arith, drop, drop-append, drop-append_left,
  drop_all, false, leb, length, length-append, le→leb, map, none, refl, some, subst, suc, sym, take,
  take-append_left, take_all, true, ℕ, ◌++◌, ◌+◌, ◌-◌, ◌<◌, ◌==◌, ◌^◌, ◌||◌, ◌∙◌, ◌∷◌, ◌≡◌,
}
use actor_network.Http.Common.{Dict, set_param}
use actor_network.Http.Match.{
  MatchRule, Matcher, add_param_matcher, add_str, find_end_param, get_loop, get_rule, is_prefix,
  is_slash_at, match, param_matcher, str_matcher,
}
use actor_network.Http.Url.{find}
use actor_network.Http.Url.Query.{AllNe, find-none, find-some}

-- A rule's parts with what they stand for in a url: a fixed text, or a value of a parameter. Each
-- begins with a slash, which is not written here.
pub data Part : Type 0 where
  fixed : List ℕ → Part
  bound : List ℕ → List ℕ → Part

abbrev pub matcher_of : Part → Matcher
matcher_of (fixed s) = str_matcher (b'/' ∷ s)
matcher_of (bound name v) = param_matcher name false

abbrev pub part_text : Part → List ℕ
part_text (fixed s) = b'/' ∷ s
part_text (bound name v) = b'/' ∷ v

abbrev pub url_of : List Part → List ℕ
url_of [] = []
url_of (p ∷ ps) = part_text p ++ url_of ps

abbrev pub bind : Part → Dict → Dict
bind (fixed s) params = params
bind (bound name v) params = (name, b'/' ∷ v) ∷ params

abbrev pub bind_all : List Part → Dict → Dict
bind_all [] params = params
bind_all (p ∷ ps) params = bind_all ps (bind p params)

-- A value has no slash, and a fixed text is shorter than 2 ^ 32.
abbrev pub IsPart : Part → Type 0
IsPart (fixed s) = length (b'/' ∷ s) < 2 ^ 32
IsPart (bound name v) = AllNe b'/' v

abbrev pub AllParts : List Part → Type 0
AllParts [] = Unit
AllParts (p ∷ ps) = IsPart p × AllParts ps

is_prefix-append : (xs ys : List ℕ) → is_prefix xs (xs ++ ys) ≡ true
unfolding is_prefix
is_prefix-append [] ys = refl
is_prefix-append (x ∷ xs) ys = rw (is_prefix-append xs ys) (ground arith)

drop_front : (xs ys : List ℕ) → drop (length xs) (xs ++ ys) ≡ ys
drop_front xs ys =
    drop-append_left (length xs) xs ys (omega arith) ∙ ap (λ l. l ++ ys) (drop_all xs)

is_slash_at_cons : (c : ℕ) (xs : List ℕ) (i : ℕ) → is_slash_at (c ∷ xs) (suc i) ≡ is_slash_at xs i
unfolding is_slash_at
is_slash_at_cons c xs i = refl

-- Behind a text the url ends, or goes on with a slash.
ends_or_slash :
    (xs : List ℕ) (ps : List Part)
    → (length (xs ++ url_of ps) == length xs || is_slash_at (xs ++ url_of ps) (length xs)) ≡ true
unfolding is_slash_at
ends_or_slash [] [] = refl
ends_or_slash [] (fixed s ∷ ps) = ground arith
ends_or_slash [] (bound name v ∷ ps) = ground arith
ends_or_slash (x ∷ xs) ps = ground (arith, ends_or_slash xs ps)

match-fixed :
    (before s : List ℕ) (ps : List Part) (params : Dict)
    → length (b'/' ∷ s) < 2 ^ 32
    → match (str_matcher (b'/' ∷ s)) (before ++ ((b'/' ∷ s) ++ url_of ps)) (length before) params
      ≡ (some (length (before ++ b'/' ∷ s)), params)
unfolding match
match-fixed before s ps params small =
    let text = b'/' ∷ s in
    let url = before ++ (text ++ url_of ps) in
    let whole : length (before ++ text) ≡ length text + length before =
      omega (arith, length-append before text) in
    let fits : leb (length text + length before) (length url) ≡ true =
      le→leb _ _
        (omega (arith, length-append before (text ++ url_of ps), length-append text (url_of ps))) in
    let starts : is_prefix text (drop (length before) url) ≡ true =
      ap (is_prefix text) (drop_front before (text ++ url_of ps))
      ∙ is_prefix-append text (url_of ps) in
    let ends : (length url == length text + length before
          || is_slash_at url (length text + length before))
        ≡ true =
      subst (λ n. (length url == n || is_slash_at url n) ≡ true) whole
        (subst
          (λ l.
            (length l == length (before ++ text) || is_slash_at l (length (before ++ text))) ≡ true)
          (append_assoc before text (url_of ps)) (ends_or_slash (before ++ text) ps)) in
    rw (mod-eq_of_lt small, fits, starts, ends, whole) refl

find_end_param-bound :
    (before v : List ℕ) (ps : List Part)
    → AllNe b'/' v
    → find_end_param (before ++ ((b'/' ∷ v) ++ url_of ps)) (length before) false
      ≡ length (before ++ b'/' ∷ v)
unfolding find_end_param
find_end_param-bound before v ps free =
    let behind : drop (length before + 1) (before ++ (b'/' ∷ (v ++ url_of ps))) ≡ v ++ url_of ps =
      drop-append 1 before (b'/' ∷ (v ++ url_of ps)) in
    rw behind (at_end ps)
  where
    at_end :
        (qs : List Part)
        → elim (find b'/' (v ++ url_of qs)) [
          | none ↦ length (before ++ (b'/' ∷ (v ++ url_of qs)))
          | some i ↦ length before + 1 + i
        ]
          ≡ length (before ++ b'/' ∷ v)
    at_end [] = rw (append-nil v, find-none b'/' v free, append-nil v) refl
    at_end (fixed s ∷ qs) =
        rw (find-some b'/' v (s ++ url_of qs) free) (omega (arith, length-append before (b'/' ∷ v)))
    at_end (bound name u ∷ qs) =
        rw (find-some b'/' v (u ++ url_of qs) free) (omega (arith, length-append before (b'/' ∷ v)))

match-bound :
    (before name v : List ℕ) (ps : List Part) (params : Dict)
    → AllNe b'/' v
    → match (param_matcher name false) (before ++ ((b'/' ∷ v) ++ url_of ps)) (length before) params
      ≡ (some (length (before ++ b'/' ∷ v)), (name, b'/' ∷ v) ∷ params)
unfolding match set_param
match-bound before name v ps params free =
    let text = b'/' ∷ v in
    let moved : (length (before ++ text) == length before) ≡ false =
      ground (arith, length-append before text) in
    let number : length (before ++ text) - length before ≡ length text =
      omega (arith, length-append before text) in
    let taken : take (length text) (text ++ url_of ps) ≡ text =
      take-append_left (length text) text (url_of ps) (omega arith) ∙ take_all text in
    rw
      (
        find_end_param-bound before v ps free,
        moved,
        number,
        drop_front before (text ++ url_of ps),
        taken,
      )
      refl

-- A parameter of the entire path takes all that is left.
match-remainder :
    (before name rest : List ℕ) (params : Dict)
    → match (param_matcher name true) (before ++ b'/' ∷ rest) (length before) params
      ≡ (some (length (before ++ b'/' ∷ rest)), (name, b'/' ∷ rest) ∷ params)
unfolding match find_end_param set_param
match-remainder before name rest params =
    let text = b'/' ∷ rest in
    let moved : (length (before ++ text) == length before) ≡ false =
      ground (arith, length-append before text) in
    let number : length (before ++ text) - length before ≡ length text =
      omega (arith, length-append before text) in
    rw (moved, number, drop_front before text, take_all text) refl

module _ {ℓ} {H : Type ℓ} (h : H) where
  get_loop_step :
      (m : Matcher) (ms : List Matcher) (url : List ℕ) (ind last : ℕ) (params params' : Dict)
      → match m url ind params ≡ (some last, params')
      → get_loop h (m ∷ ms) url ind params ≡ get_loop h ms url last params'
  unfolding get_loop
  get_loop_step m ms url ind last params params' e =
      ap {A = Option ℕ × Dict} {B = Option H × Dict}
        (λ r. elim r.0 [ none ↦ (none, r.1) | some last ↦ get_loop h ms url last r.1 ]) e

  get_loop-url_of :
      (before : List ℕ) (ps : List Part) (params : Dict)
      → AllParts ps
      → get_loop h (map matcher_of ps) (before ++ url_of ps) (length before) params
        ≡ (some h, bind_all ps params)
  unfolding get_loop
  get_loop-url_of before [] params v =
      rw (append-nil before, le→leb (length before) (length before + 1) (omega arith)) refl
  get_loop-url_of before (fixed s ∷ ps) params v =
      let text = b'/' ∷ s in
      get_loop_step (str_matcher text) (map matcher_of ps) (before ++ (text ++ url_of ps))
        (length before) (length (before ++ text)) params params (match-fixed before s ps params v.0)
      ∙ rw (← append_assoc before text (url_of ps)) (get_loop-url_of (before ++ text) ps params v.1)
  get_loop-url_of before (bound name u ∷ ps) params v =
      let text = b'/' ∷ u in
      get_loop_step (param_matcher name false) (map matcher_of ps) (before ++ (text ++ url_of ps))
        (length before) (length (before ++ text)) params ((name, text) ∷ params)
        (match-bound before name u ps params v.0)
      ∙ rw (← append_assoc before text (url_of ps))
          (get_loop-url_of (before ++ text) ps ((name, text) ∷ params) v.1)

  -- The rule that `add_str` and `add_param` build from `r`, with a slash before each text.
  pub built : MatchRule H → List Part → MatchRule H
  built r [] = r
  built r (fixed s ∷ ps) = built (add_str r (b'/' ∷ s)) ps
  built r (bound name v ∷ ps) = built (add_param_matcher r name false) ps

  built_lem :
      (r : MatchRule H) (ps : List Part)
      → built r ps ≡ record { match_list = r.match_list ++ map matcher_of ps; handler = r.handler }
  unfolding built add_str add_param_matcher
  built_lem r [] =
      ap (λ ms. record { match_list = ms; handler = r.handler }) (sym (append-nil r.match_list))
  built_lem r (fixed s ∷ ps) =
      built_lem (add_str r (b'/' ∷ s)) ps
      ∙ ap (λ ms. record { match_list = ms; handler = r.handler })
          (append_assoc r.match_list (str_matcher (b'/' ∷ s) ∷ []) (map matcher_of ps))
  built_lem r (bound name v ∷ ps) =
      built_lem (add_param_matcher r name false) ps
      ∙ ap (λ ms. record { match_list = ms; handler = r.handler })
          (append_assoc r.match_list (param_matcher name false ∷ []) (map matcher_of ps))

  -- A rule built by `add_str` and `add_param` from fixed texts and parameters of one path component,
  -- each with its slash, matches every url that has these texts and any values without a slash in
  -- their order, and sets each parameter to its value with the slash. A fixed text is shorter than
  -- 2 ^ 32, and there is a part at least.
  pub get_rule-url_of :
      (p : Part) (ps : List Part) (params : Dict)
      → AllParts (p ∷ ps)
      → get_rule (built (record { match_list = []; handler = h }) (p ∷ ps)) (url_of (p ∷ ps)) params
        ≡ (some h, bind_all (p ∷ ps) params)
  unfolding get_rule
  get_rule-url_of p ps params v =
      ap (λ r. get_rule r (url_of (p ∷ ps)) params)
        (built_lem (record { match_list = []; handler = h }) (p ∷ ps))
      ∙ get_loop-url_of [] (p ∷ ps) params v

  pub get_rule-remainder :
      (path name rest : List ℕ)
      → length (b'/' ∷ path) < 2 ^ 32
      → get_rule
          (add_param_matcher
            (add_str (record { match_list = []; handler = h }) (b'/' ∷ path))
            name
            true)
          (b'/' ∷ (path ++ b'/' ∷ rest))
          []
        ≡ (some h, (name, b'/' ∷ rest) ∷ [])
  unfolding get_rule get_loop add_str add_param_matcher
  get_rule-remainder path name rest small =
      let text = b'/' ∷ path in
      let url = text ++ b'/' ∷ rest in
      get_loop_step (str_matcher text) (param_matcher name true ∷ []) url 0 (length text) [] [] (
        subst (λ l. match (str_matcher text) (text ++ b'/' ∷ l) 0 [] ≡ (some (length text), []))
          (append-nil rest) (match-fixed [] path (fixed rest ∷ []) [] small))
      ∙ get_loop_step (param_matcher name true) [] url (length text) (length url) []
          ((name, b'/' ∷ rest) ∷ []) (match-remainder text name rest [])
      ∙ rw (le→leb (length url) (length url + 1) (omega arith)) refl
