-- ===== src/Http/Tests.antt =====
-- Urls and rules at concrete texts.
use actor_network.Prelude.{
  List, [], arith, codes, inl, inr, none, refl, some, ℕ, ◌++◌, ◌<◌, ◌∷◌, ◌≡◌,
}
use actor_network.Http.Common.{get, put, str2type}
use actor_network.Http.Match.{MatchRule, get_rule}
use actor_network.Http.Match.Rule.{Part, bind_all, bound, built, fixed, get_rule-url_of, url_of}
use actor_network.Http.Routes.{Routes, add_route, get_exact_match, get_handler, try_rules}
use actor_network.Http.Routes.Rules.{get_handler-add_route}
use actor_network.Http.Url.{set_query_param, url_decode}
use actor_network.Http.Url.Decode.{IsPlain, ended, escape, plain, space}
use actor_network.Http.Url.Query.{query_text, set_all, set_query_param-query_text}

decoded : url_decode (codes "a%20b+c") ≡ some (codes "a b c")
unfolding url_decode
decoded = refl

method : (str2type (codes "PUT") ≡ put) × (str2type (codes "PATCH") ≡ get)
unfolding str2type
method = (refl, refl)

letter-IsPlain : (c : ℕ) → b'@' < c → IsPlain c
letter-IsPlain c h = (omega arith, omega arith, omega arith, omega arith)

-- The query is `k+k=x%3d&x=`.
set_query_param-query_text_example :
    set_query_param
      (codes "/x" ++ b'?' ∷ query_text (codes "k+k", codes "x%3d") ((codes "x", []) ∷ []))
      []
    ≡ (codes "/x", set_all [] ((codes "k k", codes "x=") ∷ (codes "x", []) ∷ []))
set_query_param-query_text_example =
    set_query_param-query_text (codes "/x") (codes "k+k") (codes "x%3d") ((codes "x", []) ∷ [])
      (codes "k k") (codes "x=") ((codes "x", []) ∷ []) [] (omega arith)
      (
        plain b'k' (letter-IsPlain b'k' (omega arith))
            (space (plain b'k' (letter-IsPlain b'k' (omega arith)) ended)),
        plain b'x' (letter-IsPlain b'x' (omega arith)) (
            escape b'3' b'd' 3 13 (inl (omega arith, refl))
              (inr (inr (omega arith, omega arith, refl))) ended),
        (plain b'x' (letter-IsPlain b'x' (omega arith)) ended, ended, tt),
      )
      (omega arith)

abbrev seven : ℕ
seven = 7

abbrev file_parts : List Part
file_parts = bound (codes "path") (codes "etc") ∷ fixed (codes "raw") ∷ []

get_rule-url_of_example :
    get_rule
      (built seven
        (record { match_list = []; handler = seven })
        (fixed (codes "file") ∷ file_parts))
      (url_of (fixed (codes "file") ∷ file_parts))
      []
    ≡ (some seven, bind_all (fixed (codes "file") ∷ file_parts) [])
get_rule-url_of_example = get_rule-url_of seven (fixed (codes "file")) file_parts [] (omega arith)

abbrev key : List ℕ
key = codes "k"

abbrev no_routes : Routes ℕ
no_routes = record { map = λ op. []; rover = 5; rules = λ op. []; default_handler = none }

abbrev seven_rule : MatchRule ℕ
seven_rule = record { match_list = []; handler = seven }

get_handler-add_route_example :
    get_handler get (codes "/file/etc/hosts") [] (add_route get (codes "/file") key seven no_routes)
    ≡ (some seven, (key, codes "/etc/hosts") ∷ [])
unfolding get_exact_match try_rules
get_handler-add_route_example =
    get_handler-add_route get (codes "file") [] (codes "etc/hosts") b'k' seven no_routes
      (omega arith) tt refl refl
