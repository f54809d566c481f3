-- ===== src/Http/Url.antt =====
-- `url_decode`, `hex_to_byte`, `hexstr_to_char`, `add_param` and `set_query_param` of
-- src/http/httpd.cc. A `char` is its byte; what is computed with it is cut to a byte again by
-- `hexstr_to_char`.
pub mod Decode
pub mod Query
use actor_network.Prelude.{
  List, Option, [], drop, if◌then◌else◌, leb, length, none, some, suc, take, zero, ℕ, ◌%◌, ◌&&◌,
  ◌*◌, ◌+◌, ◌-◌, ◌==◌, ◌>>=◌, ◌^◌, ◌∷◌,
}
use actor_network.Http.Common.{Dict, set_param}

unfoldable pub hex_to_byte : ℕ → ℕ
hex_to_byte c =
    if leb b'a' c && leb c b'z'
    then c - b'a' + 10
    else if leb b'A' c && leb c b'Z'
    then c - b'A' + 10
    else (c + 2 ^ 8 - b'0') % 2 ^ 8

unfoldable pub hexstr_to_char : ℕ → ℕ → ℕ
unfolding hex_to_byte
hexstr_to_char a b = (hex_to_byte a * 16 + hex_to_byte b) % 2 ^ 8

-- `url_decode`: `none` is the result `false`.
unfoldable pub url_decode : List ℕ → Option (List ℕ)
unfolding hexstr_to_char
url_decode [] = some []
url_decode (c ∷ []) = if c == b'%' then none else some ((if c == b'+' then b' ' else c) ∷ [])
url_decode (c ∷ a ∷ []) =
    let rest = url_decode (a ∷ []) in
    if c == b'%' then none else (rest >>= λ out. some ((if c == b'+' then b' ' else c) ∷ out))
url_decode (c ∷ a ∷ b ∷ in') =
    let escaped = url_decode in' >>= λ out. some (hexstr_to_char a b ∷ out) in
    let plain = url_decode (a ∷ b ∷ in') >>= λ out. some ((if c == b'+' then b' ' else c) ∷ out) in
    if c == b'%' then escaped else plain

-- `find(c, 0)`; `none` is `npos`.
pub find : ℕ → List ℕ → Option ℕ
find c [] = none
find c (x ∷ xs) = if x == c then some 0 else (find c xs >>= λ i. some (i + 1))

abbrev npos : ℕ
npos = 2 ^ 64 - 1

abbrev position : Option ℕ → ℕ
position none = npos
position (some i) = i

-- `add_param`, on the request's query parameters.
pub add_param : Dict → List ℕ → Dict
unfolding url_decode find set_param
add_param params text =
    let split = position (find b'=' text) in
    if leb ((length text + 2 ^ 64 - 1) % 2 ^ 64) split
    then elim (url_decode (take split text)) [ none ↦ params | some key ↦ set_param params key [] ]
    else elim (url_decode (take split text)) [
      | none ↦ params
      | some key ↦ elim (url_decode (drop (split + 1) text)) [
        | none ↦ params
        | some value ↦ set_param params key value
      ]
    ]

-- The loop over the parts between `&`; the fuel is a bound on their number.
pub query_loop : ℕ → List ℕ → Dict → Dict
query_loop zero rest params = add_param params rest
query_loop (suc fuel) rest params = elim (find b'&' rest) [
  | none ↦ add_param params rest
  | some i ↦ query_loop fuel (drop (i + 1) rest) (add_param params (take i rest))
]

-- `set_query_param`: the path of the url, and the parameters.
pub set_query_param : List ℕ → Dict → List ℕ × Dict
set_query_param url params = elim (find b'?' url) [
  | none ↦ (url, params)
  | some pos ↦ (take pos url, query_loop (length url) (drop (pos + 1) url) params)
]
