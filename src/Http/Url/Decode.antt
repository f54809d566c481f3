-- ===== src/Http/Url/Decode.antt =====
-- Decoding undoes percent-encoding.
use actor_network.Prelude.{
  List, Option, [], ap, arith, false, if◌then◌else◌, refl, some, ℕ, ◌*◌, ◌+◌, ◌-◌, ◌<◌, ◌==◌, ◌>>=◌,
  ◌∙◌, ◌∷◌, ◌≡◌, ◌≢◌, ◌≤◌, ◌⊎◌,
}
use actor_network.Http.Url.{hex_to_byte, hexstr_to_char, url_decode}

-- A hexadecimal digit, of either case, of a value below 16.
abbrev pub IsDigit : ℕ → ℕ → Type 0
IsDigit a n =
    (n < 10) × (a ≡ b'0' + n)
    ⊎ (9 < n) × (n < 16) × (a ≡ b'A' + (n - 10))
    ⊎ (9 < n) × (n < 16) × (a ≡ b'a' + (n - 10))

-- A character that stands for itself in a key or a value.
abbrev pub IsPlain : ℕ → Type 0
IsPlain c = (c ≢ b'%') × (c ≢ b'+') × (c ≢ b'=') × (c ≢ b'&')

-- The first text is one of those that encode the second, character by character: as itself, as a `+`
-- for a space, or as an escape with digits of either case.
pub data Encodes : List ℕ → List ℕ → Type 0 where
  ended : Encodes [] []
  plain : {cs bs : List ℕ} (c : ℕ) → IsPlain c → Encodes cs bs → Encodes (c ∷ cs) (c ∷ bs)
  space : {cs bs : List ℕ} → Encodes cs bs → Encodes (b'+' ∷ cs) (b' ' ∷ bs)
  escape :
      {cs bs : List ℕ} (a b hi lo : ℕ)
      → IsDigit a hi
      → IsDigit b lo
      → Encodes cs bs
      → Encodes (b'%' ∷ a ∷ b ∷ cs) ((hi * 16 + lo) ∷ bs)

hex_to_byte_digit : (a n : ℕ) → IsDigit a n → (hex_to_byte a ≡ n) × (n < 16)
unfolding hex_to_byte
hex_to_byte_digit a n h = ground (arith, h)

hexstr_to_char_lem :
    (a b hi lo : ℕ) → IsDigit a hi → IsDigit b lo → hexstr_to_char a b ≡ hi * 16 + lo
unfolding hexstr_to_char
hexstr_to_char_lem a b hi lo h k = omega (arith, hex_to_byte_digit a hi h, hex_to_byte_digit b lo k)

after_literal :
    (c : ℕ) (o : Option (List ℕ)) (bs : List ℕ)
    → o ≡ some bs
    → (o >>= λ out. some (c ∷ out)) ≡ some (c ∷ bs)
after_literal c o bs e = rw e refl

-- A character other than `%` is decoded before what follows it.
url_decode-cons :
    (c : ℕ) (cs bs : List ℕ)
    → (c == b'%') ≡ false
    → url_decode cs ≡ some bs
    → url_decode (c ∷ cs) ≡ some ((if c == b'+' then b' ' else c) ∷ bs)
unfolding url_decode
url_decode-cons c [] bs ne e = rw ne (after_literal _ _ bs e)
url_decode-cons c (a ∷ []) bs ne e = rw ne (after_literal _ _ bs e)
url_decode-cons c (a ∷ b ∷ cs) bs ne e = rw ne (after_literal _ _ bs e)

-- Text that is encoded is decoded to what it was, whatever bytes it has.
pub url_decode-Encodes : {cs bs : List ℕ} → Encodes cs bs → url_decode cs ≡ some bs
unfolding url_decode
url_decode-Encodes ended = refl
url_decode-Encodes (plain {cs} {bs} c h e) =
    let no_escape : (c == b'%') ≡ false = ground (arith, h) in
    let no_space : (c == b'+') ≡ false = ground (arith, h) in
    url_decode-cons c cs bs no_escape (url_decode-Encodes e)
    ∙ ap (λ b. some ((if b then b' ' else c) ∷ bs)) no_space
url_decode-Encodes (space {cs} {bs} e) = url_decode-cons b'+' cs bs refl (url_decode-Encodes e)
url_decode-Encodes (escape a b hi lo h k e) =
    rw (url_decode-Encodes e, hexstr_to_char_lem a b hi lo h k) refl

-- A letter behind F, of either case, is taken for a digit from 16 to 35.
pub hex_to_byte_letter :
    (c : ℕ)
    → (b'g' ≤ c) × (c ≤ b'z') ⊎ (b'G' ≤ c) × (c ≤ b'Z')
    → (15 < hex_to_byte c) × (hex_to_byte c < 36)
unfolding hex_to_byte
hex_to_byte_letter c h = ground arith
