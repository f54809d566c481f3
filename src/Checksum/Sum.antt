-- ===== src/Checksum/Sum.antt =====
-- The wide sums agree with the sum of 16-bit words, up to end-around carries.
use actor_network.Prelude.{
  Bool, List, Returns, Returns-bind, Returns_map, [], ap, arith, false, none, not, refl, sym, true,
  ℕ, ◌%◌, ◌*◌, ◌++◌, ◌+◌, ◌/◌, ◌<◌, ◌^◌, ◌∙◌, ◌∷◌, ◌≡◌, ◌≢◌,
}
use actor_network.Checksum.{
  Checksummer, flips, fresh, sum, sum16, sum32, sum8, sum_at, sum_even, sum_packet, sum_words,
  word64, xor,
}

-- The sum of 16-bit big-endian words as RFC 1071 defines it, byte by byte; the flag tells that the
-- next byte is the low one of its word.
abbrev pub word_sum : Bool → List ℕ → ℕ
word_sum odd [] = 0
word_sum false (b ∷ bs) = b * 256 + word_sum true bs
word_sum true (b ∷ bs) = b + word_sum false bs

-- Equal up to end-around carries.
infix 4 ◌≈◌
abbrev pub ◌≈◌ : ℕ → ℕ → Type 0
a ≈ b = a % 65535 ≡ b % 65535

sum_words_lem : (bytes : List ℕ) (acc : ℕ) → sum_words bytes acc ≡ acc + word_sum false bytes
unfolding sum_words
sum_words_lem [] acc = omega arith
sum_words_lem (a ∷ []) acc = omega arith
sum_words_lem (a ∷ b ∷ rest) acc = omega (arith, sum_words_lem rest (acc + (a * 2 ^ 8 + b)))

word64_carry :
    (acc a b c d e f g h : ℕ)
    → acc + word64 a b c d e f g h
      ≈ acc + (a * 256 + (b + (c * 256 + (d + (e * 256 + (f + (g * 256 + h)))))))
word64_carry acc a b c d e f g h = omega arith

≈_add : (a b n : ℕ) → a ≈ b → a + n ≈ b + n
≈_add a b n h = omega arith

sum_even_lem : (bytes : List ℕ) (acc : ℕ) → sum_even bytes acc ≈ acc + word_sum false bytes
unfolding sum_even
sum_even_lem [] acc = omega arith
sum_even_lem (a ∷ b ∷ c ∷ d ∷ e ∷ f ∷ g ∷ h ∷ rest) acc = omega (
  arith,
  sum_even_lem rest (acc + word64 a b c d e f g h),
  ≈_add _ _ (word_sum false rest) (word64_carry acc a b c d e f g h),
)
sum_even_lem bytes acc = omega arith

-- What is added to a state by bytes.
pub record IsSummed (bytes : List ℕ) (c c' : Checksummer) : Type 0 where
  pub sum_is : c'.csum ≈ c.csum + word_sum c.odd bytes
  pub odd_is : c'.odd ≡ xor c.odd (flips bytes)

sum_at_lem :
    (odd : Bool) (bytes : List ℕ) (acc : ℕ)
    → bytes ≢ []
    → Returns (sum_at odd bytes acc) (λ r. r ≈ acc + word_sum odd bytes)
sum_at_lem true [] acc h = absurd (h refl)
sum_at_lem true (b ∷ rest) acc h = omega (arith, sum_even_lem rest (acc + b))
sum_at_lem false bytes acc h = sum_even_lem bytes acc

-- Bytes, though not none at all, are added as 16-bit words from the position on that the earlier ones
-- left.
pub sum-IsSummed :
    (bytes : List ℕ) (c : Checksummer) → bytes ≢ [] → Returns (sum bytes c) (IsSummed bytes c)
unfolding sum
sum-IsSummed bytes c h =
    Returns-bind (λ r. r ≈ c.csum + word_sum c.odd bytes) _ (sum_at c.odd bytes c.csum) _
      (sum_at_lem c.odd bytes c.csum h) (λ r e. record { sum_is = e; odd_is = refl })

abbrev pub flatten : List (List ℕ) → List ℕ
flatten [] = []
flatten (f ∷ fs) = f ++ flatten fs

abbrev pub AllNonempty : List (List ℕ) → Type 0
AllNonempty [] = Unit
AllNonempty (f ∷ fs) = (f ≢ []) × AllNonempty fs

flips_cons : (b : ℕ) (bs : List ℕ) → flips (b ∷ bs) ≡ not (flips bs)
flips_cons b bs = ground arith

xor-not : (a b : Bool) → xor a (not b) ≡ xor (not a) b
xor-not true true = refl
xor-not true false = refl
xor-not false true = refl
xor-not false false = refl

xor_assoc : (a b c : Bool) → xor (xor a b) c ≡ xor a (xor b c)
xor_assoc true true c = ground arith
xor_assoc true false c = ground arith
xor_assoc false b c = refl

word_sum-append :
    (odd : Bool) (xs ys : List ℕ)
    → word_sum odd (xs ++ ys) ≡ word_sum odd xs + word_sum (xor odd (flips xs)) ys
word_sum-append true [] ys = omega arith
word_sum-append false [] ys = omega arith
word_sum-append true (x ∷ xs) ys =
    rw (flips_cons x xs, xor-not true (flips xs)) (omega (arith, word_sum-append false xs ys))
word_sum-append false (x ∷ xs) ys =
    rw (flips_cons x xs, xor-not false (flips xs)) (omega (arith, word_sum-append true xs ys))

flips-append : (xs ys : List ℕ) → flips (xs ++ ys) ≡ xor (flips xs) (flips ys)
flips-append [] ys = refl
flips-append (x ∷ xs) ys =
    ground (arith, flips-append xs ys, flips_cons x xs, flips_cons x (xs ++ ys))

-- Summing a packet fragment by fragment gives the word sum of its bytes in a row, wherever the
-- fragments are cut, as long as none is empty.
pub sum_packet-IsSummed :
    (fs : List (List ℕ)) (c : Checksummer)
    → AllNonempty fs
    → Returns (sum_packet fs c) (IsSummed (flatten fs) c)
unfolding sum_packet
sum_packet-IsSummed [] c h = record { sum_is = none_added c.odd; odd_is = xor_false c.odd }
  where
    none_added : (b : Bool) → c.csum ≈ c.csum + word_sum b []
    none_added true = omega arith
    none_added false = omega arith

    xor_false : (b : Bool) → b ≡ xor b false
    xor_false true = refl
    xor_false false = refl
sum_packet-IsSummed (f ∷ fs) c h =
    Returns-bind (IsSummed f c) _ (sum f c) _ (sum-IsSummed f c h.0) (λ c1 s.
      Returns_map (IsSummed (flatten fs) c1) _ (sum_packet fs c1) (sum_packet-IsSummed fs c1 h.1)
        (λ c2 t. record {
          sum_is = omega (
            arith,
            s.sum_is,
            t.sum_is,
            ap (λ b. word_sum b (flatten fs)) s.odd_is,
            word_sum-append c.odd f (flatten fs),
          );
          odd_is =
              t.odd_is
              ∙ ap (λ b. xor b (flips (flatten fs))) s.odd_is
              ∙ xor_assoc c.odd (flips f) (flips (flatten fs))
              ∙ ap (xor c.odd) (sym (flips-append f (flatten fs)));
        }))

-- A fragment with no byte behind an odd number of bytes makes `sum` read past it.
pub sum_packet_fault :
    (f : List ℕ) (fs : List (List ℕ)) → flips f ≡ true → sum_packet (f ∷ [] ∷ fs) fresh ≡ none
unfolding sum_packet sum
sum_packet_fault f fs h = rw h refl

-- The sums of whole numbers add their big-endian bytes: 16 bits two of them, 32 bits four.
pub sum32_bytes :
    (x : ℕ) (c : Checksummer)
    → x < 2 ^ 32
    → (sum32 x c).csum
      ≈ c.csum
        + word_sum c.odd
            (x / 2 ^ 24 ∷ (x / 2 ^ 16 % 2 ^ 8) ∷ (x / 2 ^ 8 % 2 ^ 8) ∷ (x % 2 ^ 8) ∷ [])
unfolding sum32 sum16 sum8
sum32_bytes x c h = in_state c.odd refl
  where
    in_state :
        (b : Bool)
        → c.odd ≡ b
        → (sum32 x c).csum
          ≈ c.csum
            + word_sum c.odd
                (x / 2 ^ 24 ∷ (x / 2 ^ 16 % 2 ^ 8) ∷ (x / 2 ^ 8 % 2 ^ 8) ∷ (x % 2 ^ 8) ∷ [])
    in_state true e = rw e (omega arith)
    in_state false e = rw e (omega arith)

-- From the start, a sum is always taken.
pub sum_fresh : (bytes : List ℕ) → Returns (sum bytes fresh) (λ c. Unit)
unfolding sum
sum_fresh bytes = tt
