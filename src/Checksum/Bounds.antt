-- ===== src/Checksum/Bounds.antt =====
-- Sums of bytes stay below the width of `csum`.
use actor_network.Prelude.{
  List, Returns, [], arith, length, suc, take, zero, ℕ, ◌*◌, ◌+◌, ◌<◌, ◌^◌, ◌∷◌, ◌≤◌,
}
use actor_network.Checksum.{fresh, sum, sum_even, sum_words, word64}

abbrev pub AllBytes : List ℕ → Type 0
AllBytes [] = Unit
AllBytes (b ∷ bs) = (b < 256) × AllBytes bs

pub take-AllBytes : (n : ℕ) (bs : List ℕ) → AllBytes bs → AllBytes (take n bs)
take-AllBytes zero bs h = tt
take-AllBytes (suc n) [] h = tt
take-AllBytes (suc n) (b ∷ bs) h = (h.0, take-AllBytes n bs h.1)

sum_words_bound :
    (bytes : List ℕ) (acc : ℕ) → AllBytes bytes → sum_words bytes acc ≤ acc + length bytes * 2 ^ 64
unfolding sum_words
sum_words_bound [] acc h = omega arith
sum_words_bound (a ∷ []) acc h = omega (arith, h.0)
sum_words_bound (a ∷ b ∷ rest) acc h =
    omega (arith, h.0, h.1.0, sum_words_bound rest (acc + (a * 2 ^ 8 + b)) h.1.1)

word64_bound :
    (a b c d e f g h : ℕ)
    → AllBytes (a ∷ b ∷ c ∷ d ∷ e ∷ f ∷ g ∷ h ∷ [])
    → word64 a b c d e f g h < 2 ^ 64
word64_bound a b c d e f g h (ha, (hb, (hc, (hd, (he, (hf, (hg, (hh, u)))))))) = omega arith

sum_even_bound :
    (bytes : List ℕ) (acc : ℕ) → AllBytes bytes → sum_even bytes acc ≤ acc + length bytes * 2 ^ 64
unfolding sum_even
sum_even_bound (a ∷ b ∷ c ∷ d ∷ e ∷ f ∷ g ∷ h ∷ rest) acc
      (ha, (hb, (hc, (hd, (he, (hf, (hg, (hh, hrest)))))))) =
    omega (
      arith,
      word64_bound a b c d e f g h (ha, (hb, (hc, (hd, (he, (hf, (hg, (hh, tt)))))))),
      sum_even_bound rest (acc + word64 a b c d e f g h) hrest,
    )
sum_even_bound bytes acc h = sum_words_bound bytes acc h

-- From the start, bytes of no great number have a sum that `get` can fold.
pub sum-fresh_bound :
    (bytes : List ℕ)
    → AllBytes bytes
    → length bytes ≤ 2 ^ 16
    → Returns (sum bytes fresh) (λ c. c.csum < 2 ^ 127)
unfolding sum
sum-fresh_bound bytes h few = omega (arith, sum_even_bound bytes 0 h)
