-- ===== src/Checksum/Fold.antt =====
-- Folding the carries, and what `get` makes of it.
use actor_network.Prelude.{arith, ℕ, ◌%◌, ◌*◌, ◌+◌, ◌/◌, ◌<◌, ◌^◌, ◌↔◌, ◌∙◌, ◌≡◌}
use actor_network.Checksum.{Checksummer, folded, get, htonq}
use actor_network.Checksum.Sum.{◌≈◌}

-- A step that adds carries back in.
record IsStep (bound a b : ℕ) : Type 0 where
  below : b < bound
  carries : b ≈ a
  zero_iff : (b ≡ 0) ↔ (a ≡ 0)

step128 : (a : ℕ) → a < 2 ^ 127 → IsStep (2 ^ 64 + 2 ^ 63) a (a % 2 ^ 64 + a / 2 ^ 64)
step128 a h = omega arith

step64 : (a : ℕ) → a < 2 ^ 64 + 2 ^ 63 → IsStep (2 ^ 64) a ((a % 2 ^ 64 + a / 2 ^ 64) % 2 ^ 64)
step64 a h = omega arith

step48 :
    (w : ℕ)
    → w < 2 ^ 64
    → IsStep (4 * 2 ^ 16) w (w % 2 ^ 16 + w / 2 ^ 16 % 2 ^ 16 + w / 2 ^ 32 % 2 ^ 16 + w / 2 ^ 48)
step48 w h = omega arith

step18 : (x : ℕ) → x < 4 * 2 ^ 16 → IsStep (2 ^ 16 + 3) x (x % 2 ^ 16 + x / 2 ^ 16)
step18 x h = omega arith

step17 : (y : ℕ) → y < 2 ^ 16 + 3 → IsStep (2 ^ 16) y (y % 2 ^ 16 + y / 2 ^ 16)
step17 y h = omega arith

IsStep-trans : (m n a b c : ℕ) → IsStep m a b → IsStep n b c → IsStep n a c
IsStep-trans m n a b c s t = record {
  below = t.below;
  carries = t.carries ∙ s.carries;
  zero_iff = (λ e. s.zero_iff.0 (t.zero_iff.0 e), λ e. t.zero_iff.1 (s.zero_iff.1 e));
}

folded-IsStep : (c : Checksummer) → c.csum < 2 ^ 127 → IsStep (2 ^ 16) c.csum (folded c)
unfolding folded
folded-IsStep c h =
    let s1 = step128 c.csum h in
    let s2 = step64 (c.csum % 2 ^ 64 + c.csum / 2 ^ 64) s1.below in
    let s3 = step48 _ s2.below in
    let s4 = step18 _ s3.below in
    let s5 = step17 _ s4.below in
    IsStep-trans _ _ _ _ _ s1
      (IsStep-trans _ _ _ _ _ s2 (IsStep-trans _ _ _ _ _ s3 (IsStep-trans _ _ _ _ _ s4 s5)))

-- Folding gives a number of 16 bits that is the sum up to end-around carries, and 0 for the sum 0
-- alone. The sum is below 2 ^ 127.
pub folded_lem :
    (c : Checksummer)
    → c.csum < 2 ^ 127
    → (folded c < 2 ^ 16) × (folded c ≈ c.csum) × ((folded c ≡ 0) ↔ (c.csum ≡ 0))
folded_lem c h = let s = folded-IsStep c h in (s.below, s.carries, s.zero_iff)

-- Whatever sum below 2 ^ 127 was made, `get` gives 0xffff.
pub get_constant : (c : Checksummer) → c.csum < 2 ^ 127 → get c ≡ 0xffff
unfolding get htonq
get_constant c h = omega (arith, folded_lem c h)
