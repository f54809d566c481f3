-- ===== src/Tcp/Seq/Order.antt =====
-- Sequence numbers are ordered within half of their circle.
use actor_network.Prelude.{
  ap, arith, false, leb, ltb, true, ℕ, ◌+◌, ◌-◌, ◌<◌, ◌^◌, ◌||◌, ◌≡◌, ◌≢◌, ◌≤◌, ◌⊎◌,
}
use actor_network.Tcp.Seq.{
  TcpSeq, add, diff, make_seq, seq_eq, seq_ge, seq_gt, seq_le, seq_lt, seq_ne, sub,
}

abbrev pub IsSeq : TcpSeq → Type 0
IsSeq s = s.raw < 2 ^ 32

-- Going forward by less than half of the circle goes up, also across the wrap; the difference is the
-- distance, and going back undoes it. A sequence number is below 2 ^ 32.
pub add-lt :
    (s : TcpSeq) (n : ℕ)
    → IsSeq s
    → 0 < n
    → n < 2 ^ 31
    → (seq_lt s (add s n) ≡ true)
      × (seq_gt s (add s n) ≡ false)
      × (diff (add s n) s ≡ n)
      × ((sub (add s n) n).raw ≡ s.raw)
unfolding seq_gt seq_lt add sub diff
add-lt s n v pos small = ground arith

-- Of two sequence numbers that are not half of the circle apart, just one of `<`, `==` and `>` holds.
-- They are below 2 ^ 32.
pub seq_trichotomy :
    (s q : TcpSeq)
    → IsSeq s
    → IsSeq q
    → diff s q ≢ 2 ^ 31
    → ((seq_lt s q ≡ true) × (seq_eq s q ≡ false) × (seq_gt s q ≡ false))
      ⊎ ((seq_lt s q ≡ false) × (seq_eq s q ≡ true) × (seq_gt s q ≡ false))
      ⊎ ((seq_lt s q ≡ false) × (seq_eq s q ≡ false) × (seq_gt s q ≡ true))
unfolding seq_gt seq_lt seq_eq diff
seq_trichotomy s q v w ne = ground arith

-- The order is transitive along steps that together stay below half of the circle, for
-- numbers below 2 ^ 32.
pub seq_lt_trans :
    (s q r : TcpSeq)
    → IsSeq s
    → IsSeq q
    → IsSeq r
    → seq_lt s q ≡ true
    → seq_lt q r ≡ true
    → diff q s + diff r q < 2 ^ 31
    → seq_lt s r ≡ true
unfolding seq_lt diff
seq_lt_trans s q r v w x h k near = ground arith

-- `!=`, `<=` and `>=` against the others: `<=` is `<` or `==` and `>=` is `>` or `==` away from
-- half of the circle, and a number made from raw bits is itself plus 0. The
-- numbers are below 2 ^ 32.
pub seq_derived :
    (s q : TcpSeq)
    → IsSeq s
    → IsSeq q
    → diff s q ≢ 2 ^ 31
    → (seq_le s q ≡ (seq_lt s q || seq_eq s q))
      × (seq_ge s q ≡ (seq_gt s q || seq_eq s q))
      × (seq_ne s q ≡ (seq_lt s q || seq_gt s q))
      × (seq_eq (add (make_seq s.raw) 0) s ≡ true)
unfolding seq_le seq_ge seq_ne seq_gt seq_lt seq_eq diff add make_seq
seq_derived s q v w ne = ground arith

pub add-add : (s : TcpSeq) (a b : ℕ) → add (add s a) b ≡ add s (a + b)
unfolding add
add-add s a b = ap (λ r. record { raw = r }) (omega arith)

pub seq_lt-add :
    (s : TcpSeq) (a b : ℕ) → a < 2 ^ 31 → b < 2 ^ 31 → seq_lt (add s a) (add s b) ≡ ltb a b
unfolding seq_lt diff add
seq_lt-add s a b h k = ground arith

pub seq_le-add :
    (s : TcpSeq) (a b : ℕ) → a < 2 ^ 31 → b < 2 ^ 31 → seq_le (add s a) (add s b) ≡ leb a b
unfolding seq_le seq_gt seq_lt diff add
seq_le-add s a b h k = ground arith

pub diff-add : (s : TcpSeq) (a b : ℕ) → a ≤ b → b < 2 ^ 31 → diff (add s b) (add s a) ≡ b - a
unfolding diff add
diff-add s a b h k = omega arith
