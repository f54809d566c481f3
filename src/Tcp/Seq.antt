-- ===== src/Tcp/Seq.antt =====
-- `tcp_seq` of include/nil/actor/network/tcp.hh. Sums and differences wrap at 32 bits; an `int32_t` is
-- its bit pattern, which is negative from 2 ^ 31 on.
pub mod Order
use actor_network.Prelude.{Bool, leb, not, ℕ, ◌%◌, ◌+◌, ◌-◌, ◌==◌, ◌^◌}

pub record TcpSeq : Type 0 where
  pub raw : ℕ

unfoldable pub make_seq : ℕ → TcpSeq
make_seq raw = record { raw = raw }

-- `s + n` and `s - n`, and what `+=` and `-=` leave in `s`.
unfoldable pub add : TcpSeq → ℕ → TcpSeq
add s n = record { raw = (s.raw + n) % 2 ^ 32 }

unfoldable pub sub : TcpSeq → ℕ → TcpSeq
sub s n = record { raw = (s.raw + 2 ^ 32 - n) % 2 ^ 32 }

-- `s - q`, an `int32_t`.
unfoldable pub diff : TcpSeq → TcpSeq → ℕ
diff s q = (s.raw + 2 ^ 32 - q.raw) % 2 ^ 32

abbrev pub negative : ℕ → Bool
negative d = leb (2 ^ 31) d

unfoldable pub seq_eq : TcpSeq → TcpSeq → Bool
seq_eq s q = s.raw == q.raw

unfoldable pub seq_ne : TcpSeq → TcpSeq → Bool
unfolding seq_eq
seq_ne s q = not (seq_eq s q)

unfoldable pub seq_lt : TcpSeq → TcpSeq → Bool
unfolding diff
seq_lt s q = negative (diff s q)

unfoldable pub seq_gt : TcpSeq → TcpSeq → Bool
unfolding seq_lt
seq_gt s q = seq_lt q s

unfoldable pub seq_le : TcpSeq → TcpSeq → Bool
unfolding seq_gt
seq_le s q = not (seq_gt s q)

unfoldable pub seq_ge : TcpSeq → TcpSeq → Bool
unfolding seq_lt
seq_ge s q = not (seq_lt s q)
