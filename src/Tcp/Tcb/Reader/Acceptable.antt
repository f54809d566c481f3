-- ===== src/Tcp/Tcb/Reader/Acceptable.antt =====
-- `segment_acceptable` by distances.
use actor_network.Prelude.{Bool, arith, if◌then◌else◌, ltb, suc, zero, ℕ, ◌<◌, ◌==◌, ◌^◌, ◌||◌, ◌≡◌}
use actor_network.Tcp.Seq.{TcpSeq, add, diff, seq_eq, seq_gt, seq_le, seq_lt, sub}
use actor_network.Tcp.Seq.Order.{IsSeq}
use actor_network.Tcp.Tcb.{Receive}
use actor_network.Tcp.Tcb.Reader.{segment_acceptable}

-- How far a sequence number lies beyond RCV.NXT.
abbrev ahead : TcpSeq → Receive → ℕ
ahead q r = diff q r.next

-- The test of RFC 793: an empty segment at RCV.NXT or within the window, and any other segment whose
-- first or last byte is within the window.
abbrev pub acceptable : TcpSeq → ℕ → Receive → Bool
acceptable seg_seq zero r =
    if r.window == 0 then ahead seg_seq r == 0 else ltb (ahead seg_seq r) r.window
acceptable seg_seq (suc n) r =
    ltb (ahead seg_seq r) r.window || ltb (ahead (add seg_seq n) r) r.window

-- `segment_acceptable` is the test of RFC 793 on the distances from RCV.NXT, also across the wrap of
-- sequence numbers, when the window is below 2 ^ 31.
pub segment_acceptable-acceptable :
    (seg_seq : TcpSeq) (n : ℕ) (r : Receive)
    → IsSeq seg_seq
    → IsSeq r.next
    → r.window < 2 ^ 31
    → segment_acceptable seg_seq n r ≡ acceptable seg_seq n r
unfolding segment_acceptable seq_lt seq_le seq_eq seq_gt add sub diff
segment_acceptable-acceptable seg_seq zero r v w small = ground arith
segment_acceptable-acceptable seg_seq (suc n) r v w small = ground arith
