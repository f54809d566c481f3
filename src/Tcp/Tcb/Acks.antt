-- ===== src/Tcp/Tcb/Acks.antt =====
-- Acknowledgements: `data_segment_acked`.
use actor_network.Prelude.{
  Bool, List, Option, [], drop, guard, if◌then◌else◌, leb, length, some, true, ℕ, ◌%◌, ◌+◌, ◌-◌,
  ◌==◌, ◌>>=◌, ◌>>◌, ◌^◌, ◌∷◌,
}
use actor_network.Tcp.Seq.{TcpSeq, add, diff, seq_le, seq_lt}
use actor_network.Tcp.Tcb.{Send, Tcb, Unacked, signal_send_available, w32}
use actor_network.Tcp.Tcb.Rate.{update_cwnd, update_rto_if}

-- One segment is acknowledged in full: up to the congestion window, and what follows it.
abbrev pub acked_front : ℕ → Unacked → Tcb → Tcb
acked_front now seg t = update_rto_if (seg.nr_transmits == 0) now seg.tx_time (record t {
  snd = record t.snd { unacknowledged = add t.snd.unacknowledged (length seg.bytes) };
})

abbrev pub leave_queue : Unacked → List Unacked → Tcb → Send → Tcb
leave_queue seg rest t s =
    let told = signal_send_available (record t {
      snd = record s {
        current_queue_space = (s.current_queue_space + 2 ^ 64 - seg.data_len) % 2 ^ 64;
      };
    }) in
    record told { snd = record told.snd { unacked = rest } }

unfoldable pub ack_segment : ℕ → Unacked → List Unacked → Tcb → Option Tcb
unfolding update_cwnd update_rto_if signal_send_available
ack_segment now seg rest t0 =
    let t = acked_front now seg t0 in
    update_cwnd (length seg.bytes) t.snd >>= λ s. some (leave_queue seg rest t s)

-- The loop over `_snd.data`.
unfoldable pub ack_full : ℕ → TcpSeq → List Unacked → Tcb → ℕ → Option (Tcb × ℕ)
unfolding ack_segment
ack_full now seg_ack [] t total = some (t, total)
ack_full now seg_ack (seg ∷ rest) t total =
    let more = ack_segment now seg rest t >>= λ t'.
    ack_full now seg_ack rest t' (w32 (total + length seg.bytes)) in
    if seq_le (add t.snd.unacknowledged (length seg.bytes)) seg_ack then more else some (t, total)

abbrev pub trim_first : ℕ → List Unacked → List Unacked
trim_first n [] = []
trim_first n (seg ∷ rest) = record seg { bytes = drop n seg.bytes } ∷ rest

-- What is acknowledged of the next segment; `trim_front` asserts that it has so many bytes.
abbrev pub covers_trim : ℕ → List Unacked → Bool
covers_trim n [] = true
covers_trim n (seg ∷ rest) = leb n (length seg.bytes)

unfoldable pub ack_partial : TcpSeq → Tcb × ℕ → Option (Tcb × ℕ)
unfolding update_cwnd
ack_partial seg_ack (t, total) =
    let acked = diff seg_ack t.snd.unacknowledged in
    if seq_lt t.snd.unacknowledged seg_ack
    then (do
      guard (covers_trim acked t.snd.unacked)
      s ←
          update_cwnd acked
            (record t.snd { unacked = trim_first acked t.snd.unacked; unacknowledged = seg_ack })
      some (record t { snd = s }, w32 (total + acked)))
    else some (t, total)

-- `data_segment_acked`: the connection, and the number of bytes acknowledged.
unfoldable pub data_segment_acked : ℕ → TcpSeq → Tcb → Option (Tcb × ℕ)
unfolding ack_full ack_partial
data_segment_acked now seg_ack t = ack_full now seg_ack t.snd.unacked t 0 >>= ack_partial seg_ack
