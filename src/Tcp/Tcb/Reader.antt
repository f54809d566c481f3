-- ===== src/Tcp/Tcb/Reader.antt =====
-- The receiving side: `segment_acceptable`, `should_send_ack`, the segments out of order, `read`
-- and `wait_for_data`.
pub mod OutOfOrder
pub mod Shifted
pub mod Refines
pub mod Acceptable
pub mod Stream
use actor_network.Prelude.{
  Bool, List, [], drop, false, if◌then◌else◌, length, ltb, none, not, some, true, ℕ, ◌%◌, ◌&&◌,
  ◌++◌, ◌+◌, ◌-◌, ◌==◌, ◌^◌, ◌||◌, ◌∷◌,
}
use actor_network.Tcp.Seq.{TcpSeq, add, diff, seq_eq, seq_ge, seq_le, seq_lt, sub}
use actor_network.Tcp.Tcb.{
  Receive, Tcb, aborted_error, data_failed, foreign_will_not_send, get_default_receive_window_size,
  is_empty, signal,
}

unfoldable pub segment_acceptable : TcpSeq → ℕ → Receive → Bool
segment_acceptable seg_seq seg_len r =
    let edge = add r.next r.window in
    let last = sub (add seg_seq seg_len) 1 in
    if seg_len == 0 && r.window == 0
    then seq_eq seg_seq r.next
    else if seg_len == 0
    then seq_le r.next seg_seq && seq_lt seg_seq edge
    else if ltb 0 r.window
    then (seq_le r.next seg_seq && seq_lt seg_seq edge) || (seq_le r.next last && seq_lt last edge)
    else false

-- `should_send_ack`, with the connection afterwards.
unfoldable pub should_send_ack : ℕ → ℕ → Tcb → Bool × Tcb
should_send_ack now seg_len t =
    let full = seg_len == t.rcv.mss in
    let at_once = ltb t.rcv.mss seg_len || (full && ltb 0 t.nr_full_seg_received) in
    (
      at_once,
      record t {
        nr_full_seg_received =
            if at_once
            then 0
            else if full
            then (t.nr_full_seg_received + 1) % 2 ^ 16
            else t.nr_full_seg_received;
        delayed_ack =
            if at_once
            then none
            else elim t.delayed_ack [ none ↦ some (now + 200) | some at ↦ some at ];
      },
    )

-- The loop of `merge_out_of_order`, which moves segments that continue the data to its end.
unfoldable pub merge_loop : List (TcpSeq × List ℕ) → Receive → Bool → Bool × Receive
merge_loop [] r merged = (merged, record r { out_of_order = [] })
merge_loop ((seg_beg, p) ∷ m) r merged =
    let seg_end = add seg_beg (length p) in
    let trim = diff r.next seg_beg in
    let kept = drop trim p in
    let appended =
      merge_loop m
        (record r {
          next = add r.next (length p - trim);
          data_size = (r.data_size + length kept) % 2 ^ 64;
          received = r.received ++ kept ∷ [];
        })
        true in
    let dropped = merge_loop m r merged in
    if seq_le seg_beg r.next && seq_lt r.next seg_end
    then appended
    else if seq_ge r.next seg_end
    then dropped
    else (merged, record r { out_of_order = (seg_beg, p) ∷ m })

unfoldable pub merge_out_of_order : Receive → Bool × Receive
unfolding merge_loop
merge_out_of_order r = merge_loop r.out_of_order r false

abbrev pub joined : List (List ℕ) → List ℕ
joined [] = []
joined (p ∷ ps) = p ++ joined ps

-- `read`: the bytes that were received, and the connection without them.
unfoldable pub read : Tcb → List ℕ × Tcb
unfolding get_default_receive_window_size
read t = (
  joined t.rcv.received,
  record t {
    rcv = record t.rcv {
      received = [];
      data_size = 0;
      window = get_default_receive_window_size t.rcv;
    };
  },
)

-- `wait_for_data`: whether the future is ready.
unfoldable pub wait_for_data : Tcb → Bool × Tcb
wait_for_data t =
    if not (is_empty t.rcv.received) || foreign_will_not_send t
    then (true, t)
    else (false, record t { rcv = record t.rcv { data_waits = true } })

unfoldable pub abort_reader : Tcb → Tcb
abort_reader t =
    if t.rcv.data_waits
    then signal (data_failed aborted_error) (record t { rcv = record t.rcv { data_waits = false } })
    else t
