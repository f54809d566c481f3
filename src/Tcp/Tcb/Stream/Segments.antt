-- ===== src/Tcp/Tcb/Stream/Segments.antt =====
-- The segments that an acknowledgement covers in full.
use actor_network.Prelude.{
  List, Returns, Returns-bind, [], ap, append_assoc, arith, drop, drop-append, drop-append_left,
  drop-drop, leb→le, length, length-append, length-drop, ltb, refl, some, subst, suc, sym, true,
  zero, ℕ, ◌*◌, ◌++◌, ◌+◌, ◌-◌, ◌<◌, ◌^◌, ◌∙◌, ◌∷◌, ◌≡◌, ◌≤◌,
}
use actor_network.Tcp.Seq.{TcpSeq, add, diff, seq_lt}
use actor_network.Tcp.Seq.Order.{IsSeq, add-add}
use actor_network.Tcp.Tcb.{Tcb, Unacked, signal_send_available, w32}
use actor_network.Tcp.Tcb.Acks.{ack_segment, acked_front, covers_trim, leave_queue, trim_first}
use actor_network.Tcp.Tcb.Rate.{update_cwnd, update_rto_if}
use actor_network.Tcp.Tcb.Rate.Bounds.{update_cwnd_rule}
use actor_network.Tcp.Tcb.Reader.{joined}
use actor_network.Tcp.Tcb.Stream.{InOrder}
use actor_network.Tcp.Tcb.Transmit.Queue.{in_flight}

pub diff-add_self : (s : TcpSeq) (a : ℕ) → IsSeq s → a < 2 ^ 31 → diff (add s a) s ≡ a
unfolding diff add
diff-add_self s a v h = omega arith

pub seq_lt-add_self : (s : TcpSeq) (a : ℕ) → IsSeq s → a < 2 ^ 31 → seq_lt s (add s a) ≡ ltb 0 a
unfolding seq_lt diff add
seq_lt-add_self s a v h = ground arith

pub add_zero : (s : TcpSeq) → IsSeq s → add s 0 ≡ s
unfolding add
add_zero s v = ap (λ r. record { raw = r }) (omega arith)

pub add_range : (s : TcpSeq) (n : ℕ) → IsSeq (add s n)
unfolding add
add_range s n = omega arith

pub in_flight-trim_first :
    (n : ℕ) (us : List Unacked)
    → covers_trim n us ≡ true
    → in_flight (trim_first n us) ≡ drop n (in_flight us)
in_flight-trim_first zero [] h = refl
in_flight-trim_first (suc n) [] h = refl
in_flight-trim_first n (seg ∷ rest) h =
    sym (drop-append_left n seg.bytes (in_flight rest) (leb→le n (length seg.bytes) h))

pub suc_times : (n m : ℕ) → (suc n + 1) * m ≡ m + (n + 1) * m
suc_times n m = grind arith

module _ (now : ℕ) (seg_ack : TcpSeq) (bs : List ℕ) (d : ℕ) where
  -- `total` of the `d` bytes are acknowledged, and the windows are such that no adds wraps.
  pub record Left (t : Tcb) (total : ℕ) : Type 0 where
    pub order : InOrder (drop total bs) t.snd
    pub in_range : IsSeq t.snd.unacknowledged
    pub target : seg_ack ≡ add t.snd.unacknowledged (d - total)
    pub some_left : total ≤ d
    pub whole : d < 2 ^ 31
    pub flies : d - total ≤ length (in_flight t.snd.unacked)
    pub segment_sent : 0 < t.snd.mss
    pub opened : t.snd.mss ≤ t.snd.cwnd
    pub room : t.snd.cwnd + (length t.snd.unacked + 1) * t.snd.mss < 2 ^ 32

  pub dropped_front :
      (total : ℕ) (xs ys zs : List ℕ)
      → (xs ++ ys) ++ zs ≡ drop total bs
      → ys ++ zs ≡ drop (total + length xs) bs
  dropped_front total xs ys zs e =
      sym (drop-append 0 xs (ys ++ zs))
      ∙ ap (λ n. drop n (xs ++ (ys ++ zs))) (omega arith)
      ∙ ap (drop (length xs)) (sym (append_assoc xs ys zs) ∙ e)
      ∙ drop-drop (length xs) total bs

  pub ack_segment-Left :
      (t : Tcb) (total : ℕ) (seg : Unacked) (rest : List Unacked)
      → Left t total
      → t.snd.unacked ≡ seg ∷ rest
      → length seg.bytes ≤ d - total
      → Returns
          (ack_segment now seg rest t)
          (λ c. Left c (w32 (total + length seg.bytes)) × (c.snd.unacked ≡ rest))
  unfolding ack_segment signal_send_available update_rto_if
  ack_segment-Left t total seg rest v e small =
      let front = acked_front now seg t in
      Returns-bind (λ s. Left (leave_queue seg rest front s) (w32 (total + length seg.bytes)))
        (λ c. Left c (w32 (total + length seg.bytes)) × (c.snd.unacked ≡ rest))
        (update_cwnd (length seg.bytes) front.snd) (λ s. some (leave_queue seg rest front s))
        (update_cwnd_rule
          (λ s. Left (leave_queue seg rest front s) (w32 (total + length seg.bytes)))
          (length seg.bytes) front.snd v.segment_sent v.opened (omega (arith, roomy))
          (λ c low high. record {
            order = record {
              holds = moved ∙ ap (λ n. drop n bs) (sym counts);
              counted =
                  v.order.counted
                  ∙ ap (add t.snd.unacknowledged) sizes
                  ∙ sym (add-add t.snd.unacknowledged (length seg.bytes) (length (in_flight rest)));
              unsent_counted = v.order.unsent_counted;
              fits = omega (
                arith,
                counts,
                length-drop (w32 (total + length seg.bytes)) bs,
                length-drop total bs,
                v.order.fits,
              );
            };
            in_range = add_range t.snd.unacknowledged (length seg.bytes);
            target =
                v.target
                ∙ ap (add t.snd.unacknowledged) (omega (arith, counts))
                ∙ sym (
                    add-add t.snd.unacknowledged (length seg.bytes)
                      (d - w32 (total + length seg.bytes)));
            some_left = omega (arith, counts, v.some_left);
            whole = v.whole;
            flies = omega (arith, counts, v.flies, sizes);
            segment_sent = v.segment_sent;
            opened = omega (arith, v.opened);
            room = omega (arith, roomy);
          }))
        (λ s w. (w, refl))
    where
      counts : w32 (total + length seg.bytes) ≡ total + length seg.bytes
      counts = omega (arith, v.whole, v.some_left)

      moved : in_flight rest ++ joined t.snd.unsent ≡ drop (total + length seg.bytes) bs
      moved =
          dropped_front total seg.bytes (in_flight rest) (joined t.snd.unsent)
            (ap (λ us. in_flight us ++ joined t.snd.unsent) (sym e) ∙ v.order.holds)

      sizes : length (in_flight t.snd.unacked) ≡ length seg.bytes + length (in_flight rest)
      sizes = ap (λ us. length (in_flight us)) e ∙ length-append seg.bytes (in_flight rest)

      roomy : t.snd.cwnd + (t.snd.mss + (length rest + 1) * t.snd.mss) < 2 ^ 32
      roomy = omega (
        arith,
        subst (λ us. t.snd.cwnd + (length us + 1) * t.snd.mss < 2 ^ 32) e v.room,
        suc_times (length rest) t.snd.mss,
      )
