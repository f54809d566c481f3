-- ===== src/Tcp/Tcb/Stream/Acked.antt =====
-- An acknowledgement takes its bytes off the data to deliver.
use actor_network.Prelude.{
  Bool-cases, List, Returns, Returns-bind, Returns-guard, [], ap, arith, drop, drop-append_left,
  drop-drop, guard, inl, inr, leb, leb→le, length, length-append, length-drop, ltb, refl, some,
  subst, sym, true, ℕ, ◌*◌, ◌++◌, ◌+◌, ◌-◌, ◌<◌, ◌>>=◌, ◌^◌, ◌∙◌, ◌∷◌, ◌≡◌, ◌≤◌,
}
use actor_network.Tcp.Seq.{TcpSeq, add, diff, seq_le, seq_lt}
use actor_network.Tcp.Seq.Order.{add-add, seq_le-add}
use actor_network.Tcp.Table.{full}
use actor_network.Tcp.Tcb.{Send, Tcb, Unacked, w32}
use actor_network.Tcp.Tcb.Acks.{
  ack_full, ack_partial, ack_segment, covers_trim, data_segment_acked, trim_first,
}
use actor_network.Tcp.Tcb.Rate.{update_cwnd}
use actor_network.Tcp.Tcb.Rate.Bounds.{update_cwnd_rule}
use actor_network.Tcp.Tcb.Reader.{joined}
use actor_network.Tcp.Tcb.Stream.{InOrder}
use actor_network.Tcp.Tcb.Stream.Segments.{
  Left, ack_segment-Left, add_zero, diff-add_self, in_flight-trim_first, seq_lt-add_self,
}
use actor_network.Tcp.Tcb.Transmit.Queue.{in_flight}

module _ (now : ℕ) (seg_ack : TcpSeq) (bs : List ℕ) (d : ℕ) where
  ack_full-Left :
      (us : List Unacked) (t : Tcb) (total : ℕ)
      → Left now seg_ack bs d t total
      → t.snd.unacked ≡ us
      → Returns
          (ack_full now seg_ack us t total)
          (λ r. Left now seg_ack bs d r.0 r.1 × (covers_trim (d - r.1) r.0.snd.unacked ≡ true))
  unfolding ack_full
  ack_full-Left [] t total v e = (v, ap (covers_trim (d - total)) e)
  ack_full-Left (seg ∷ rest) t total v e =
      let len = length seg.bytes in
      let sizes = ap (λ us. length (in_flight us)) e ∙ length-append seg.bytes (in_flight rest) in
      let adds =
        sym (length-append (in_flight t.snd.unacked) (joined t.snd.unsent))
        ∙ ap length v.order.holds in
      let tested =
        ap (seq_le (add t.snd.unacknowledged len)) v.target
        ∙ seq_le-add t.snd.unacknowledged len (d - total) (omega (arith, sizes, adds, v.order.fits))
            (omega (arith, v.whole)) in
      elim (Bool-cases (leb len (d - total))) [
        | inl full ↦ rw (tested ∙ full) (
            Returns-bind _ _ (ack_segment now seg rest t) _
              (ack_segment-Left now seg_ack bs d t total seg rest v e (leb→le len (d - total) full))
              (λ c w. ack_full-Left rest c (w32 (total + len)) w.0 w.1))
        | inr part ↦ rw (tested ∙ part) (v, ap (covers_trim (d - total)) e ∙ ground arith)
      ]

  -- What is left after an acknowledgement.
  pub record Acked (t : Tcb) (total : ℕ) : Type 0 where
    pub order : InOrder (drop d bs) t.snd
    pub acknowledged : t.snd.unacknowledged ≡ seg_ack
    pub counted : total ≡ d

  ack_partial-Acked :
      (t : Tcb) (total : ℕ)
      → Left now seg_ack bs d t total
      → covers_trim (d - total) t.snd.unacked ≡ true
      → Returns (ack_partial seg_ack (t, total)) (λ r. Acked r.0 r.1)
  unfolding ack_partial
  ack_partial-Acked t total v covered_all =
      let e = d - total in
      let tested =
        ap (seq_lt t.snd.unacknowledged) v.target
        ∙ seq_lt-add_self t.snd.unacknowledged e v.in_range (omega (arith, v.whole)) in
      let acked =
        ap (λ q. diff q t.snd.unacknowledged) v.target
        ∙ diff-add_self t.snd.unacknowledged e v.in_range (omega (arith, v.whole)) in
      elim (Bool-cases (ltb 0 e)) [
        | inl part ↦ rw (tested ∙ part, acked) (trimmed (omega (arith, v.some_left)))
        | inr all ↦ rw (tested ∙ all) (record {
          order = subst (λ n. InOrder (drop n bs) t.snd) (done (ground arith)) v.order;
          acknowledged =
              sym (add_zero t.snd.unacknowledged v.in_range)
              ∙ ap (add t.snd.unacknowledged) (omega (arith, done (ground arith)))
              ∙ sym v.target;
          counted = done (ground arith);
        })
      ]
    where
      done : d - total ≡ 0 → total ≡ d
      done h = omega (arith, v.some_left)

      cut : Send
      cut = record t.snd {
        unacked = trim_first (d - total) t.snd.unacked;
        unacknowledged = seg_ack;
      }

      flight : List ℕ
      flight = in_flight t.snd.unacked

      trims : in_flight cut.unacked ≡ drop (d - total) flight
      trims = in_flight-trim_first (d - total) t.snd.unacked covered_all

      kept : in_flight cut.unacked ++ joined t.snd.unsent ≡ drop (total + (d - total)) bs
      kept =
          ap (λ xs. xs ++ joined t.snd.unsent) trims
          ∙ sym (drop-append_left (d - total) flight (joined t.snd.unsent) v.flies)
          ∙ ap (drop (d - total)) v.order.holds
          ∙ drop-drop (d - total) total bs

      numbered : t.snd.next ≡ add seg_ack (length (in_flight cut.unacked))
      numbered =
          v.order.counted
          ∙ ap (add t.snd.unacknowledged)
              (omega (arith, v.flies, ap length trims, length-drop (d - total) flight))
          ∙ sym (add-add t.snd.unacknowledged (d - total) (length (in_flight cut.unacked)))
          ∙ ap (λ q. add q (length (in_flight cut.unacked))) (sym v.target)

      trimmed :
          total + (d - total) ≡ d
          → Returns {A = Tcb × ℕ}
              (guard (covers_trim (d - total) t.snd.unacked) >>= λ _.
                (update_cwnd (d - total) cut >>= λ s.
                some (record t { snd = s }, w32 (total + (d - total)))))
              (λ r. Acked r.0 r.1)
      trimmed adds = Returns-guard _ _ _ covered_all (
          Returns-bind (λ s. Acked (record t { snd = s }) (w32 (total + (d - total)))) _
            (update_cwnd (d - total) cut) _
            (update_cwnd_rule (λ s. Acked (record t { snd = s }) (w32 (total + (d - total))))
              (d - total) cut v.segment_sent v.opened (omega (arith, v.room))
              (λ c low high. record {
                order = record {
                  holds = kept ∙ ap (λ n. drop n bs) adds;
                  counted = numbered;
                  unsent_counted = v.order.unsent_counted;
                  fits =
                      omega
                        (arith, v.order.fits, length-drop d bs, length-drop total bs, v.some_left);
                };
                acknowledged = refl;
                counted = omega (arith, v.whole);
              }))
            (λ s w. w))

-- An acknowledgement of `d` bytes of those in flight returns the connection with exactly these bytes
-- taken off the data to deliver, SND.UNA at the acknowledged number and the count `d`. The congestion
-- window has at least a segment, and is not so large that it wraps while it grows.
pub data_segment_acked-Acked :
    (now : ℕ) (seg_ack : TcpSeq) (bs : List ℕ) (d : ℕ) (t : Tcb)
    → InOrder bs t.snd
    → t.snd.unacknowledged.raw < 2 ^ 32
    → seg_ack ≡ add t.snd.unacknowledged d
    → d ≤ length (in_flight t.snd.unacked)
    → 0 < t.snd.mss
    → t.snd.mss ≤ t.snd.cwnd
    → t.snd.cwnd + (length t.snd.unacked + 1) * t.snd.mss < 2 ^ 32
    → Returns (data_segment_acked now seg_ack t) (λ r. Acked now seg_ack bs d r.0 r.1)
unfolding data_segment_acked
data_segment_acked-Acked now seg_ack bs d t v range target few pos opened room =
    let adds =
      sym (length-append (in_flight t.snd.unacked) (joined t.snd.unsent)) ∙ ap length v.holds in
    Returns-bind _ _ (ack_full now seg_ack t.snd.unacked t 0) _
      (ack_full-Left now seg_ack bs d t.snd.unacked t 0
        (record {
          order = v;
          in_range = range;
          target = target ∙ ap (add t.snd.unacknowledged) (omega arith);
          some_left = omega arith;
          whole = omega (arith, adds, v.fits);
          flies = omega (arith, few);
          segment_sent = pos;
          opened = opened;
          room = room;
        })
        refl)
      (λ r w. ack_partial-Acked now seg_ack bs d r.0 r.1 w.0 w.1)
