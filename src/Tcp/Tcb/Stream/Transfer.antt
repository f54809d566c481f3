-- ===== src/Tcp/Tcb/Stream/Transfer.antt =====
-- The sending side as a whole: what the user gives, what is sent and what is acknowledged.
use actor_network.Prelude.{
  List, Returns-some, [], ap, append_assoc, ap₂, arith, drop, drop-append_left, drop-drop, false,
  length, length-append, length-drop, some, subst, sym, ℕ, ◌*◌, ◌++◌, ◌+◌, ◌<◌, ◌^◌, ◌||◌, ◌∙◌, ◌∷◌,
  ◌≡◌, ◌≤◌,
}
use actor_network.Tcp.Core.{Align, BigEndian}
use actor_network.Tcp.Seq.{TcpSeq, add}
use actor_network.Tcp.Tcb.{HwFeatures, Send, Tcb, closed, is_in, output, w32}
use actor_network.Tcp.Tcb.Acks.{data_segment_acked}
use actor_network.Tcp.Tcb.Api.{send, wait_send_available}
use actor_network.Tcp.Tcb.Reader.{joined}
use actor_network.Tcp.Tcb.Reader.Stream.{joined-append}
use actor_network.Tcp.Tcb.Stream.{InOrder, output_one-InOrder}
use actor_network.Tcp.Tcb.Stream.Acked.{Acked, data_segment_acked-Acked}
use actor_network.Tcp.Tcb.Transmit.{can_send, max_payload, output_one}
use actor_network.Tcp.Tcb.Transmit.Queue.{in_flight}

same_order :
    (bs : List ℕ) (s s' : Send)
    → InOrder bs s
    → s'.unacked ≡ s.unacked
    → s'.unsent ≡ s.unsent
    → s'.unsent_len ≡ s.unsent_len
    → s'.next ≡ s.next
    → s'.unacknowledged ≡ s.unacknowledged
    → InOrder bs s'
same_order bs s s' v e f g h k = record {
  holds = ap₂ (λ us ps. in_flight us ++ joined ps) e f ∙ v.holds;
  counted = h ∙ v.counted ∙ sym (ap₂ (λ q us. add q (length (in_flight us))) k e);
  unsent_counted = g ∙ v.unsent_counted ∙ sym (ap (λ ps. length (joined ps)) f);
  fits = v.fits;
}

-- The packet at the end of those that wait.
given : List ℕ → Send → Send
given p s = record s { unsent_len = w32 (s.unsent_len + length p); unsent = s.unsent ++ p ∷ [] }

given-InOrder :
    (bs p : List ℕ) (s : Send)
    → InOrder bs s
    → length (bs ++ p) < 2 ^ 31
    → InOrder (bs ++ p) (given p s)
unfolding given
given-InOrder bs p s v fits =
    let sizes = ap length (joined-append s.unsent p) ∙ length-append (joined s.unsent) p in
    let total = sym (length-append (in_flight s.unacked) (joined s.unsent)) ∙ ap length v.holds in
    record {
      holds =
          ap (◌++◌ (in_flight s.unacked)) (joined-append s.unsent p)
          ∙ sym (append_assoc (in_flight s.unacked) (joined s.unsent) p)
          ∙ ap (λ xs. xs ++ p) v.holds;
      counted = v.counted;
      unsent_counted = omega (arith, sizes, total, v.unsent_counted, fits, length-append bs p);
      fits = fits;
    }

send-InOrder :
    (bs p : List ℕ) (t : Tcb)
    → InOrder bs t.snd
    → length (bs ++ p) < 2 ^ 31
    → (t.snd.shut || is_in t.state (closed ∷ [])) ≡ false
    → InOrder (bs ++ p) (send p t).1.snd
unfolding send can_send wait_send_available output given
send-InOrder bs p t v fits able =
    let w = given-InOrder bs p t.snd v fits in
    same_order (bs ++ p) (given p t.snd) (send p t).1.snd w (ground (arith, able))
      (ground (arith, able)) (ground (arith, able)) (ground (arith, able)) (ground (arith, able))

module _ (be : BigEndian) (core : Align) (hw : HwFeatures) where
  -- The user has given some bytes, so many of them are acknowledged, and the connection is now this:
  -- packets are given while the connection takes them, segments are sent, and bytes in flight are
  -- acknowledged, in any order. At no time 2 ^ 31 bytes or more are to be delivered, the device takes
  -- less than 2 ^ 16 bytes at once, and the congestion window does not wrap.
  pub data Transfer (t : Tcb) : List ℕ → ℕ → Tcb → Type 0 where
    started : Transfer t [] 0 t
    gives :
        {bs : List ℕ} {n : ℕ} {c : Tcb} (p : List ℕ)
        → Transfer t bs n c
        → length (drop n bs ++ p) < 2 ^ 31
        → (c.snd.shut || is_in c.state (closed ∷ [])) ≡ false
        → Transfer t (bs ++ p) n (send p c).1
    transmits :
        {bs : List ℕ} {n : ℕ} {c d : Tcb} (now : ℕ)
        → Transfer t bs n c
        → w32 (max_payload hw c.snd) < 2 ^ 16
        → c.option.local_mss < 2 ^ 16
        → output_one be core hw now c ≡ some d
        → Transfer t bs n d
    acknowledges :
        {bs : List ℕ} {n total : ℕ} {c d : Tcb} (now k : ℕ) (seg_ack : TcpSeq)
        → Transfer t bs n c
        → c.snd.unacknowledged.raw < 2 ^ 32
        → seg_ack ≡ add c.snd.unacknowledged k
        → k ≤ length (in_flight c.snd.unacked)
        → 0 < c.snd.mss
        → c.snd.mss ≤ c.snd.cwnd
        → c.snd.cwnd + (length c.snd.unacked + 1) * c.snd.mss < 2 ^ 32
        → data_segment_acked now seg_ack c ≡ some (d, total)
        → Transfer t bs (n + k) d

  abbrev Delivering : List ℕ → ℕ → Tcb → Type 0
  Delivering bs n c = (n ≤ length bs) × InOrder (drop n bs) c.snd

  Transfer-Delivering :
      {t : Tcb} {bs : List ℕ} {n : ℕ} {c : Tcb}
      → InOrder [] t.snd
      → Transfer t bs n c
      → Delivering bs n c
  Transfer-Delivering v started = (omega arith, v)
  Transfer-Delivering v (gives {bs = bs} {n = n} {c = c} p r fits able) =
      let (some_left, w) = Transfer-Delivering v r in
      (
        omega (arith, some_left, length-append bs p),
        subst (λ xs. InOrder xs (send p c).1.snd) (sym (drop-append_left n bs p some_left))
            (send-InOrder (drop n bs) p c w fits able),
      )
  Transfer-Delivering v (transmits {bs = bs} {n = n} {c = c} now r small mss_small e) =
      let (some_left, w) = Transfer-Delivering v r in
      (
        some_left,
        Returns-some (λ d. InOrder (drop n bs) d.snd) _
            (output_one-InOrder be core hw now (drop n bs) c w small mss_small) e,
      )
  Transfer-Delivering v
        (acknowledges {bs = bs} {n = n} {c = c} {d = acked_conn} now k seg_ack r range target few
          pos le room e) =
      let (some_left, w) = Transfer-Delivering v r in
      let acked =
        Returns-some (λ x. Acked now seg_ack (drop n bs) k x.0 x.1) _
          (data_segment_acked-Acked now seg_ack (drop n bs) k c w range target few pos le room) e in
      let total =
        sym (length-append (in_flight c.snd.unacked) (joined c.snd.unsent)) ∙ ap length w.holds in
      (
        omega (arith, few, total, length-drop n bs, some_left),
        subst (λ xs. InOrder xs acked_conn.snd) (drop-drop k n bs) acked.order,
      )

-- From a connection that has nothing to deliver on: however packets are given, segments are sent and
-- bytes are acknowledged, within the limits that Transfer states, the bytes in flight, then those that wait, are at each time exactly the bytes
-- given without those acknowledged. None is lost, sent twice as new, or out of its order.
pub Transfer-delivered :
    (be : BigEndian) (core : Align) (hw : HwFeatures) {t : Tcb} {bs : List ℕ} {n : ℕ} {c : Tcb}
    → InOrder [] t.snd
    → Transfer be core hw t bs n c
    → in_flight c.snd.unacked ++ joined c.snd.unsent ≡ drop n bs
Transfer-delivered be core hw v r = (Transfer-Delivering be core hw v r).1.holds
