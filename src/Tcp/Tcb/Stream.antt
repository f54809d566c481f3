-- ===== src/Tcp/Tcb/Stream.antt =====
-- The data that a connection still has to deliver, in order, through sending and acknowledging.
pub mod Segments
pub mod Acked
pub mod Transfer
use actor_network.Prelude.{
  Bool-cases, List, Returns, [], ap, append-nil, append_assoc, arith, if◌then◌else◌, inl, inr, leb,
  length, length-append, le→leb, ltb, min, refl, sym, true, ℕ, ◌%◌, ◌++◌, ◌+◌, ◌-◌, ◌<◌, ◌==◌, ◌^◌,
  ◌||◌, ◌∙◌, ◌∷◌, ◌≡◌, ◌≤◌,
}
use actor_network.Packet.Impl.{size}
use actor_network.Tcp.Core.{Align, BigEndian}
use actor_network.Tcp.Option.RoundTrip.{fill-parse}
use actor_network.Tcp.Seq.{add}
use actor_network.Tcp.Seq.Order.{add-add}
use actor_network.Tcp.Tcb.{
  HwFeatures, Send, Sent, Tcb, Unacked, ack_needs_on, closed, is_empty, is_in, syn_needs_on, w32,
}
use actor_network.Tcp.Tcb.Reader.{joined}
use actor_network.Tcp.Tcb.Transmit.{
  can_send, get_transmit_packet, keep_unacked, max_payload, output_one, prepared, sendable,
  take_unsent,
}
use actor_network.Tcp.Tcb.Transmit.Queue.{in_flight, take_unsent-joined}

-- The connection has the bytes `bs` to deliver: those in flight from SND.UNA on, up to SND.NXT, and
-- then those that wait.
pub record InOrder (bs : List ℕ) (s : Send) : Type 0 where
  pub holds : in_flight s.unacked ++ joined s.unsent ≡ bs
  pub counted : s.next ≡ add s.unacknowledged (length (in_flight s.unacked))
  pub unsent_counted : s.unsent_len ≡ length (joined s.unsent)
  pub fits : length bs < 2 ^ 31

pub in_flight-append : (us vs : List Unacked) → in_flight (us ++ vs) ≡ in_flight us ++ in_flight vs
in_flight-append [] vs = refl
in_flight-append (u ∷ us) vs =
    ap (◌++◌ u.bytes) (in_flight-append us vs)
    ∙ sym (append_assoc u.bytes (in_flight us) (in_flight vs))

module _ (hw : HwFeatures) (now : ℕ) (bs : List ℕ) (s : Send) (v : InOrder bs s) where
  -- The payload that is moved from those that wait to those in flight.
  moved-InOrder :
      (p : List ℕ) (left : List (List ℕ)) (limited : ℕ)
      → p ++ joined left ≡ joined s.unsent
      → length p < 2 ^ 16
      → InOrder bs (
          keep_unacked now p (record s {
            limited_transfer = limited;
            unsent = left;
            unsent_len = w32 (s.unsent_len + 2 ^ 32 - length p);
            next = add s.next (length p % 2 ^ 16);
          }))
  moved-InOrder p left limited e small = record {
    holds = kept;
    counted = counts;
    unsent_counted = omega (arith, v.unsent_counted, split, v.fits, total);
    fits = v.fits;
  }
    where
      len : ℕ
      len = length p % 2 ^ 16

      queue : List Unacked
      queue =
          if len == 0
          then s.unacked
          else s.unacked
            ++ record { bytes = p; data_len = len; nr_transmits = 0; tx_time = now } ∷ []

      split : length p + length (joined left) ≡ length (joined s.unsent)
      split = sym (length-append p (joined left)) ∙ ap length e

      total : length (in_flight s.unacked) + length (joined s.unsent) ≡ length bs
      total = sym (length-append (in_flight s.unacked) (joined s.unsent)) ∙ ap length v.holds

      flies : in_flight queue ≡ in_flight s.unacked ++ p
      flies = elim (Bool-cases (length p % 2 ^ 16 == 0)) [
        | inl none_sent ↦ rw none_sent (
            sym (append-nil (in_flight s.unacked))
            ∙ ap (◌++◌ (in_flight s.unacked)) (sym (no_bytes p (ground arith))))
        | inr some_sent ↦
            rw some_sent
              (in_flight-append s.unacked _ ∙ ap (◌++◌ (in_flight s.unacked)) (append-nil p))
      ]
        where
          no_bytes : (q : List ℕ) → length q ≡ 0 → q ≡ []
          no_bytes [] h = refl
          no_bytes (x ∷ q) h = absurd (omega arith)

      kept : in_flight queue ++ joined left ≡ bs
      kept =
          ap (λ q. q ++ joined left) flies
          ∙ append_assoc (in_flight s.unacked) p (joined left)
          ∙ ap (◌++◌ (in_flight s.unacked)) e
          ∙ v.holds

      counts : add s.next len ≡ add s.unacknowledged (length (in_flight queue))
      counts =
          ap (λ n. add n len) v.counted
          ∙ add-add s.unacknowledged (length (in_flight s.unacked)) len
          ∙ ap (add s.unacknowledged)
              (omega (arith, ap length flies, length-append (in_flight s.unacked) p))

  transmitted-InOrder :
      w32 (max_payload hw s) < 2 ^ 16
      → InOrder bs (
          keep_unacked now (get_transmit_packet hw s).0 (record (get_transmit_packet hw s).1 {
            next =
                add
                  (get_transmit_packet hw s).1.next
                  (length (get_transmit_packet hw s).0 % 2 ^ 16);
          }))
  unfolding get_transmit_packet can_send
  transmitted-InOrder small = elim (Bool-cases (is_empty s.unsent)) [
    | inl e ↦ rw e (record {
      holds = v.holds;
      counted =
          ap (λ n. add n 0) v.counted
          ∙ add-add s.unacknowledged _ 0
          ∙ ap (add s.unacknowledged) (omega arith);
      unsent_counted = v.unsent_counted;
      fits = v.fits;
    })
    | inr e ↦
        let n = min (sendable s) (w32 (max_payload hw s)) in
        let (split, few) = take_unsent-joined n s.unsent in
        rw e (
          moved-InOrder (take_unsent n s.unsent).0 (take_unsent n s.unsent).1 _ split
            (omega (arith, few)))
  ]

-- The assertion on a closed window holds: what is sent into it is a byte at most.
sendable_probe : (s : Send) → s.window ≡ 0 → sendable s ≤ 1
unfolding sendable
sendable_probe s e = ground arith

payload_allowed :
    (hw : HwFeatures) (s : Send)
    → (ltb 0 (get_transmit_packet hw s).1.window
        || leb (length (get_transmit_packet hw s).0 % 2 ^ 16) 1)
      ≡ true
unfolding get_transmit_packet can_send
payload_allowed hw s = elim (Bool-cases (ltb 0 s.window)) [
  | inl e ↦ elim (Bool-cases (is_empty s.unsent)) [
    | inl f ↦ rw (f, e) refl
    | inr f ↦ rw (f, e) refl
  ]
  | inr e ↦ elim (Bool-cases (is_empty s.unsent)) [
    | inl f ↦ rw (f, e) refl
    | inr f ↦
        let n = min (sendable s) (w32 (max_payload hw s)) in
        let (split, few) = take_unsent-joined n s.unsent in
        rw (f, e)
          (le→leb (length (take_unsent n s.unsent).0 % 2 ^ 16) 1
            (omega (arith, few, sendable_probe s (ground arith))))
  ]
]

-- `output_one(false)` fails no assertion: the options fit, and so does the payload.
output_one_Returns :
    (P : Tcb → Type 0) (be : BigEndian) (core : Align) (hw : HwFeatures) (now : ℕ) (t : Tcb)
    → t.option.local_mss < 2 ^ 16
    → P t
    → ((q : List Sent) → P (record (prepared be core hw now t) { packetq = q }))
    → Returns (output_one be core hw now t) P
unfolding output_one
output_one_Returns P be core hw now t small h all =
    let (opts, filled, size, words, tells) =
      fill-parse be core t.option t.option (syn_needs_on t) (ack_needs_on t) small in
    elim (Bool-cases (is_in t.state (closed ∷ []))) [
      | inl e ↦ rw e h
      | inr e ↦ rw (e, filled, payload_allowed hw t.snd) (all _)
    ]

-- Sending a segment, when there is one to send, fails no assertion, and moves bytes from those that
-- wait to those in flight: together they stay the bytes to deliver, in order, and SND.NXT counts
-- them. The device takes less than 2 ^ 16 bytes at once, and the MSS is a 16-bit number.
pub output_one-InOrder :
    (be : BigEndian) (core : Align) (hw : HwFeatures) (now : ℕ) (bs : List ℕ) (t : Tcb)
    → InOrder bs t.snd
    → w32 (max_payload hw t.snd) < 2 ^ 16
    → t.option.local_mss < 2 ^ 16
    → Returns (output_one be core hw now t) (λ c. InOrder bs c.snd)
output_one-InOrder be core hw now bs t v small mss_small =
    output_one_Returns (λ c. InOrder bs c.snd) be core hw now t mss_small v
      (λ q. transmitted-InOrder hw now bs t.snd v small)
