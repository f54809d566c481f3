-- ===== src/Tcp/Tcb/Machine/GivesUp.antt =====
-- A peer that does not answer: the data is sent again a number of times, and then the connection ends.
use actor_network.Prelude.{
  List, Option, Returns, Returns-bind, Returns_map, [], ap, arith, false, ltb, lt→ltb, min, none,
  refl, some, suc, zero, ℕ, ◌*◌, ◌++◌, ◌+◌, ◌<◌, ◌^◌, ◌∷◌, ◌≡◌, ◌≤◌,
}
use actor_network.Packet.Impl.{size}
use actor_network.Tcp.Core.{Align, BigEndian}
use actor_network.Tcp.Option.RoundTrip.{fill-parse}
use actor_network.Tcp.Tcb.{
  HwFeatures, Sent, Tcb, Unacked, ack_needs_on, cleanup, closed, do_reset, established, is_in,
  max_nr_retransmit, output, rto_max, syn_needs_on,
}
use actor_network.Tcp.Tcb.Timers.{
  count_transmit, output_update_rto, retransmit, retransmit_data, retransmit_fin, retransmit_syn,
  slow_start,
}
use actor_network.Tcp.Tcb.Transmit.{ack_sent, resend, retransmit_one}

-- The timer is set, and when it is due, the retransmission returns such a connection.
abbrev pub Fires : (ℕ → Tcb → Option Tcb) → Tcb → (ℕ → Tcb → Type 0) → Type 0
Fires fires t P = (at : ℕ) × (t.retransmit_at ≡ some at) × Returns (fires at t) (P at)

-- From `t` to `c` the bytes of the earliest segment are queued to be sent once more, at SND.UNA; the
-- timer is set again with the timeout doubled, and the segment stays the earliest in flight.
pub record IsResent (bytes : List ℕ) (now : ℕ) (t c : Tcb) : Type 0 where
  pub packet : Sent
  pub queued : c.packetq ≡ t.packetq ++ packet ∷ []
  pub payload : packet.payload ≡ bytes
  pub seq : packet.hdr.seq ≡ t.snd.unacknowledged
  pub una_kept : c.snd.unacknowledged ≡ t.snd.unacknowledged
  pub state_is : c.state ≡ established
  pub backed_off : c.rto ≡ min (t.rto * 2) rto_max
  pub timer : c.retransmit_at ≡ some (now + c.rto)

-- The timer fires `n` times with these bytes sent again at each time, and then once more, when the
-- connection ends.
abbrev pub Retries : BigEndian → Align → HwFeatures → List ℕ → ℕ → Tcb → Type 0
Retries be core hw bytes zero t =
    Fires (retransmit be core hw) t (λ at c. (c.state ≡ closed) × (c.retransmit_at ≡ none))
Retries be core hw bytes (suc n) t =
    Fires (retransmit be core hw) t (λ at c. IsResent bytes at t c × Retries be core hw bytes n c)

module _ (be : BigEndian) (core : Align) (hw : HwFeatures) where
  first_resent :
      (P : Tcb → Type 0) (seg : Unacked) (rest us : List Unacked) (t : Tcb)
      → us ≡ seg ∷ rest
      → 0 < t.snd.window
      → t.option.local_mss < 2 ^ 16
      → ((packet : Sent)
          → packet.payload ≡ seg.bytes
          → packet.hdr.seq ≡ t.snd.unacknowledged
          → P (record (ack_sent be core hw t) { packetq = t.packetq ++ packet ∷ [] }))
      → Returns (resend be core hw us t) P
  first_resent P seg rest [] t f opened small all = cc
  first_resent P seg rest (u ∷ us) t f opened small all =
      let (opts, filled, size, words, tells) =
        fill-parse be core t.option t.option (syn_needs_on t) (ack_needs_on t) small in
      let same : u.bytes ≡ seg.bytes = cc in
      rw (filled, lt→ltb 0 t.snd.window opened) (all _ same refl)

  resend-Returns :
      (P : Tcb → Type 0) (seg : Unacked) (rest : List Unacked) (t : Tcb)
      → t.state ≡ established
      → t.snd.unacked ≡ seg ∷ rest
      → 0 < t.snd.window
      → t.option.local_mss < 2 ^ 16
      → ((packet : Sent)
          → packet.payload ≡ seg.bytes
          → packet.hdr.seq ≡ t.snd.unacknowledged
          → P (record (ack_sent be core hw t) { packetq = t.packetq ++ packet ∷ [] }))
      → Returns (retransmit_one be core hw t) P
  unfolding retransmit_one
  resend-Returns P seg rest t e f opened small all =
      rw (ap (λ s. is_in s (closed ∷ [])) e)
        (first_resent P seg rest t.snd.unacked t f opened small all)

  -- The connection waits for the next retransmission, with the timeout doubled.
  record Waits (now : ℕ) (seg : Unacked) (rest : List Unacked) (t c : Tcb) : Type 0 where
    resent : IsResent seg.bytes now t c
    first : c.snd.unacked ≡ seg ∷ rest
    window_opened : 0 < c.snd.window
    mss_small : c.option.local_mss < 2 ^ 16

  sent_again :
      (now : ℕ) (seg : Unacked) (rest : List Unacked) (t : Tcb)
      → t.state ≡ established
      → t.snd.unacked ≡ seg ∷ rest
      → 0 < t.snd.window
      → t.option.local_mss < 2 ^ 16
      → seg.nr_transmits < 5
      → Returns (retransmit be core hw now t) (Waits now (count_transmit be core hw seg) rest t)
  unfolding retransmit retransmit_syn retransmit_fin retransmit_data output_update_rto output
  sent_again now seg rest t e f opened small few =
      let slow = slow_start be core hw seg (record t.snd { unacked = seg ∷ rest }) in
      let c = record t {
        state = established;
        retransmit_at = none;
        snd = record slow { unacked = count_transmit be core hw seg ∷ rest };
      } in
      rw (e, f, lt→ltb seg.nr_transmits max_nr_retransmit few)
        (Returns-bind
          (λ d.
            Waits now (count_transmit be core hw seg) rest
              (record t { state = established; snd = record t.snd { unacked = seg ∷ rest } })
              (output_update_rto be core hw now d))
          _ (retransmit_one be core hw c) _
          (resend-Returns _ (count_transmit be core hw seg) rest c refl refl opened small
            (λ packet p s. record {
              resent = record {
                packet = packet;
                queued = refl;
                payload = p;
                seq = s;
                una_kept = refl;
                state_is = refl;
                backed_off = refl;
                timer = refl;
              };
              first = refl;
              window_opened = opened;
              mss_small = small;
            }))
          (λ d w. w))

  given_up :
      (now : ℕ) (seg : Unacked) (rest : List Unacked) (t : Tcb)
      → t.state ≡ established
      → t.snd.unacked ≡ seg ∷ rest
      → 5 ≤ seg.nr_transmits
      → Returns (retransmit be core hw now t) (λ c. (c.state ≡ closed) × (c.retransmit_at ≡ none))
  unfolding retransmit retransmit_syn retransmit_fin retransmit_data do_reset cleanup
  given_up now seg rest t e f many = rw (e, f, leb→ltb seg.nr_transmits many) (refl, refl)
    where
      leb→ltb : (n : ℕ) → 5 ≤ n → ltb n max_nr_retransmit ≡ false
      leb→ltb n h = ground arith

-- While the peer does not answer, an established connection with data in flight and an opened window
-- queues the bytes of the earliest segment to be sent again at SND.UNA at each timeout, stays
-- ESTABLISHED, doubles the timeout up to its maximum and sets the timer again; a segment that has been
-- sent again k times is sent again 5 - k times more, and at the timeout after these the connection is
-- closed and has no timer. The MSS is a 16-bit number.
pub retransmit-Retries :
    (be : BigEndian) (core : Align) (hw : HwFeatures) (n at : ℕ) (seg : Unacked)
    (rest : List Unacked) (t : Tcb)
    → t.state ≡ established
    → t.snd.unacked ≡ seg ∷ rest
    → 0 < t.snd.window
    → t.option.local_mss < 2 ^ 16
    → t.retransmit_at ≡ some at
    → seg.nr_transmits + n ≡ 5
    → Retries be core hw seg.bytes n t
retransmit-Retries be core hw zero at seg rest t e f opened small timer counts =
    (at, timer, given_up be core hw at seg rest t e f (omega arith))
retransmit-Retries be core hw (suc n) at seg rest t e f opened small timer counts = (
  at,
  timer,
  Returns_map _ _ (retransmit be core hw at t)
      (sent_again be core hw at seg rest t e f opened small (omega arith))
      (λ c w. (
        w.resent,
        retransmit-Retries be core hw n _ (count_transmit be core hw seg) rest c w.resent.state_is
            w.first w.window_opened w.mss_small w.resent.timer (omega arith),
      )),
)
