-- ===== src/Tcp/Tcb/Transmit.antt =====
-- What may be sent and what is sent: `can_send`, `get_transmit_packet`, `output_one` and
-- `get_packet`.
pub mod Window
pub mod Queue
use actor_network.Prelude.{
  Bool, List, Option, [], drop, false, if◌then◌else◌, leb, length, ltb, min, none, not, some, take,
  true, ℕ, ◌%◌, ◌&&◌, ◌*◌, ◌++◌, ◌+◌, ◌-◌, ◌/◌, ◌==◌, ◌>>=◌, ◌^◌, ◌||◌, ◌∷◌,
}
use actor_network.Tcp.Core.{Align, BigEndian}
use actor_network.Tcp.Header.{TcpHdr}
use actor_network.Tcp.Option.{fill, get_size}
use actor_network.Tcp.Seq.{TcpSeq, add, diff}
use actor_network.Tcp.Tcb.{
  HwFeatures, Send, Sent, Tcb, Unacked, ack_needs_on, closed, fin_needs_on, is_empty, is_in,
  local_mss, output, output_if, syn_needs_on, w32,
}

unfoldable pub flight_size : List Unacked → ℕ
flight_size [] = 0
flight_size (seg ∷ segs) = w32 (length seg.bytes + flight_size segs)

-- The number of bytes that `can_send` gives.
unfoldable pub sendable : Send → ℕ
unfolding flight_size
sendable s =
    let used = diff s.next s.unacknowledged in
    let x = min s.cwnd (min (s.window - used) s.unsent_len) in
    let flight = flight_size s.unacked in
    let most = w32 (s.cwnd + 2 * s.mss) in
    if s.window_probe
    then 1
    else if s.window == 0
    then 0
    else if ltb s.window used
    then 0
    else if s.dupacks == 1 || s.dupacks == 2
    then (if leb flight most then min x (most - flight) else 0)
    else if leb 3 s.dupacks
    then min s.mss x
    else x

-- Each call in the phase of limited transmit counts what it gives.
abbrev pub is_limited : Send → Bool
is_limited s =
    not s.window_probe
    && (not (s.window == 0)
        && (leb (diff s.next s.unacknowledged) s.window && (s.dupacks == 1 || s.dupacks == 2)))

abbrev pub count_limited : Bool → Send → Send
count_limited b s = record s {
  limited_transfer =
      if b && is_limited s then w32 (s.limited_transfer + sendable s) else s.limited_transfer;
}

unfoldable pub can_send : Send → ℕ × Send
unfolding sendable
can_send s = (sendable s, count_limited true s)

-- The loop that merges whole packets: the bytes, the packets left, and what can still be sent.
unfoldable pub collect : ℕ → List (List ℕ) → List ℕ × List (List ℕ) × ℕ
collect n [] = ([], [], n)
collect n (p ∷ ps) =
    let (bytes, left, k) = collect (n - length p) ps in
    if leb (length p) n then (p ++ bytes, left, k) else ([], p ∷ ps, n)

-- The end of the hard case: a part of the next packet.
abbrev pub split_last : List ℕ × List (List ℕ) × ℕ → List ℕ × List (List ℕ)
split_last (bytes, [], k) = (bytes, [])
split_last (bytes, q ∷ qs, k) =
    if k == 0 then (bytes, q ∷ qs) else (bytes ++ take k q, drop k q ∷ qs)

-- The bytes taken off the packets that are not sent yet, at most `n`.
unfoldable pub take_unsent : ℕ → List (List ℕ) → List ℕ × List (List ℕ)
unfolding collect
take_unsent n [] = ([], [])
take_unsent n (p ∷ ps) =
    if ltb n (length p)
    then (take n p, drop n p ∷ ps)
    else split_last (let (bytes, left, k) = collect (n - length p) ps in (p ++ bytes, left, k))

module _ (hw : HwFeatures) where
  -- The payload that the device takes at once.
  abbrev pub max_payload : Send → ℕ
  max_payload s = if hw.tx_tso then hw.max_packet_len + 2 ^ 32 - 40 else min (local_mss hw) s.mss

  unfoldable pub get_transmit_packet : Send → List ℕ × Send
  unfolding can_send take_unsent
  get_transmit_packet s =
      if is_empty s.unsent
      then ([], s)
      else (let (n, s') = can_send s in
          let (p, left) = take_unsent (min n (w32 (max_payload s))) s.unsent in
          (p, record s' { unsent = left; unsent_len = w32 (s.unsent_len + 2 ^ 32 - length p) }))

-- The retransmission queue and the timer, when new data, a SYN or a FIN is sent.
abbrev pub arm_retransmit : Bool → ℕ → Tcb → Tcb
arm_retransmit told now t = record t {
  retransmit_at =
      if told
      then elim t.retransmit_at [ none ↦ some (now + t.rto) | some at ↦ some at ]
      else t.retransmit_at;
}

abbrev pub keep_unacked : ℕ → List ℕ → Send → Send
keep_unacked now p s =
    let len = length p % 2 ^ 16 in
    record s {
      unacked =
          if len == 0
          then s.unacked
          else s.unacked
            ++ record { bytes = p; data_len = len; nr_transmits = 0; tx_time = now } ∷ [];
    }

module _ (be : BigEndian) (core : Align) (hw : HwFeatures) where
  abbrev pub segment_hdr : Bool → TcpSeq → Tcb → TcpHdr
  segment_hdr fin_on seq t = record {
    src_port = t.local_port;
    dst_port = t.foreign_port;
    seq = seq;
    ack = t.rcv.next;
    rsvd1 = 0;
    data_offset = (20 + get_size be core t.option (syn_needs_on t) (ack_needs_on t)) / 4 % 2 ^ 4;
    f_fin = fin_on;
    f_syn = syn_needs_on t;
    f_rst = false;
    f_psh = false;
    f_ack = ack_needs_on t;
    f_urg = false;
    rsvd2 = 0;
    window = t.rcv.window / 2 ^ t.rcv.window_scale % 2 ^ 16;
    checksum = 0;
    urgent = 0;
  }

  -- The offload data, and the length for the pseudo header.
  abbrev segment : TcpHdr → List ℕ → List ℕ → Send → Sent
  segment h option_bytes p s =
      let len = length p % 2 ^ 16 in
      let splits = hw.tx_csum_l4_offload && hw.tx_tso && ltb s.mss len in
      record {
        hdr = h;
        option_bytes = option_bytes;
        payload = p;
        needs_csum = hw.tx_csum_l4_offload;
        tso_seg_size = if splits then s.mss else 0;
        pseudo_hdr_seg_len = if splits then 0 else (20 + length option_bytes + len) % 2 ^ 16;
      }

  -- The segment is queued, if the options could be written and the payload is allowed.
  abbrev pub push_segment : Option (List ℕ) → Bool → TcpHdr → List ℕ → Tcb → Option Tcb
  push_segment none allowed h p t = none
  push_segment (some opts) false h p t = none
  push_segment (some opts) true h p t =
      some (record t { packetq = t.packetq ++ segment h opts p t.snd ∷ [] })

  abbrev pub enqueue : TcpHdr → List ℕ → Tcb → Option Tcb
  enqueue h p t =
      push_segment
        (fill be core t.option h.f_syn h.f_ack (get_size be core t.option h.f_syn h.f_ack))
        (ltb 0 t.snd.window || leb (length p % 2 ^ 16) 1) h p t

  abbrev pub ack_sent : Tcb → Tcb
  ack_sent t = record t { delayed_ack = if ack_needs_on t then none else t.delayed_ack }

  -- The payload and the connection that `output_one(false)` makes, before the segment is queued.
  abbrev pub new_payload : Tcb → List ℕ
  new_payload t0 = (get_transmit_packet hw t0.snd).0

  abbrev pub unsent_taken : Tcb → Tcb
  unsent_taken t0 = ack_sent (record t0 { snd = (get_transmit_packet hw t0.snd).1 })

  abbrev pub first_seq : Tcb → TcpSeq
  first_seq t = if syn_needs_on t then t.snd.initial else t.snd.next

  abbrev pub prepared : ℕ → Tcb → Tcb
  prepared now t0 =
      let p = new_payload t0 in
      let t = unsent_taken t0 in
      let len = length p % 2 ^ 16 in
      arm_retransmit (ltb 0 len || (syn_needs_on t || fin_needs_on t)) now
        (record t { snd = keep_unacked now p (record t.snd { next = add t.snd.next len }) })

  -- `output_one(false)`.
  unfoldable pub output_one : ℕ → Tcb → Option Tcb
  unfolding get_transmit_packet
  output_one now t0 =
      let t = unsent_taken t0 in
      if is_in t0.state (closed ∷ [])
      then some t0
      else enqueue (segment_hdr (fin_needs_on t) (first_seq t) t) (new_payload t0) (prepared now t0)

  -- `output_one(true)`, of the earliest segment that is not acknowledged: the code takes the front of the
  -- queue without a test.
  abbrev pub resend : List Unacked → Tcb → Option Tcb
  resend [] t = none
  resend (seg ∷ rest) t =
      enqueue (segment_hdr (fin_needs_on t) t.snd.unacknowledged t) seg.bytes (ack_sent t)

  unfoldable pub retransmit_one : Tcb → Option Tcb
  retransmit_one t =
      let again = resend t.snd.unacked t in if is_in t.state (closed ∷ []) then some t else again

  -- The end of `get_packet`: whether the connection asks to be polled again.
  abbrev pub poll_again : Tcb → Tcb
  poll_again t =
      let busy = not (is_empty t.packetq) in
      let asked = not busy && ltb t.snd.dupacks 3 in
      output_if (busy || (asked && (ltb 0 (sendable t.snd) && ltb 0 t.snd.window)))
        (record t { snd = count_limited asked t.snd })

  abbrev pub first_packet : Tcb → Option (Option Sent × Tcb)
  first_packet t = elim t.packetq [
    | [] ↦ none
    | p ∷ ps ↦ some (some p, poll_again (record t { packetq = ps }))
  ]

  -- `get_packet`.
  unfoldable pub get_packet : ℕ → Tcb → Option (Option Sent × Tcb)
  unfolding output_one can_send output
  get_packet now t0 = do
    let idle = record t0 { poll_active = false }
    t ← if is_empty t0.packetq then output_one now idle else some idle
    if is_in t.state (closed ∷ []) then some (none, t) else first_packet t
