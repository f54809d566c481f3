-- ===== src/Tcp/Tcb/Tests.antt =====
-- The connection at concrete states and segments.
use actor_network.Prelude.{
  List, Option, Returns, [], arith, map, none, refl, replicate, some, true, ℕ, ◌++◌, ◌>>=◌, ◌∷◌,
  ◌≡◌,
}
use actor_network.Merger.{Segment}
use actor_network.Merger.Laws.{IsMerged}
use actor_network.Merger.Segments.{Apart}
use actor_network.Tcp.Option.{TcpOption, fill, get_size, parse, parsed}
use actor_network.Tcp.Samples.{
  card, conn, fin_hdr, in_flight_segment, receiving, sending, seq_at, syn_hdr,
}
use actor_network.Tcp.Seq.{add, diff, seq_eq, seq_ge, seq_le}
use actor_network.Tcp.Tcb.{Tcb, TcpState, close_wait}
use actor_network.Tcp.Tcb.Acks.{data_segment_acked}
use actor_network.Tcp.Tcb.Api.{send}
use actor_network.Tcp.Tcb.Machine.GivesUp.{Retries, retransmit-Retries}
use actor_network.Tcp.Tcb.Machine.Reach.{
  Advances, Reach-Advances, at_start, reads, segment_other, then_step,
}
use actor_network.Tcp.Tcb.Open.{init_from_options}
use actor_network.Tcp.Tcb.Open.Window.{init_from_options-update_cwnd}
use actor_network.Tcp.Tcb.Rate.{update_cwnd}
use actor_network.Tcp.Tcb.Reader.{joined, read, segment_acceptable}
use actor_network.Tcp.Tcb.Reader.Acceptable.{acceptable, segment_acceptable-acceptable}
use actor_network.Tcp.Tcb.Reader.OutOfOrder.{insert_out_of_order}
use actor_network.Tcp.Tcb.Reader.Refines.{insert_out_of_order-merge}
use actor_network.Tcp.Tcb.Reader.Shifted.{at_seq}
use actor_network.Tcp.Tcb.Reader.Stream.{Got, Pieces, Reads, accept_text-Reads}
use actor_network.Tcp.Tcb.Segment.{accept_text}
use actor_network.Tcp.Tcb.Segment.Input.{input_handle_other_state}
use actor_network.Tcp.Tcb.Stream.{InOrder, output_one-InOrder}
use actor_network.Tcp.Tcb.Stream.Acked.{Acked, data_segment_acked-Acked}
use actor_network.Tcp.Tcb.Stream.Transfer.{Transfer-delivered, gives, started, transmits}
use actor_network.Tcp.Tcb.Transmit.{output_one}
use actor_network.Tcp.Tcb.Transmit.Queue.{in_flight}
use actor_network.Tcp.Tests.{big_endian, core_align, fresh_option}

abbrev to_deliver : List ℕ
to_deliver = 1 ∷ 2 ∷ 3 ∷ 4 ∷ 5 ∷ 6 ∷ 7 ∷ []

abbrev waits_and_next : Tcb → List (List ℕ) × ℕ
waits_and_next c = (c.snd.unsent, c.snd.next.raw)

abbrev flies_and_acked : Tcb × ℕ → List ℕ × ℕ
flies_and_acked (c, n) = (in_flight c.snd.unacked, n)

abbrev received_and_next : Tcb → List (List ℕ) × ℕ
received_and_next c = (c.rcv.received, c.rcv.next.raw)

abbrev state_and_next : Tcb → TcpState × ℕ
state_and_next c = (c.state, c.rcv.next.raw)

-- The segment takes both packets that wait.
output_one_payload :
    (output_one big_endian core_align card 600 conn >>= λ c. some (waits_and_next c)) ≡ some ([], 5)
unfolding output_one add fill get_size diff
output_one_payload = refl

-- A partial acknowledgement cuts the segment in flight.
data_segment_acked_partial :
    (data_segment_acked 600 (seq_at 1) conn >>= λ r. some (flies_and_acked r)) ≡ some (4 ∷ [], 3)
unfolding data_segment_acked seq_le add
data_segment_acked_partial = refl

-- The missing byte closes the first gap.
accept_text_gap :
    received_and_next (accept_text 600 (12 ∷ []) conn).1
    ≡ ((10 ∷ 11 ∷ []) ∷ (12 ∷ []) ∷ (13 ∷ 14 ∷ []) ∷ [], 105)
unfolding accept_text seq_le add seq_ge
accept_text_gap = refl

sending-InOrder : InOrder to_deliver sending
unfolding add
sending-InOrder = record { holds = refl; counted = refl; unsent_counted = refl; fits = omega arith }

output_one-InOrder_example :
    Returns (output_one big_endian core_align card 600 conn) (λ c. InOrder to_deliver c.snd)
output_one-InOrder_example =
    output_one-InOrder big_endian core_align card 600 to_deliver conn sending-InOrder (omega arith)
      (omega arith)

three_on : seq_at 1 ≡ add (seq_at 0xffff_fffe) 3
unfolding add
three_on = refl

data_segment_acked-Acked_example :
    Returns
      (data_segment_acked 600 (seq_at 1) conn)
      (λ r. Acked 600 (seq_at 1) to_deliver 3 r.0 r.1)
data_segment_acked-Acked_example =
    data_segment_acked-Acked 600 (seq_at 1) to_deliver 3 conn sending-InOrder (omega arith) three_on
      (omega arith) (omega arith) (omega arith) (omega arith)

abbrev stream : List ℕ
stream = 10 ∷ 11 ∷ 12 ∷ 13 ∷ 14 ∷ 15 ∷ 16 ∷ 17 ∷ 18 ∷ []

receiving-Got : Got (seq_at 100) stream [] 2 receiving
unfolding add
receiving-Got = record { order = refl; edge = refl; inside = omega arith }

waiting-Pieces : Pieces (seq_at 100) stream [] receiving.out_of_order
unfolding add
waiting-Pieces = (
  record { offset = 3; starts = refl; fits = omega arith; text = refl },
  (record { offset = 7; starts = refl; fits = omega arith; text = refl }, tt),
)

accept_text-Reads_example : Reads (seq_at 100) stream [] 3 (accept_text 600 (12 ∷ []) conn).1.rcv
accept_text-Reads_example =
    accept_text-Reads (seq_at 100) stream [] (omega arith) 600 2 (12 ∷ []) conn receiving-Got
      waiting-Pieces (omega arith) (omega arith) refl

abbrev waiting : List Segment
waiting = record { beg = 3; bytes = 13 ∷ 14 ∷ [] } ∷ record { beg = 7; bytes = 17 ∷ [] } ∷ []

waiting-Apart : Apart 0 waiting
waiting-Apart = (omega arith, (omega arith, tt))

insert_out_of_order-merge_example :
    Returns
      (insert_out_of_order (add (seq_at 100) 5) (15 ∷ 16 ∷ []) (map (at_seq (seq_at 100)) waiting))
      (λ q.
        (r : List Segment) × (q ≡ map (at_seq (seq_at 100)) r)
        × IsMerged 5 (15 ∷ 16 ∷ []) waiting r)
insert_out_of_order-merge_example =
    insert_out_of_order-merge (seq_at 100) 5 (15 ∷ 16 ∷ []) waiting (omega arith)
      (omega arith, (omega arith, tt)) waiting-Apart

retransmit-Retries_example : Retries big_endian core_align card in_flight_segment.bytes 2 conn
retransmit-Retries_example =
    retransmit-Retries big_endian core_align card 2 1500 in_flight_segment [] conn refl refl
      (omega arith) (omega arith) refl refl

segment_acceptable-acceptable_example :
    segment_acceptable (seq_at 100) 3 receiving ≡ acceptable (seq_at 100) 3 receiving
segment_acceptable-acceptable_example =
    segment_acceptable-acceptable (seq_at 100) 3 receiving (omega arith) (omega arith) (omega arith)

-- The options of a SYN from a peer: an MSS of 0, or of 256.
abbrev told_mss : ℕ → TcpOption
told_mss n = record fresh_option { mss_received = true; remote_mss = n }

parsed_mss_0 : parse big_endian (2 ∷ 4 ∷ 0 ∷ 0 ∷ []) conn.option ≡ parsed (told_mss 0)
unfolding parse
parsed_mss_0 = refl

init_from_options-update_cwnd_example :
    Returns
      (init_from_options big_endian card syn_hdr (2 ∷ 4 ∷ 0 ∷ 0 ∷ []) conn)
      (λ c. (n : ℕ) → update_cwnd n c.snd ≡ none)
init_from_options-update_cwnd_example =
    init_from_options-update_cwnd big_endian card syn_hdr (2 ∷ 4 ∷ 0 ∷ 0 ∷ []) conn (told_mss 0)
      parsed_mss_0 (omega arith) refl refl

-- The FIN acknowledges everything too, and leads to CLOSE_WAIT.
fin_leads :
    (input_handle_other_state big_endian core_align card 600 fin_hdr (replicate 20 0) conn >>= λ c.
    some (state_and_next c))
    ≡ some (close_wait, 103)
unfolding input_handle_other_state seq_le add seq_eq
fin_leads = refl

abbrev or_conn : Option Tcb → Tcb
or_conn none = conn
or_conn (some c) = c

abbrev after_fin : Tcb
after_fin =
    or_conn (input_handle_other_state big_endian core_align card 600 fin_hdr (replicate 20 0) conn)

fin_returns :
    input_handle_other_state big_endian core_align card 600 fin_hdr (replicate 20 0) conn
    ≡ some after_fin
unfolding input_handle_other_state seq_le add seq_eq
fin_returns = refl

Reach-Advances_example : Advances conn.state (read after_fin).1.state
Reach-Advances_example = Reach-Advances big_endian core_align card (
    then_step (then_step at_start (segment_other 600 fin_hdr (replicate 20 0) fin_returns))
      (reads refl))

-- A connection with nothing to send, one packet given, and sent.
abbrev idle : Tcb
idle = record conn {
  snd = record sending { next = seq_at 0xffff_fffe; unacked = []; unsent = []; unsent_len = 0 };
}

idle-InOrder : InOrder [] idle.snd
unfolding add
idle-InOrder = record { holds = refl; counted = refl; unsent_counted = refl; fits = omega arith }

abbrev after_send : Tcb
after_send = (send (1 ∷ 2 ∷ 3 ∷ []) idle).1

abbrev after_output : Tcb
after_output = or_conn (output_one big_endian core_align card 600 after_send)

output_returns : output_one big_endian core_align card 600 after_send ≡ some after_output
unfolding output_one send add fill get_size diff
output_returns = refl

Transfer-delivered_example :
    in_flight after_output.snd.unacked ++ joined after_output.snd.unsent ≡ 1 ∷ 2 ∷ 3 ∷ []
unfolding send diff
Transfer-delivered_example = Transfer-delivered big_endian core_align card {t = idle} idle-InOrder (
    transmits 600 (gives (1 ∷ 2 ∷ 3 ∷ []) started (omega arith) refl) (omega arith) (omega arith)
      output_returns)
