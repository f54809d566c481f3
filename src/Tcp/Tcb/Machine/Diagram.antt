-- ===== src/Tcp/Tcb/Machine/Diagram.antt =====
-- The state diagram of RFC 793, and the steps on the FIN, the RST and the text along it.
use actor_network.Prelude.{
  Bool, List, [], arith, false, length, not, refl, true, ℕ, ◌&&◌, ◌||◌, ◌∷◌, ◌≡◌,
}
use actor_network.Tcp.Header.{TcpHdr}
use actor_network.Tcp.Seq.{TcpSeq, add}
use actor_network.Tcp.Tcb.{
  Tcb, TcpState, cleanup, close_wait, closed, closing, do_closed, do_reset, do_time_wait,
  established, fin_wait_1, fin_wait_2, is_in, last_ack, listen, output, signal_data_received,
  syn_received, syn_sent, time_wait,
}
use actor_network.Tcp.Tcb.Reader.{should_send_ack}
use actor_network.Tcp.Tcb.Segment.{
  Next, accept_fin, accept_text, check_fin, check_rst, done, finish_segment, go, process_text,
}
use actor_network.Tcp.Tcb.Segment.Ack.{ack_fin}

-- The states that may follow a state of a connection that was opened.
abbrev pub successors : TcpState → List TcpState
successors closed = []
successors listen = closed ∷ []
successors syn_sent = syn_received ∷ established ∷ closed ∷ []
successors syn_received = established ∷ close_wait ∷ closed ∷ []
successors established = fin_wait_1 ∷ close_wait ∷ closed ∷ []
successors fin_wait_1 = fin_wait_2 ∷ closing ∷ time_wait ∷ closed ∷ []
successors fin_wait_2 = time_wait ∷ closed ∷ []
successors close_wait = last_ack ∷ closed ∷ []
successors closing = time_wait ∷ closed ∷ []
successors last_ack = closed ∷ []
successors time_wait = closed ∷ []

abbrev pub Follows : TcpState → TcpState → Type 0
Follows s s' = is_in s' (s ∷ successors s) ≡ true

-- The states that `input_handle_other_state` may take a connection to: with a RST or a SYN, without
-- a RST by the ACK field, and with a FIN that is taken besides.
abbrev pub reset_successors : TcpState → List TcpState
reset_successors closed = []
reset_successors _ = closed ∷ []

abbrev pub ack_successors : TcpState → List TcpState
ack_successors syn_received = established ∷ []
ack_successors fin_wait_1 = fin_wait_2 ∷ []
ack_successors closing = time_wait ∷ []
ack_successors last_ack = closed ∷ []
ack_successors _ = []

abbrev pub ack_fin_successors : TcpState → List TcpState
ack_fin_successors syn_received = close_wait ∷ []
ack_fin_successors established = close_wait ∷ []
ack_fin_successors fin_wait_1 = closing ∷ time_wait ∷ []
ack_fin_successors fin_wait_2 = time_wait ∷ []
ack_fin_successors _ = []

abbrev pub FollowsSegment : TcpHdr → TcpState → TcpState → Type 0
FollowsSegment h s s' =
    (is_in s' (s ∷ reset_successors s)
      || (not h.f_rst
          && (is_in s' (ack_successors s) || (h.f_fin && is_in s' (ack_fin_successors s)))))
    ≡ true

abbrev pub NextState : (TcpState → Type 0) → Next → Type 0
NextState P (done t) = P t.state
NextState P (go d t) = P t.state

pub Follows-refl : (s s' : TcpState) → s' ≡ s → Follows s s'
Follows-refl s s' e = ground arith

pub FollowsSegment-refl : (h : TcpHdr) (s s' : TcpState) → s' ≡ s → FollowsSegment h s s'
FollowsSegment-refl h s s' e = ground arith

pub FollowsSegment-Follows : (h : TcpHdr) (s s' : TcpState) → FollowsSegment h s s' → Follows s s'
FollowsSegment-Follows h s s' k = ground arith

-- Only before the handshake a RST is passed over.
abbrev pub Passes : TcpHdr → TcpState → Type 0
Passes h s = (not h.f_rst || is_in s (closed ∷ listen ∷ syn_sent ∷ [])) ≡ true

pub check_rst-Follows : (t : Tcb) → NextState (Follows t.state) (check_rst t)
unfolding check_rst do_reset cleanup
check_rst-Follows t = ground arith

-- What the FIN leads to on its own.
abbrev pub fin_successors : TcpState → List TcpState
fin_successors syn_received = close_wait ∷ []
fin_successors established = close_wait ∷ []
fin_successors fin_wait_1 = closing ∷ []
fin_successors fin_wait_2 = time_wait ∷ []
fin_successors _ = []

abbrev pub FollowsAck : TcpState → TcpState → Type 0
FollowsAck s s' = is_in s' (s ∷ ack_successors s) ≡ true

abbrev pub FollowsFin : Bool → TcpState → TcpState → Type 0
FollowsFin fin s s' = (is_in s' (s ∷ []) || (fin && is_in s' (fin_successors s))) ≡ true

pub ack_fin-Follows :
    (h : TcpHdr) (d : Bool) (t : Tcb) → NextState (FollowsAck t.state) (ack_fin h d t)
unfolding ack_fin do_time_wait do_closed cleanup
ack_fin-Follows h d t = ground arith

pub accept_fin-Follows : (t : Tcb) → FollowsFin true t.state (accept_fin t).state
unfolding accept_fin do_time_wait cleanup output signal_data_received
accept_fin-Follows t = ground arith

pub accept_text-state : (now : ℕ) (p : List ℕ) (t : Tcb) → (accept_text now p t).1.state ≡ t.state
unfolding accept_text should_send_ack signal_data_received
accept_text-state now p t = ground arith

pub finish_segment-state : (a b : Bool) (t : Tcb) → (finish_segment a b t).state ≡ t.state
unfolding finish_segment
finish_segment-state a b t = refl

pub check_fin-Follows :
    (f : Bool) (fin_seq : TcpSeq) (a b : Bool) (t : Tcb)
    → FollowsFin f t.state (check_fin f fin_seq a b t).state
unfolding check_fin
check_fin-Follows f fin_seq a b t = ground (
  arith,
  accept_fin-Follows t,
  finish_segment-state a b t,
  finish_segment-state false b (accept_fin t),
)

pub process_text-Follows :
    (now : ℕ) (h : TcpHdr) (seg_seq : TcpSeq) (p : List ℕ) (d : Bool) (t : Tcb)
    → FollowsFin h.f_fin t.state (process_text now h seg_seq p d t).state
unfolding process_text
process_text-Follows now h seg_seq p d t =
    let fin_seq = add seg_seq (length p) in
    let r = accept_text now p t in
    ground (
      arith,
      accept_text-state now p t,
      check_fin-Follows h.f_fin fin_seq r.0 d r.1,
      check_fin-Follows h.f_fin fin_seq false d t,
    )

-- An ACK and then a FIN in one segment stay on the diagram.
pub FollowsSegment-ack_fin :
    (h : TcpHdr) (s s' s'' : TcpState)
    → Passes h s
    → FollowsAck s s'
    → FollowsFin h.f_fin s' s''
    → FollowsSegment h s s''
FollowsSegment-ack_fin h s s' s'' p a f = ground arith

abbrev pub NextSame : Tcb → Next → Type 0
NextSame t = NextState (λ s. s ≡ t.state)
