-- ===== src/Tcp/Tcb/Machine/Reach.antt =====
-- The events of a connection as a step relation, and what holds of every state that it reaches.
use actor_network.Prelude.{
  Ensures, List, Option, ap, arith, inl, refl, some, subst, ℕ, ◌<◌, ◌∙◌, ◌≡◌, ◌⊎◌,
}
use actor_network.Tcp.Core.{Align, BigEndian}
use actor_network.Tcp.Header.{TcpHdr}
use actor_network.Tcp.Tcb.{
  HwFeatures, Sent, Tcb, TcpState, cleanup, close_wait, closed, closing, established, fin_wait_1,
  fin_wait_2, last_ack, listen, output, syn_received, syn_sent, time_wait,
}
use actor_network.Tcp.Tcb.Api.{
  close, close_acked, send, shutdown_connect, wait_for_all_data_acked, wait_send_available,
}
use actor_network.Tcp.Tcb.Machine.Diagram.{
  Follows, Follows-refl, FollowsSegment, FollowsSegment-Follows,
}
use actor_network.Tcp.Tcb.Machine.Edges.{input_handle_other_state-Follows}
use actor_network.Tcp.Tcb.Machine.Events.{
  close_acked-Follows, get_packet-Follows, input_handle_syn_sent_state-Follows, persist-Follows,
  retransmit-Follows,
}
use actor_network.Tcp.Tcb.Open.{input_handle_syn_sent_state}
use actor_network.Tcp.Tcb.Reader.{abort_reader, read, wait_for_data}
use actor_network.Tcp.Tcb.Segment.Input.{input_handle_other_state}
use actor_network.Tcp.Tcb.Timers.{delayed_ack_fires, persist, retransmit}
use actor_network.Tcp.Tcb.Transmit.{get_packet}

module _ (be : BigEndian) (core : Align) (hw : HwFeatures) where
  -- An event of an opened connection that the code survives: a segment, a timer, a poll of the device,
  -- or a call of the socket. The clock says any time.
  pub data Step (t c : Tcb) : Type 0 where
    segment_syn_sent :
        (now : ℕ) (h : TcpHdr) (bytes : List ℕ)
        → t.state ≡ syn_sent
        → input_handle_syn_sent_state be hw now h bytes t ≡ some c
        → Step t c
    segment_other :
        (now : ℕ) (h : TcpHdr) (bytes : List ℕ)
        → input_handle_other_state be core hw now h bytes t ≡ some c
        → Step t c
    retransmit_fires : (now : ℕ) → retransmit be core hw now t ≡ some c → Step t c
    persist_fires : (now : ℕ) → persist be core hw now t ≡ some c → Step t c
    delayed_ack_fires_now : c ≡ delayed_ack_fires t → Step t c
    polled_now : (now : ℕ) (p : Option Sent) → get_packet be core hw now t ≡ some (p, c) → Step t c
    sends : (p : List ℕ) → c ≡ (send p t).1 → Step t c
    closes : c ≡ (close t).1 → Step t c
    closes_acked : (now : ℕ) → close_acked be core hw now t ≡ some c → Step t c
    shuts_down : c ≡ (shutdown_connect t).1 → Step t c
    reads : c ≡ (read t).1 → Step t c
    waits : c ≡ (wait_for_data t).1 → Step t c

  pub data Reach (t : Tcb) : Tcb → Type 0 where
    at_start : Reach t t
    then_step : {c d : Tcb} → Reach t c → Step c d → Reach t d

  result_of : {A : Type 0} (P : A → Type 0) (m : Option A) (a : A) → Ensures m P → m ≡ some a → P a
  result_of P m a h e = subst (λ o. Ensures o P) e h

  send-state : (p : List ℕ) (t : Tcb) → (send p t).1.state ≡ t.state
  unfolding send wait_send_available output
  send-state p t = ground arith

  close-state : (t : Tcb) → (close t).1.state ≡ t.state
  unfolding close wait_for_all_data_acked
  close-state t = ground arith

  abort_reader-state : (t : Tcb) → (abort_reader t).state ≡ t.state
  unfolding abort_reader
  abort_reader-state t = ground arith

  shutdown_connect-state : (t : Tcb) → (shutdown_connect t).1.state ≡ t.state
  unfolding shutdown_connect cleanup
  shutdown_connect-state t = ground (arith, close-state (abort_reader t), abort_reader-state t)

  wait_for_data-state : (t : Tcb) → (wait_for_data t).1.state ≡ t.state
  unfolding wait_for_data
  wait_for_data-state t = ground arith

  -- Every event keeps the state or follows an edge of the state diagram of RFC 793.
  pub Step-Follows : (t c : Tcb) → Step t c → Follows t.state c.state
  unfolding delayed_ack_fires output read
  Step-Follows t c (segment_syn_sent now h bytes s e) =
      result_of (λ d. Follows t.state d.state) _ c
        (input_handle_syn_sent_state-Follows be core hw now h bytes t s) e
  Step-Follows t c (segment_other now h bytes e) = FollowsSegment-Follows h t.state c.state (
      result_of (λ d. FollowsSegment h t.state d.state) _ c
        (input_handle_other_state-Follows be core hw now h bytes t) e)
  Step-Follows t c (retransmit_fires now e) =
      result_of (λ d. Follows t.state d.state) _ c (retransmit-Follows be core hw now t) e
  Step-Follows t c (persist_fires now e) =
      result_of (λ d. Follows t.state d.state) _ c (persist-Follows be core hw now t) e
  Step-Follows t c (delayed_ack_fires_now e) = Follows-refl t.state c.state (ap (λ d. d.state) e)
  Step-Follows t c (polled_now now p e) =
      result_of (λ r. Follows t.state r.1.state) _ (p, c) (get_packet-Follows be core hw now t) e
  Step-Follows t c (sends p e) = Follows-refl t.state c.state (ap (λ d. d.state) e ∙ send-state p t)
  Step-Follows t c (closes e) = Follows-refl t.state c.state (ap (λ d. d.state) e ∙ close-state t)
  Step-Follows t c (closes_acked now e) =
      result_of (λ d. Follows t.state d.state) _ c (close_acked-Follows be core hw now t) e
  Step-Follows t c (shuts_down e) =
      Follows-refl t.state c.state (ap (λ d. d.state) e ∙ shutdown_connect-state t)
  Step-Follows t c (reads e) = Follows-refl t.state c.state (ap (λ d. d.state) e)
  Step-Follows t c (waits e) =
      Follows-refl t.state c.state (ap (λ d. d.state) e ∙ wait_for_data-state t)

-- How far a connection has come.
abbrev pub stage : TcpState → ℕ
stage listen = 0
stage syn_sent = 0
stage syn_received = 1
stage established = 2
stage fin_wait_1 = 3
stage fin_wait_2 = 4
stage close_wait = 3
stage closing = 4
stage last_ack = 4
stage time_wait = 5
stage closed = 6

abbrev pub Advances : TcpState → TcpState → Type 0
Advances s s' = (s' ≡ s) ⊎ (stage s < stage s')

Follows-Advances : (s s' : TcpState) → Follows s s' → Advances s s'
Follows-Advances s s' h = ground arith

Advances-trans : (s s' s'' : TcpState) → Advances s s' → Advances s' s'' → Advances s s''
Advances-trans s s' s'' h k = ground arith

module _ (be : BigEndian) (core : Align) (hw : HwFeatures) where
  -- Whatever events of Step happen to a connection, as long as the code survives them, it stays in its state or comes to a later one: the
  -- handshake's states, then ESTABLISHED, the states of closing, TIME_WAIT and CLOSED. So no state is
  -- entered twice, and CLOSED is final.
  pub Reach-Advances : {t c : Tcb} → Reach be core hw t c → Advances t.state c.state
  Reach-Advances at_start = inl refl
  Reach-Advances {t} {c} (then_step {c = m} r s) =
      Advances-trans t.state m.state c.state (Reach-Advances r)
        (Follows-Advances m.state c.state (Step-Follows be core hw m c s))
