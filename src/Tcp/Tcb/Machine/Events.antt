-- ===== src/Tcp/Tcb/Machine/Events.antt =====
-- The other events along the state diagram: the handshake, the timers, and the calls of the socket.
use actor_network.Prelude.{
  Ensures, Ensures-bind, Ensures-if, Ensures_any, List, Option, [], arith, false, guard,
  if◌then◌else◌, ltb, none, refl, some, subst, true, ℕ, ◌%◌, ◌&&◌, ◌+◌, ◌^◌, ◌||◌, ◌∷◌, ◌≡◌,
}
use actor_network.Tcp.Core.{Align, BigEndian}
use actor_network.Tcp.Header.{TcpHdr}
use actor_network.Tcp.Option.{parse}
use actor_network.Tcp.Seq.{seq_gt, seq_le}
use actor_network.Tcp.Tcb.{
  HwFeatures, Sent, Tcb, TcpState, Unacked, cleanup, close_wait, closed, do_reset, do_syn_received,
  established, fin_wait_1, is_empty, is_in, last_ack, max_nr_retransmit, output, respond_with_reset,
  syn_sent,
}
use actor_network.Tcp.Tcb.Api.{close_acked}
use actor_network.Tcp.Tcb.Machine.{SameState, output_one_rule, retransmit_one_rule}
use actor_network.Tcp.Tcb.Machine.Diagram.{Follows, Follows-refl}
use actor_network.Tcp.Tcb.Open.{
  do_established, init_from_options, input_handle_syn_sent_state, option_bytes_of, parse_result,
  start_receiving, synchronise,
}
use actor_network.Tcp.Tcb.Rate.{update_rto, update_rto_if}
use actor_network.Tcp.Tcb.Timers.{
  Phase, count_transmit, on, output_update_rto, persist, retransmit, retransmit_data,
  retransmit_fin, retransmit_rest, retransmit_syn, slow_start, stopped, then_fin,
}
use actor_network.Tcp.Tcb.Transmit.{get_packet, output_one, poll_again, retransmit_one}

module _ (be : BigEndian) (core : Align) (hw : HwFeatures) (now : ℕ) where
  abbrev Moves : Tcb → Tcb → Type 0
  Moves t c = Follows t.state c.state

  init_from_options-state :
      (h : TcpHdr) (bytes : List ℕ) (t : Tcb)
      → Ensures (init_from_options be hw h bytes t) (SameState t)
  unfolding init_from_options
  init_from_options-state h bytes t =
      Ensures-bind (λ o. Unit {0}) (SameState t) (parse_result (parse be bytes t.option)) _
        (Ensures_any _)
        (λ o u.
          Ensures-bind (λ g. Unit {0}) (SameState t) (guard (ltb o.remote_win_scale 32)) _
            (Ensures_any _) (λ g v. refl))

  synchronise-Follows :
      (h : TcpHdr) (bytes : List ℕ) (t : Tcb)
      → t.state ≡ syn_sent
      → Ensures (synchronise be hw now h bytes t) (Moves t)
  unfolding synchronise do_established update_rto update_rto_if output do_syn_received
  synchronise-Follows h bytes t e =
      let s = if h.f_ack then record t.snd { unacknowledged = h.ack } else t.snd in
      let c = record (start_receiving be hw h t) { snd = s } in
      Ensures-if (Moves t) (seq_gt s.unacknowledged s.initial) _ _
        (Ensures-bind (SameState c) (Moves t) (init_from_options be hw h bytes c) _
          (init_from_options-state h bytes c) (λ d k. rw e refl))
        (rw e refl)

  pub input_handle_syn_sent_state-Follows :
      (h : TcpHdr) (bytes : List ℕ) (t : Tcb)
      → t.state ≡ syn_sent
      → Ensures (input_handle_syn_sent_state be hw now h bytes t) (Moves t)
  unfolding input_handle_syn_sent_state respond_with_reset do_reset cleanup
  input_handle_syn_sent_state-Follows h bytes t e =
      let s = t.snd in
      let stay = Follows-refl t.state t.state refl in
      let acceptable = h.f_ack && (seq_le s.unacknowledged h.ack && seq_le h.ack s.next) in
      Ensures-bind (λ b. Unit {0}) (Moves t) (option_bytes_of h bytes) _ (Ensures_any _)
        (λ b u.
          Ensures-if (Moves t) (h.f_ack && (seq_le h.ack s.initial || seq_gt h.ack s.next)) _ _ stay
            (Ensures-if (Moves t) h.f_rst _ _ (ground arith)
              (Ensures-if (Moves t) h.f_syn _ _ (synchronise-Follows h b t e) stay)))

  pub output_one-Follows : (t : Tcb) → Ensures (output_one be core hw now t) (Moves t)
  output_one-Follows t =
      let stay = Follows-refl t.state t.state refl in
      output_one_rule (Moves t) be core hw now t stay (λ q. stay)

  pub persist-Follows : (t : Tcb) → Ensures (persist be core hw now t) (Moves t)
  unfolding persist output
  persist-Follows t =
      let c = record t {
        persist_at = none;
        snd = record t.snd {
          window_probe = true;
          zero_window_probing_out = (t.snd.zero_window_probing_out + 1) % 2 ^ 8;
        };
      } in
      Ensures-bind (Moves t) (Moves t) (output_one be core hw now c) _ (output_one-Follows c)
        (λ d k. k)

  retransmit_data-Follows :
      (us : List Unacked) (t : Tcb) → Ensures (retransmit_data be core hw now us t) (Moves t)
  unfolding retransmit_data output_update_rto output do_reset cleanup
  retransmit_data-Follows [] t = Follows-refl t.state t.state refl
  retransmit_data-Follows (seg ∷ rest) t =
      let stay = Follows-refl t.state t.state refl in
      let slow = slow_start be core hw seg t.snd in
      let c = record t { snd = record slow { unacked = count_transmit be core hw seg ∷ rest } } in
      Ensures-if (Moves t) (ltb seg.nr_transmits max_nr_retransmit) _ _
        (Ensures-bind (Moves t) (Moves t) (retransmit_one be core hw c) _
          (retransmit_one_rule (Moves t) be core hw c stay (λ q. stay)) (λ d k. k))
        (ground arith)

  abbrev PhaseState : TcpState → Phase be core hw → Type 0
  PhaseState s (stopped t) = t.state ≡ s
  PhaseState s (on t) = t.state ≡ s

  retransmit_syn-state : (t : Tcb) → PhaseState t.state (retransmit_syn be core hw now t)
  unfolding retransmit_syn output_update_rto output cleanup
  retransmit_syn-state t = ground arith

  retransmit_fin-state : (t : Tcb) → PhaseState t.state (retransmit_fin be core hw now t)
  unfolding retransmit_fin output_update_rto output cleanup
  retransmit_fin-state t = ground arith

  then_fin-state :
      (s : TcpState) (f : Phase be core hw)
      → PhaseState s f
      → PhaseState s (then_fin be core hw now f)
  then_fin-state s (stopped t) e = e
  then_fin-state s (on t) e =
      subst (λ x. PhaseState x (retransmit_fin be core hw now t)) e (retransmit_fin-state t)

  retransmit_rest-Follows :
      (s : TcpState) (f : Phase be core hw)
      → PhaseState s f
      → Ensures (retransmit_rest be core hw now f) (λ c. Follows s c.state)
  retransmit_rest-Follows s (stopped t) e = Follows-refl s t.state e
  retransmit_rest-Follows s (on t) e =
      subst (λ x. Ensures (retransmit_data be core hw now t.snd.unacked t) (λ c. Follows x c.state))
        e (retransmit_data-Follows t.snd.unacked t)

  pub retransmit-Follows : (t : Tcb) → Ensures (retransmit be core hw now t) (Moves t)
  unfolding retransmit
  retransmit-Follows t =
      let c = record t { retransmit_at = none } in
      retransmit_rest-Follows t.state _ (then_fin-state t.state _ (retransmit_syn-state c))

  pub close_acked-Follows : (t : Tcb) → Ensures (close_acked be core hw now t) (Moves t)
  unfolding close_acked output
  close_acked-Follows t =
      let state' =
        if is_in t.state (close_wait ∷ [])
        then last_ack
        else if is_in t.state (established ∷ [])
        then fin_wait_1
        else t.state in
      let c = record t { state = state'; snd = record t.snd { shut = true } } in
      let moved : Moves t c = ground arith in
      Ensures-bind (Moves t) (Moves t) (output_one be core hw now c) _
        (output_one_rule (Moves t) be core hw now c moved (λ q. moved)) (λ d k. k)

  pub get_packet-Follows : (t : Tcb) → Ensures (get_packet be core hw now t) (λ r. Moves t r.1)
  unfolding get_packet
  get_packet-Follows t =
      let idle = record t { poll_active = false } in
      let stay = Follows-refl t.state t.state refl in
      Ensures-bind (Moves t) (λ r. Moves t r.1)
        (if is_empty t.packetq then output_one be core hw now idle else some idle) _
        (Ensures-if (Moves t) (is_empty t.packetq) _ _ (output_one-Follows idle) stay)
        (λ c k. ended c k c.packetq)
    where
      ended :
          (c : Tcb)
          → Follows t.state c.state
          → (q : List Sent)
          → Ensures {A = Option Sent × Tcb}
              (if is_in c.state (closed ∷ []) then some (none, c) else elim q [
                | [] ↦ none
                | p ∷ ps ↦ some (some p, poll_again be core hw (record c { packetq = ps }))
              ])
              (λ r. Follows t.state r.1.state)
      ended c k [] = ground arith
      ended c k (p ∷ ps) =
          Ensures-if (λ r. Follows t.state r.1.state) (is_in c.state (closed ∷ [])) _ _ k k
