-- ===== src/Tcp/Tcb/Timers.antt =====
-- What the timers do: `persist`, `retransmit`, the delayed acknowledgement, and `fast_retransmit`.
use actor_network.Prelude.{
  List, Option, [], false, if◌then◌else◌, ltb, max, min, none, not, some, true, ℕ, ◌%◌, ◌*◌, ◌+◌,
  ◌/◌, ◌==◌, ◌>>=◌, ◌^◌, ◌∷◌,
}
use actor_network.Tcp.Core.{Align, BigEndian}
use actor_network.Tcp.Seq.{sub}
use actor_network.Tcp.Tcb.{
  HwFeatures, Send, Tcb, Unacked, cleanup, connect_error, connect_failed, do_reset,
  exit_fast_recovery, fin_needs_on, max_nr_retransmit, output, rto_max, signal, start_persist_timer,
  start_retransmit_timer, syn_needs_on,
}
use actor_network.Tcp.Tcb.Transmit.{flight_size, output_one, retransmit_one}

module _ (be : BigEndian) (core : Align) (hw : HwFeatures) where
  unfoldable pub persist : ℕ → Tcb → Option Tcb
  persist now t0 = do
    t ← output_one be core hw now (record t0 {
      persist_at = none;
      snd = record t0.snd {
        window_probe = true;
        zero_window_probing_out = (t0.snd.zero_window_probing_out + 1) % 2 ^ 8;
      };
    })
    let c = output (record t {
      snd = record t.snd { window_probe = false };
      persist_time_out = min (t.persist_time_out * 2) rto_max;
    })
    some (start_persist_timer now c)

  -- `output_update_rto`: the timeout is doubled.
  unfoldable pub output_update_rto : ℕ → Tcb → Tcb
  unfolding output
  output_update_rto now t =
      let o = output t in start_retransmit_timer now (record o { rto = min (o.rto * 2) rto_max })

  -- The states in which `retransmit` stops, and those in which it goes on.
  pub data Phase : Type 0 where
    stopped on : Tcb → Phase

  unfoldable pub retransmit_syn : ℕ → Tcb → Phase
  unfolding output_update_rto cleanup
  retransmit_syn now t =
      let n = t.snd.syn_retransmit in
      let c = record t { snd = record t.snd { syn_retransmit = n + 1 } } in
      if not (syn_needs_on t)
      then on t
      else if ltb n max_nr_retransmit
      then on (output_update_rto now c)
      else stopped (cleanup (signal (connect_failed connect_error) c))

  unfoldable pub retransmit_fin : ℕ → Tcb → Phase
  unfolding output_update_rto cleanup
  retransmit_fin now t =
      let n = t.snd.fin_retransmit in
      let c = record t { snd = record t.snd { fin_retransmit = n + 1 } } in
      if not (fin_needs_on t)
      then on t
      else if ltb n max_nr_retransmit
      then on (output_update_rto now c)
      else stopped (cleanup c)

  abbrev pub count_transmit : Unacked → Unacked
  count_transmit seg = record seg { nr_transmits = (seg.nr_transmits + 1) % 2 ^ 32 }

  -- Slow start, before the earliest segment is sent again.
  abbrev pub slow_start : Unacked → Send → Send
  slow_start seg s = exit_fast_recovery (record s {
    ssthresh =
        if seg.nr_transmits == 0 then max (flight_size s.unacked / 2) (2 * s.mss) else s.ssthresh;
    recover = sub s.next 1;
    cwnd = s.mss;
  })

  unfoldable pub retransmit_data : ℕ → List Unacked → Tcb → Option Tcb
  unfolding output_update_rto do_reset
  retransmit_data now [] t = some t
  retransmit_data now (seg ∷ rest) t =
      let slow = record t { snd = slow_start seg t.snd } in
      if ltb seg.nr_transmits max_nr_retransmit
      then (do
        again ←
            retransmit_one be core hw
              (record slow { snd = record slow.snd { unacked = count_transmit seg ∷ rest } })
        some (output_update_rto now again))
      else some (do_reset slow)

  abbrev pub retransmit_rest : ℕ → Phase → Option Tcb
  retransmit_rest now (stopped t) = some t
  retransmit_rest now (on t) = retransmit_data now t.snd.unacked t

  abbrev pub then_fin : ℕ → Phase → Phase
  then_fin now (stopped t) = stopped t
  then_fin now (on t) = retransmit_fin now t

  -- `retransmit`, when its timer fires.
  unfoldable pub retransmit : ℕ → Tcb → Option Tcb
  unfolding retransmit_syn retransmit_fin retransmit_data
  retransmit now t =
      retransmit_rest now (then_fin now (retransmit_syn now (record t { retransmit_at = none })))

  abbrev pub fast_front : List Unacked → Tcb → Option Tcb
  fast_front [] t = some t
  fast_front (seg ∷ rest) t = do
    again ←
        retransmit_one be core hw
          (record t { snd = record t.snd { unacked = count_transmit seg ∷ rest } })
    some (output again)

  unfoldable pub fast_retransmit : Tcb → Option Tcb
  unfolding output
  fast_retransmit t = fast_front t.snd.unacked t

-- The callback of the timer of delayed acknowledgements.
unfoldable pub delayed_ack_fires : Tcb → Tcb
unfolding output
delayed_ack_fires t = output (record t { nr_full_seg_received = 0; delayed_ack = none })
