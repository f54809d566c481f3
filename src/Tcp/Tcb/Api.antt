-- ===== src/Tcp/Tcb/Api.antt =====
-- What the socket calls: `send`, `close`, `wait_for_all_data_acked`, `wait_send_available` and
-- `shutdown_connect`. A future is the flag that it is ready.
use actor_network.Prelude.{
  Bool, List, Option, [], false, if◌then◌else◌, length, ltb, none, some, true, ℕ, ◌%◌, ◌&&◌, ◌++◌,
  ◌+◌, ◌==◌, ◌>>=◌, ◌^◌, ◌||◌, ◌∷◌,
}
use actor_network.Tcp.Core.{Align, BigEndian}
use actor_network.Tcp.Tcb.{
  HwFeatures, Tcb, cleanup, close_wait, closed, connect_failed, established, fin_wait_1, is_empty,
  is_in, last_ack, max_queue_space, output, refused_error, signal, syn_needs_on, w32,
}
use actor_network.Tcp.Tcb.Reader.{abort_reader}
use actor_network.Tcp.Tcb.Transmit.{can_send, output_one}

unfoldable pub wait_for_all_data_acked : Tcb → Bool × Tcb
wait_for_all_data_acked t =
    if is_empty t.snd.unacked && t.snd.unsent_len == 0
    then (true, t)
    else (false, record t { snd = record t.snd { acked_waits = true } })

unfoldable pub wait_send_available : Tcb → Bool × Tcb
wait_send_available t =
    if ltb t.snd.current_queue_space max_queue_space
    then (true, t)
    else (false, record t { snd = record t.snd { available_waits = true } })

-- `send`; `none` is the exception `tcp_reset_error`.
unfoldable pub send : List ℕ → Tcb → Option Bool × Tcb
unfolding can_send output wait_send_available
send p t =
    let q = record t.snd {
      current_queue_space = (t.snd.current_queue_space + length p) % 2 ^ 64;
      unsent_len = w32 (t.snd.unsent_len + length p);
      unsent = t.snd.unsent ++ p ∷ [];
    } in
    let (n, s) = can_send q in
    let c = record t { snd = s } in
    let (done_at_once, d) = wait_send_available (if ltb 0 n then output c else c) in
    if t.snd.shut || is_in t.state (closed ∷ []) then (none, t) else (some done_at_once, d)

-- `close`: whether the second half runs at once, or when all data is acknowledged.
unfoldable pub close : Tcb → Bool × Tcb
unfolding wait_for_all_data_acked
close t =
    if is_in t.state (closed ∷ []) || t.snd.shut then (false, t) else wait_for_all_data_acked t

module _ (be : BigEndian) (core : Align) (hw : HwFeatures) where
  -- The second half of `close`, which sends the FIN.
  unfoldable pub close_acked : ℕ → Tcb → Option Tcb
  unfolding output_one output
  close_acked now t0 = do
    let state' =
        if is_in t0.state (close_wait ∷ [])
        then last_ack
        else if is_in t0.state (established ∷ [])
        then fin_wait_1
        else t0.state
    t ←
        output_one be core hw now
          (record t0 { state = state'; snd = record t0.snd { shut = true } })
    some (output t)

-- `shutdown_connect`, up to the second half of `close`.
unfoldable pub shutdown_connect : Tcb → Bool × Tcb
unfolding cleanup abort_reader close
shutdown_connect t =
    if syn_needs_on t
    then (false, cleanup (signal (connect_failed refused_error) t))
    else close (abort_reader t)
