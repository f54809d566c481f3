-- ===== src/Tcp/Tcb/Rate.antt =====
-- The retransmission timeout and the congestion window: `update_rto` and `update_cwnd`.
pub mod Bounds
use actor_network.Prelude.{
  Bool, Option, guard, if◌then◌else◌, ltb, max, min, not, some, true, ℕ, ◌&&◌, ◌*◌, ◌+◌, ◌-◌, ◌/◌,
  ◌>>◌,
}
use actor_network.Tcp.Tcb.{Send, Tcb, rto_max, rto_min, w32}

-- The time since `tx_time` is the sample. The flag is whether the caller takes one.
unfoldable pub update_rto_if : Bool → ℕ → ℕ → Tcb → Tcb
update_rto_if b now tx_time t =
    let s = t.snd in
    let r = now - tx_time in
    let delta = if ltb r s.srtt then s.srtt - r else r - s.srtt in
    let rttvar' = if s.first_rto_sample then r / 2 else s.rttvar * 3 / 4 + delta / 4 in
    let srtt' = if s.first_rto_sample then r else s.srtt * 7 / 8 + r / 8 in
    record t {
      snd = record s {
        first_rto_sample = not b && s.first_rto_sample;
        rttvar = if b then rttvar' else s.rttvar;
        srtt = if b then srtt' else s.srtt;
      };
      rto = if b then min (max (srtt' + max 1 (4 * rttvar')) rto_min) rto_max else t.rto;
    }

unfoldable pub update_rto : ℕ → ℕ → Tcb → Tcb
unfolding update_rto_if
update_rto now tx_time t = update_rto_if true now tx_time t

-- `none` is the division by a congestion window of 0.
unfoldable pub update_cwnd : ℕ → Send → Option Send
update_cwnd acked_bytes s =
    if ltb s.cwnd s.ssthresh
    then some (record s { cwnd = w32 (s.cwnd + min acked_bytes s.mss) })
    else (do
      guard (ltb 0 s.cwnd)
      some (record s { cwnd = w32 (s.cwnd + max 1 (s.mss * s.mss / s.cwnd)) }))
