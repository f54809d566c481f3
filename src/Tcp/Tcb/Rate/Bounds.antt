-- ===== src/Tcp/Tcb/Rate/Bounds.antt =====
-- Bounds on the retransmission timeout and the congestion window.
use actor_network.Prelude.{
  Bool-cases, Returns, arith, false, inl, inr, ltb, lt→ltb, max, min, ℕ, ◌*◌, ◌+◌, ◌/◌, ◌<◌, ◌^◌,
  ◌≡◌, ◌≤◌,
}
use actor_network.Tcp.Tcb.{Send, Tcb, rto_max, rto_min, w32}
use actor_network.Tcp.Tcb.Rate.{update_cwnd, update_rto}

-- A sample of the round trip leaves the timeout between a second and a minute, whatever was measured,
-- and the next sample is no longer the first.
pub update_rto_bounds :
    (now tx : ℕ) (t : Tcb)
    → (rto_min ≤ (update_rto now tx t).rto)
      × ((update_rto now tx t).rto ≤ rto_max)
      × ((update_rto now tx t).snd.first_rto_sample ≡ false)
unfolding update_rto
update_rto_bounds now tx t = ground arith

div_bound : (m c : ℕ) → 0 < m → m ≤ c → m * m / c ≤ m
div_bound m c pos le = grind arith

-- A congestion window of at least a segment grows by at most one segment at an acknowledgement.
pub update_cwnd_rule :
    (P : Send → Type 0) (acked : ℕ) (s : Send)
    → 0 < s.mss
    → s.mss ≤ s.cwnd
    → s.cwnd + s.mss < 2 ^ 32
    → ((c : ℕ) → s.cwnd ≤ c → c ≤ s.cwnd + s.mss → P (record s { cwnd = c }))
    → Returns (update_cwnd acked s) P
unfolding update_cwnd
update_cwnd_rule P acked s pos le fits all = elim (Bool-cases (ltb s.cwnd s.ssthresh)) [
  | inl slow ↦ rw slow (all (w32 (s.cwnd + min acked s.mss)) (omega arith) (omega arith))
  | inr fast ↦
      let grown : max 1 (s.mss * s.mss / s.cwnd) ≤ s.mss =
        omega (arith, div_bound s.mss s.cwnd pos le) in
      rw (fast, lt→ltb 0 s.cwnd (omega arith))
        (all (w32 (s.cwnd + max 1 (s.mss * s.mss / s.cwnd))) (omega arith) (omega arith))
]
