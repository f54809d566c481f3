-- ===== src/Tcp/Tcb/Open/Window.antt =====
-- The congestion window that a connection starts with.
use actor_network.Prelude.{
  List, Returns, arith, lt→ltb, max, none, refl, ℕ, ◌%◌, ◌*◌, ◌<◌, ◌^◌, ◌≡◌, ◌≤◌,
}
use actor_network.Tcp.Core.{BigEndian}
use actor_network.Tcp.Header.{TcpHdr}
use actor_network.Tcp.Option.{TcpOption, parse, parsed}
use actor_network.Tcp.Tcb.{HwFeatures, Tcb}
use actor_network.Tcp.Tcb.Open.{init_from_options}
use actor_network.Tcp.Tcb.Rate.{update_cwnd}

shifted_zero : (k : ℕ) → 0 * k % 2 ^ 32 ≡ 0
shifted_zero k = omega arith

module _ (be : BigEndian) (hw : HwFeatures) where
  -- With an MSS from 1 on, the congestion window starts at two to four segments, the send window is what
  -- the segment says, scaled, and slow start goes up to it.
  pub init_from_options-cwnd :
      (h : TcpHdr) (bytes : List ℕ) (t : Tcb) (o : TcpOption)
      → parse be bytes t.option ≡ parsed o
      → o.remote_win_scale < 32
      → 0 < o.remote_mss
      → Returns (init_from_options be hw h bytes t) (λ c.
        (2 * c.snd.mss ≤ c.snd.cwnd)
        × (c.snd.cwnd ≤ 4 * c.snd.mss)
        × (c.snd.cwnd ≤ max (4 * 1095) (max (3 * 2190) (2 * c.snd.mss)))
        × (c.snd.ssthresh ≡ c.snd.window))
  unfolding init_from_options
  init_from_options-cwnd h bytes t o e scale pos =
      rw (e, lt→ltb o.remote_win_scale 32 scale) (ground arith)

  -- A peer whose SYN tells the MSS 0 and the window 0 leaves a congestion window that is 0 and not below
  -- the threshold of slow start: whatever is acknowledged then, `update_cwnd` divides by 0.
  pub init_from_options-update_cwnd :
      (h : TcpHdr) (bytes : List ℕ) (t : Tcb) (o : TcpOption)
      → parse be bytes t.option ≡ parsed o
      → o.remote_win_scale < 32
      → o.remote_mss ≡ 0
      → h.window ≡ 0
      → Returns (init_from_options be hw h bytes t) (λ c. (n : ℕ) → update_cwnd n c.snd ≡ none)
  unfolding init_from_options update_cwnd
  init_from_options-update_cwnd h bytes t o e scale mss_zero window_zero =
      rw (e, lt→ltb o.remote_win_scale 32 scale, mss_zero, window_zero)
        (λ n. rw (shifted_zero (2 ^ o.remote_win_scale)) refl)
