-- ===== src/Tcp/Tcb/Transmit/Window.antt =====
-- What is sent stays within the window that the other side announced.
use actor_network.Prelude.{arith, false, ◌+◌, ◌<◌, ◌≡◌, ◌≤◌}
use actor_network.Tcp.Seq.{diff}
use actor_network.Tcp.Tcb.{Send}
use actor_network.Tcp.Tcb.Transmit.{sendable}

-- `can_send` gives no more than is waiting, and no more than the window leaves above what is in flight,
-- unless it is a probe of the window.
pub sendable_bounds :
    (s : Send)
    → s.window_probe ≡ false
    → (sendable s ≤ s.unsent_len)
      × (sendable s ≤ s.cwnd)
      × (0 < sendable s → diff s.next s.unacknowledged + sendable s ≤ s.window)
unfolding sendable
sendable_bounds s e = ground arith
