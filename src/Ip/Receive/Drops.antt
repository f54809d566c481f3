-- ===== src/Ip/Receive/Drops.antt =====
-- Packets that `handle_received_packet` drops, and packets that it fails on.
use actor_network.Prelude.{
  List, Option, Returns, arith, false, length-take, none, refl, some, take, ℕ, ◌<◌, ◌==◌, ◌^◌, ◌≡◌,
}
use actor_network.Checksum.{Checksummer, fresh, get, sum}
use actor_network.Checksum.Bounds.{AllBytes, sum-fresh_bound, take-AllBytes}
use actor_network.Checksum.Fold.{get_constant}
use actor_network.Ip.{IpEnv, IpHdr, Ipv4}
use actor_network.Ip.Header.{read_ip}
use actor_network.Ip.Receive.{csum_ok, handle_header, handle_received_packet}

-- Where the device does not check checksums, every packet is dropped that was not put together from
-- fragments on this machine, whatever it holds.
pub handle_received_packet_unchecked :
    (env : IpEnv) (p : List ℕ) (source now : ℕ) (s : Ipv4)
    → AllBytes p
    → env.features.rx_csum_offload ≡ false
    → handle_received_packet env false p source now s ≡ some s
unfolding handle_received_packet csum_ok
handle_received_packet_unchecked env p source now s bytes off =
    by_header (read_ip env.be p) (sum (take 20 p) fresh)
      (sum-fresh_bound (take 20 p) (take-AllBytes 20 p bytes) (omega (arith, length-take 20 p)))
      refl
  where
    -- With the sum of the header.
    by_header :
        (o : Option IpHdr) (t : Option Checksummer)
        → Returns t (λ c. c.csum < 2 ^ 127)
        → sum (take 20 p) fresh ≡ t
        → handle_header env o false p source now s ≡ some s
    by_header none t h e = refl
    by_header (some k) none h e = elim h [ ]
    by_header (some k) (some c) h e =
        let wrong : (get c == 0) ≡ false = ground (arith, get_constant c h) in
        rw (off, e, wrong) refl
