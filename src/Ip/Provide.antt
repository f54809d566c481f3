-- ===== src/Ip/Provide.antt =====
-- `ipv4::get_packet` and the setters of src/network/ip.cc. What the packet providers have to offer
-- when they are asked is a list, in the order of `_pkt_providers`.
use actor_network.Prelude.{
  List, Option, [], get_elem?, if◌then◌else◌, length, none, some, suc, zero, ℕ, ◌+◌, ◌==◌, ◌>>=◌,
  ◌∷◌,
}
use actor_network.Arp.{set_self_addr}
use actor_network.Ip.{IpEnv, Ipv4, L3Packet, L4Packet}
use actor_network.Ip.Send.{Route, send}

abbrev pub route_of : L4Packet → Route
route_of l4p = record { to = l4p.to; proto_num = l4p.proto_num; e_dst = l4p.e_dst }

-- `_pkt_provider_idx++`, back to 0 at the end.
abbrev pub next_idx : ℕ → ℕ → ℕ
next_idx count i = if i + 1 == count then 0 else i + 1

-- The front of `_packetq`.
abbrev pub pop_front : Ipv4 → Option L3Packet × Ipv4
pop_front s = elim s.packetq [ [] ↦ (none, s) | q ∷ qs ↦ (some q, record s { packetq = qs }) ]

module _ (env : IpEnv) where
  -- The loop, with `n` providers to ask; `none` is an index out of bounds.
  unfoldable pub ask : ℕ → List (Option L4Packet) → Ipv4 → Option Ipv4
  unfolding send
  ask zero offers s = some s
  ask (suc n) offers s = do
    offer ← get_elem? offers s.pkt_provider_idx
    let turned = record s { pkt_provider_idx = next_idx (length offers) s.pkt_provider_idx } in
        let further = ask n offers turned in
        elim offer [ none ↦ further | some l4p ↦ send env (route_of l4p) l4p.bytes turned ]

  unfoldable pub get_packet : List (Option L4Packet) → Ipv4 → Option (Option L3Packet × Ipv4)
  unfolding ask
  get_packet offers s = elim s.packetq [
    | [] ↦ ask (length offers) offers s >>= λ s'. some (pop_front s')
    | _ ∷ _ ↦ some (pop_front s)
  ]

unfoldable pub set_host_address : ℕ → Ipv4 → Ipv4
set_host_address ip s = record s { host_address = ip; arp = set_self_addr ip s.arp }

unfoldable pub set_gw_address : ℕ → Ipv4 → Ipv4
set_gw_address ip s = record s { gw_address = ip }

unfoldable pub set_netmask_address : ℕ → Ipv4 → Ipv4
set_netmask_address ip s = record s { netmask = ip }
