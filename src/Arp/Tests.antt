-- ===== src/Arp/Tests.antt =====
-- The address resolution at concrete addresses.
use actor_network.Prelude.{[], arith, length, refl, some, ◌∷◌, ◌≡◌}
use actor_network.Arp.{
  Arp, ArpHdr, broadcast_l2, broadcast_l3, find_key, handle_request, learn, on_timeout,
  set_self_addr, timed_out,
}
use actor_network.Arp.Resolve.{Resolves, learn-Resolves}

abbrev asking : Arp
asking = record {
  l2self = 1;
  l3self = 10;
  table = (broadcast_l3, broadcast_l2) ∷ [];
  in_progress = (20, 3 ∷ 4 ∷ []) ∷ (30, 5 ∷ []) ∷ [];
  next_promise = 6;
  settled = [];
  packetq = [];
}

abbrev asked : ArpHdr
asked = record {
  htype = 1;
  ptype = 0x800;
  hlen = 6;
  plen = 4;
  oper = 1;
  sender_hwaddr = 2;
  sender_paddr = 20;
  target_hwaddr = 0;
  target_paddr = 10;
}

-- A request for this host is answered to its sender, one for another host is not.
answers :
    ((handle_request asked asking).packetq
      ≡ (
        2,
        record asked {
          oper = 2;
          target_hwaddr = 2;
          target_paddr = 20;
          sender_hwaddr = 1;
          sender_paddr = 10;
        },
      )
        ∷ [])
    × ((handle_request (record asked { target_paddr = 11 }) asking).packetq ≡ [])
unfolding handle_request
answers = (refl, refl)

-- A timeout fails the waiters and asks again; after a change of the own address it is in the table.
times_out :
    ((on_timeout 30 asking).settled ≡ (5, timed_out) ∷ [])
    × (length (on_timeout 30 asking).packetq ≡ 1)
    × (find_key (set_self_addr 11 asking).table 11 ≡ some 1)
unfolding on_timeout set_self_addr find_key
times_out = (refl, refl, refl)

learn-Resolves_example : Resolves 7 20 30 asking (learn 7 20 asking)
learn-Resolves_example = learn-Resolves 7 20 30 asking (omega arith)
