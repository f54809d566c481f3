-- ===== src/Ip/Tests.antt =====
-- IPv4 and ICMP at concrete packets.
use actor_network.Prelude.{
  Ensures, List, Returns, [], arith, drop, false, inl, inr, length, map, none, refl, replicate,
  some, take, true, ℕ, ◌++◌, ◌+◌, ◌-◌, ◌<◌, ◌>>=◌, ◌^◌, ◌∷◌, ◌≡◌, ◌≤◌,
}
use actor_network.Checksum.{get, sum}
use actor_network.Ip.{IpHdr, L3Packet, frag_low_thresh, udp_num}
use actor_network.Ip.Fragments.{frag_limit_mem, frag_merge, frag_of, frag_timeout}
use actor_network.Ip.Fragments.Accounts.{Accounts}
use actor_network.Ip.Fragments.Limit.{frag_limit_mem-low}
use actor_network.Ip.Fragments.Timeout.{OldestIsYoung, frag_timeout-young}
use actor_network.Ip.Hash.{assembled_hash_data, bytes16, connid_hash, forward, toeplitz_hash}
use actor_network.Ip.Hash.Same.{forward-connid_hash}
use actor_network.Ip.Header.{read_ip, write_ip}
use actor_network.Ip.Header.RoundTrip.{FitsHdr}
use actor_network.Ip.Icmp.{
  Icmp, extract, initial_space, received, reply_to, resolution_failed, resolved,
}
use actor_network.Ip.Icmp.Space.{
  Steps-sum, address, arrival, bytes_at, bytes_held, more, no_address, still,
}
use actor_network.Ip.Receive.{
  after_merge, csum_ok, handle_fragment, handle_received_packet, handle_trimmed,
}
use actor_network.Ip.Receive.Atomic.{IsForHost, handle_received_packet-datagram}
use actor_network.Ip.Receive.Datagram.{datagram}
use actor_network.Ip.Receive.EndToEnd.{Delivered, send-Delivered}
use actor_network.Ip.Receive.Kept.{handle_received_packet-WellFormed}
use actor_network.Ip.Receive.Steps.{WellFormed}
use actor_network.Ip.Samples.{
  card, crowded, first_fragment, header, some_id, test_env, test_host, to_host,
}
use actor_network.Ip.Send.{needs_frag, send, send_loop, send_pkt}
use actor_network.Ip.Send.Loop.{Sends, send-Sends}
use actor_network.Merger.{merge}
use actor_network.Tcp.Tests.{big_endian}

-- Twenty bytes go out in three packets.
send_three : Returns (send test_env to_host (replicate 20 5) test_host) (λ s. length s.packetq ≡ 3)
unfolding send send_loop send_pkt write_ip needs_frag
send_three = refl

-- At an MTU that leaves room for 10 bytes, the second packet says that it belongs at 8.
send_misplaced :
    Returns
      (send
        (record test_env { features = record card { mtu = 30 } })
        to_host
        (replicate 20 5)
        test_host)
      (λ s.
        map (λ q. take 2 (drop 6 (L3Packet.bytes q))) s.packetq ≡ (32 ∷ 0 ∷ []) ∷ (0 ∷ 1 ∷ []) ∷ [])
unfolding send send_loop send_pkt write_ip needs_frag
send_misplaced = refl

-- At an MTU that leaves no room the loop does not end.
send_endless :
    send
      (record test_env { features = record card { mtu = 20 } })
      to_host
      (replicate 20 5)
      test_host
    ≡ none
unfolding send send_loop send_pkt write_ip needs_frag
send_endless = refl

needs : needs_frag (replicate 20 5) udp_num card ≡ true
unfolding needs_frag
needs = refl

send-Sends_example :
    Returns
      (send test_env to_host (replicate 20 5) test_host)
      (Sends test_env to_host 0 (replicate 20 5) test_host)
send-Sends_example =
    send-Sends test_env to_host (replicate 20 5) test_host (omega arith) (omega arith) (omega arith)
      (omega arith) refl (omega arith) needs

test_host-WellFormed : WellFormed test_host
test_host-WellFormed = record {
  accounts = record { table = tt; accounted = refl; tracked = tt };
  timed = inl refl;
}

handle_received_packet-WellFormed_example :
    Ensures (handle_received_packet test_env false first_fragment 18 0 test_host) WellFormed
handle_received_packet-WellFormed_example =
    handle_received_packet-WellFormed test_env false first_fragment 18 0 test_host
      test_host-WellFormed

-- A fragment makes an entry and starts the timer.
fragment_waits :
    Returns
      (handle_received_packet test_env false first_fragment 18 5 test_host)
      (λ s. (length s.frags ≡ 1) × (s.frag_timer ≡ some 30005))
unfolding handle_received_packet handle_trimmed handle_fragment frag_limit_mem frag_merge merge
    after_merge csum_ok read_ip first_fragment
fragment_waits = (refl, refl)

crowded-Accounts : Accounts crowded
crowded-Accounts = record {
  table = ((refl, tt), omega arith, (tt, omega arith, tt));
  accounted = refl;
  tracked = (inl refl, (inr (inl refl), tt));
}

frag_limit_mem-low_example : (frag_limit_mem crowded).frag_mem ≤ frag_low_thresh
frag_limit_mem-low_example = frag_limit_mem-low crowded crowded-Accounts (omega arith) (omega arith)

frag_timeout-young_example :
    (frag_of (frag_timeout 50000 crowded).frags (some_id 2) ≡ frag_of crowded.frags (some_id 2))
    × OldestIsYoung 50000 (frag_timeout 50000 crowded).frags_age (frag_timeout 50000 crowded).frags
unfolding frag_of
frag_timeout-young_example =
    frag_timeout-young 50000 crowded (some_id 2) (omega arith) (omega arith)

header-FitsHdr :
    (len ihl : ℕ) → len < 2 ^ 16 → ihl < 2 ^ 4 → FitsHdr (record (header len 0) { ihl = ihl })
header-FitsHdr len ihl small few = record {
  ihl_fits = few;
  ver_fits = omega arith;
  dscp_fits = omega arith;
  ecn_fits = omega arith;
  len_fits = small;
  id_fits = omega arith;
  frag_fits = omega arith;
  csum_fits = omega arith;
  src_fits = omega arith;
  dst_fits = omega arith;
}

three-IsForHost : IsForHost test_env (header 23 0) (9 ∷ 8 ∷ 7 ∷ []) 18 test_host
three-IsForHost = record {
  fits = header-FitsHdr 23 5 (omega arith) (omega arith);
  len_is = refl;
  not_fragment = refl;
  target_is = refl;
  let_through = refl;
  known = refl;
}

handle_received_packet-datagram_example :
    Returns
      (handle_received_packet test_env false
        ((write_ip big_endian (header 23 0) ++ (9 ∷ 8 ∷ 7 ∷ [])) ++ (0 ∷ 0 ∷ []))
        18
        0
        test_host)
      (λ t. t.deliveries ≡ [] ++ (datagram (header 23 0) (9 ∷ 8 ∷ 7 ∷ []) ∷ []))
handle_received_packet-datagram_example =
    handle_received_packet-datagram test_env (header 23 0) (9 ∷ 8 ∷ 7 ∷ []) (0 ∷ 0 ∷ []) 18 0
      test_host three-IsForHost refl refl

abbrev long_header : IpHdr
long_header = record (header 23 0) { ihl = 15 }

forward-connid_hash_example :
    let payload = bytes16 big_endian 5000 ++ (bytes16 big_endian 53 ++ replicate 4 0) in
    (forward big_endian (replicate 14 1 ++ (write_ip big_endian (header 40 0) ++ payload)) 14
      ≡ some (assembled_hash_data big_endian (header 40 0) payload))
    × (toeplitz_hash test_env.rss_key (assembled_hash_data big_endian (header 40 0) payload)
        ≡ connid_hash big_endian test_env.rss_key 1 2 5000 53)
forward-connid_hash_example =
    forward-connid_hash big_endian (header 40 0) test_env.rss_key (replicate 14 1) (replicate 4 0)
      5000 53 (header-FitsHdr 40 5 (omega arith) (omega arith)) refl refl refl refl
      (inr (refl, omega arith))

abbrev quiet : Icmp
quiet = record { packetq = []; queue_space = initial_space; resolving = [] }

abbrev ping : List ℕ
ping = 8 ∷ 0 ∷ 1 ∷ 2 ∷ 0 ∷ 1 ∷ 0 ∷ 1 ∷ []

abbrev answering : Icmp
answering = record {
  packetq = [];
  queue_space = initial_space - 8;
  resolving = (1, 0 ∷ 0 ∷ 255 ∷ 255 ∷ 0 ∷ 1 ∷ 0 ∷ 1 ∷ []) ∷ [];
}

ping_received : received ping [] 1 quiet ≡ some answering
unfolding received reply_to sum get
ping_received = refl

Steps-sum_example :
    (resolution_failed 1 (resolved 0 17 answering)).queue_space
      + bytes_held (resolution_failed 1 (resolved 0 17 answering))
      + (0 + 0 + 0 + bytes_at 1 (resolved 0 17 answering))
    ≡ quiet.queue_space + bytes_held quiet
Steps-sum_example =
    Steps-sum
      (more (more (more still (arrival ping [] 1 ping_received)) (address 0 17)) (no_address 1))

-- The second of two replies, whose bytes are lost when its peer has no address.
reply_lost : (received ping [] 1 quiet >>= received ping [] 4 >>= λ s. some (bytes_at 1 s)) ≡ some 8
unfolding received reply_to sum get extract
reply_lost = refl

sent_filter : (h : IpHdr) (bytes : List ℕ) → test_env.filter h bytes 17 ≡ false
sent_filter h bytes = refl

send-Delivered_example :
    Returns (send test_env to_host (replicate 20 5) (record test_host { host_address = 1 })) (
      Delivered test_env to_host 17 0
        (replicate 20 5)
        test_host
        (record test_host { host_address = 1 }))
unfolding frag_of
send-Delivered_example =
    send-Delivered test_env to_host (replicate 20 5) (record test_host { host_address = 1 })
      test_host 17 0 (omega arith) (λ hash. refl) refl sent_filter refl (omega arith) (omega arith)
      (omega arith) (omega arith) refl (omega arith) (omega arith) needs refl refl
