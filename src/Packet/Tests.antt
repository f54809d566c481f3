-- ===== src/Packet/Tests.antt =====
-- Runs of the packet code, and its theorems at concrete packets.
use actor_network.Prelude.{
  List, Returns, [], arith, length-replicate, none, refl, replicate, ℕ, ◌++◌, ◌>>=◌, ◌∷◌, ◌≡◌,
}
use actor_network.Packet.Build.{append, from_bytes, prepend}
use actor_network.Packet.Build.Laws.{append-Holds, from_bytes-Holds}
use actor_network.Packet.Build.Prepend.{prepend-Holds}
use actor_network.Packet.Impl.{Packet, external, internal, no_offload}
use actor_network.Packet.Impl.Valid.{Holds}
use actor_network.Packet.Trim.{trim_back, trim_front}
use actor_network.Packet.Trim.Back.{IsTrimmed, trim_back-IsTrimmed}
use actor_network.Packet.Trim.Front.{trim_front-Holds}
use actor_network.Packet.Trim.Headroom.{trim_back-prepend_fault}
use actor_network.Packet.View.{get_header, share}
use actor_network.Packet.View.Header.{Reads, get_header-Reads}
use actor_network.Packet.View.Share.{Shares, share-Shares}

abbrev hello : List ℕ
hello = 104 ∷ 101 ∷ 108 ∷ 108 ∷ 111 ∷ []

abbrev world : List ℕ
world = 119 ∷ 111 ∷ 114 ∷ []

abbrev hello_packet : Packet
hello_packet = from_bytes hello

-- Two fragments, the first in `_data`.
abbrev both_packet : Packet
both_packet = record {
  len = 8;
  allocated = 4;
  offload = no_offload;
  rss_hash = none;
  headroom = 107;
  frags =
      record { base = internal 107; bytes = hello }
      ∷ record { base = external; bytes = world }
      ∷ [];
}

abbrev outside_packet : Packet
outside_packet = record both_packet {
  headroom = 112;
  frags =
      record { base = external; bytes = hello } ∷ record { base = external; bytes = world } ∷ [];
}

hello-Holds : Holds hello hello_packet
hello-Holds = from_bytes-Holds hello (omega arith)

both-Holds : Holds (hello ++ world) both_packet
both-Holds = record {
  bytes_are = refl;
  len_is = refl;
  len_fits = omega arith;
  frags_fit = omega arith;
  anchored = omega arith;
}

outside-Holds : Holds (hello ++ world) outside_packet
outside-Holds = record {
  bytes_are = refl;
  len_is = refl;
  len_fits = omega arith;
  frags_fit = omega arith;
  anchored = (refl, (tt, tt));
}

abbrev zero_byte : ℕ
zero_byte = 0

abbrev hello_header : List ℕ
hello_header = replicate 107 zero_byte

append-Holds_example :
    Returns (append both_packet outside_packet) (Holds ((hello ++ world) ++ (hello ++ world)))
append-Holds_example =
    append-Holds (hello ++ world) (hello ++ world) both_packet outside_packet both-Holds
      outside-Holds (omega arith) (omega arith)

prepend-Holds_example : Returns (prepend world both_packet) (Holds (world ++ (hello ++ world)))
prepend-Holds_example =
    prepend-Holds world (hello ++ world) both_packet both-Holds (omega arith) (omega arith)

trim_front-Holds_example : Returns (trim_front 6 both_packet) (Holds (111 ∷ 114 ∷ []))
trim_front-Holds_example = trim_front-Holds 6 (hello ++ world) both_packet both-Holds (omega arith)

trim_back-IsTrimmed_example :
    Returns (trim_back 4 both_packet) (IsTrimmed 4 (hello ++ world) both_packet)
trim_back-IsTrimmed_example =
    trim_back-IsTrimmed 4 (hello ++ world) both_packet both-Holds (omega arith)

trim_back-prepend_fault_example :
    (trim_back 4 (from_bytes hello) >>= prepend (0 ∷ hello_header)) ≡ none
trim_back-prepend_fault_example =
    trim_back-prepend_fault 4 hello (0 ∷ hello_header) (omega arith) (omega arith) (omega arith)
      (omega (arith, length-replicate 107 zero_byte))
      (omega (arith, length-replicate 107 zero_byte))

get_header-Reads_example : Returns (get_header 3 4 both_packet) (Reads 3 4 (hello ++ world))
get_header-Reads_example =
    get_header-Reads 3 4 (hello ++ world) both_packet both-Holds (omega arith) (omega arith)

share-Shares_example : Returns (share 2 5 both_packet) (Shares 2 5 (hello ++ world))
share-Shares_example =
    share-Shares 2 5 (hello ++ world) both_packet both-Holds (omega arith) (omega arith)
