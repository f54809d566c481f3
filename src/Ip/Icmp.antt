-- ===== src/Ip/Icmp.antt =====
-- `icmp` of include/nil/actor/network/ip.hh and src/network/ip.cc. A packet is the bytes of its first
-- fragment, as `get_header` leaves it, and those of the others. A reply waits in `resolving` for the
-- address of its peer. `none` is a read out of bounds.
pub mod Space
use actor_network.Prelude.{
  List, Option, [], guard, if◌then◌else◌, leb, length, none, some, suc, zero, ℕ, ◌%◌, ◌&&◌, ◌++◌,
  ◌+◌, ◌-◌, ◌/◌, ◌==◌, ◌>>=◌, ◌>>◌, ◌^◌, ◌∷◌,
}
use actor_network.Checksum.{fresh, get, sum}
use actor_network.Ip.{L4Packet, icmp_num}

pub record Icmp : Type 0 where
  pub packetq : List L4Packet
  pub queue_space : ℕ
  pub resolving : List (ℕ × List ℕ)

abbrev pub initial_space : ℕ
initial_space = 212992

abbrev pub echo_reply : ℕ
echo_reply = 0

abbrev pub echo_request : ℕ
echo_request = 8

-- The reply in the place of the request: type, code, and checksum, over all of the packet from the
-- header on, which has to lie in one fragment.
unfoldable pub reply_to : List ℕ → List ℕ → Option (List ℕ)
reply_to (t ∷ code ∷ c0 ∷ c1 ∷ rest) others = do
  guard (length others == 0)
  c ← sum (echo_reply ∷ 0 ∷ 0 ∷ 0 ∷ rest) fresh
  some (echo_reply ∷ 0 ∷ (get c % 2 ^ 8) ∷ (get c / 2 ^ 8) ∷ rest)
reply_to _ others = none

abbrev pub type_of : List ℕ → ℕ
type_of [] = 0
type_of (t ∷ rest) = t

-- `try_wait`: a reply that does not fit the queue is dropped.
abbrev pub enqueue : ℕ → List ℕ → Icmp → Icmp
enqueue source reply s =
    if leb (length reply) s.queue_space
    then record s {
      queue_space = s.queue_space - length reply;
      resolving = s.resolving ++ ((source, reply) ∷ []);
    }
    else s

-- `received`, up to the wait for the address of the peer.
unfoldable pub received : List ℕ → List ℕ → ℕ → Icmp → Option Icmp
unfolding reply_to
received front others source s =
    let replied = reply_to front others >>= λ reply. some (enqueue source reply s) in
    if leb 8 (length front) && type_of front == echo_request then replied else some s

-- The reply at a place among those that wait, and the others.
unfoldable pub extract : ℕ → List (ℕ × List ℕ) → Option ((ℕ × List ℕ) × List (ℕ × List ℕ))
extract i [] = none
extract zero (x ∷ xs) = some (x, xs)
extract (suc i) (x ∷ xs) = extract i xs >>= λ r. some (r.0, x ∷ r.1)

-- The address for one of the replies that wait has come. Each has its own future, so that the
-- addresses come in any order.
unfoldable pub resolved : ℕ → ℕ → Icmp → Icmp
unfolding extract
resolved i e_dst s = elim (extract i s.resolving) [
  | none ↦ s
  | some r ↦ record s {
    resolving = r.1;
    packetq =
        s.packetq
        ++ (record { to = r.0.0; bytes = r.0.1; e_dst = e_dst; proto_num = icmp_num } ∷ []);
  }
]

-- `get_l2_dst_address` has failed for one of the replies that wait: nothing runs behind the future,
-- and the reply is destroyed with it.
unfoldable pub resolution_failed : ℕ → Icmp → Icmp
unfolding extract
resolution_failed i s = elim (extract i s.resolving) [
  | none ↦ s
  | some r ↦ record s { resolving = r.1 }
]

-- The packet provider.
unfoldable pub provide : Icmp → Option L4Packet × Icmp
provide s = elim s.packetq [
  | [] ↦ (none, s)
  | q ∷ qs ↦ (some q, record s { packetq = qs; queue_space = s.queue_space + length q.bytes })
]
