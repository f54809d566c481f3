-- ===== src/Arp.antt =====
-- `arp_for` of include/nil/actor/network/arp.hh: the table of addresses, the lookups that wait for an
-- answer, and the answers to requests. An address is a number. A promise is its number, in the order
-- in which they are made, and `settled` is what promises got, the latest first. The timer of a
-- resolution runs as long as the resolution is in progress. A header is the record that
-- `arp_hdr::read` gives; its bytes are not modelled.
pub mod Resolve
mod Tests
use actor_network.Prelude.{
  List, Option, [], if◌then◌else◌, leb, length, none, not, some, ℕ, ◌&&◌, ◌++◌, ◌+◌, ◌-◌, ◌==◌, ◌^◌,
  ◌∷◌,
}

pub record ArpHdr : Type 0 where
  pub htype : ℕ
  pub ptype : ℕ
  pub hlen : ℕ
  pub plen : ℕ
  pub oper : ℕ
  pub sender_hwaddr : ℕ
  pub sender_paddr : ℕ
  pub target_hwaddr : ℕ
  pub target_paddr : ℕ

-- What a promise gets: an address, or `arp_timeout_error`.
pub data Outcome : Type 0 where
  address : ℕ → Outcome
  timed_out : Outcome

-- What `lookup` gives: a ready address, a promise's future, or `arp_queue_full_error`.
pub data Answer : Type 0 where
  ready waiting : ℕ → Answer
  queue_full : Answer

pub record Arp : Type 0 where
  pub l2self : ℕ
  pub l3self : ℕ
  pub table : List (ℕ × ℕ)
  pub in_progress : List (ℕ × List ℕ)
  pub next_promise : ℕ
  pub settled : List (ℕ × Outcome)
  pub packetq : List (ℕ × ArpHdr)

abbrev pub max_waiters : ℕ
max_waiters = 512

abbrev pub broadcast_l2 : ℕ
broadcast_l2 = 2 ^ 48 - 1

-- `ipv4::broadcast_address`.
abbrev pub broadcast_l3 : ℕ
broadcast_l3 = 2 ^ 32 - 1

module _ {ℓ} {A : Type ℓ} where
  unfoldable pub find_key : List (ℕ × A) → ℕ → Option A
  find_key [] k = none
  find_key ((j, v) ∷ m) k = if j == k then some v else find_key m k

  unfoldable pub erase_key : List (ℕ × A) → ℕ → List (ℕ × A)
  erase_key [] k = []
  erase_key ((j, v) ∷ m) k = let rest = erase_key m k in if j == k then rest else (j, v) ∷ rest

  unfoldable pub assign : ℕ → A → List (ℕ × A) → List (ℕ × A)
  unfolding erase_key
  assign k v m = (k, v) ∷ erase_key m k

unfoldable pub make_query_packet : ℕ → Arp → ArpHdr
make_query_packet paddr a = record {
  htype = 1;
  ptype = 0x800;
  hlen = 6;
  plen = 4;
  oper = 1;
  sender_hwaddr = a.l2self;
  sender_paddr = a.l3self;
  target_hwaddr = broadcast_l2;
  target_paddr = paddr;
}

abbrev pub send : ℕ → ArpHdr → Arp → Arp
send to p a = record a { packetq = a.packetq ++ (to, p) ∷ [] }

unfoldable pub send_query : ℕ → Arp → Arp
unfolding make_query_packet
send_query paddr a = send broadcast_l2 (make_query_packet paddr a) a

-- `set_self_addr`.
unfoldable pub set_self_addr : ℕ → Arp → Arp
unfolding assign erase_key
set_self_addr addr a = record a {
  table = assign addr a.l2self (erase_key a.table a.l3self);
  l3self = addr;
}

-- The end of `lookup`, where `waiters` are those of the resolution.
abbrev enqueue : ℕ → List ℕ → Arp → Answer × Arp
enqueue paddr waiters a = if leb max_waiters (length waiters) then (queue_full, a) else (
  waiting a.next_promise,
  record a {
    in_progress = (paddr, waiters ++ a.next_promise ∷ []) ∷ erase_key a.in_progress paddr;
    next_promise = a.next_promise + 1;
  },
)

unfoldable pub lookup : ℕ → Arp → Answer × Arp
unfolding find_key erase_key send_query
lookup paddr a = elim (find_key a.table paddr) [
  | some l2 ↦ (ready l2, a)
  | none ↦ elim (find_key a.in_progress paddr) [
    | some waiters ↦ enqueue paddr waiters a
    | none ↦
        enqueue paddr [] (send_query paddr (record a { in_progress = (paddr, []) ∷ a.in_progress }))
  ]
]

-- Every waiter gets the outcome, in order.
unfoldable pub settle : List ℕ → Outcome → List (ℕ × Outcome) → List (ℕ × Outcome)
settle [] o done = done
settle (w ∷ ws) o done = settle ws o ((w, o) ∷ done)

-- The callback of the timer of a resolution.
unfoldable pub on_timeout : ℕ → Arp → Arp
unfolding find_key erase_key send_query settle
on_timeout paddr a = elim (find_key a.in_progress paddr) [
  | none ↦ a
  | some waiters ↦
      let b = send_query paddr a in
      record b {
        settled = settle waiters timed_out b.settled;
        in_progress = (paddr, []) ∷ erase_key b.in_progress paddr;
      }
]

unfoldable pub learn : ℕ → ℕ → Arp → Arp
unfolding find_key assign settle
learn hwaddr paddr a =
    let b = record a { table = assign paddr hwaddr a.table } in
    elim (find_key a.in_progress paddr) [
      | none ↦ b
      | some waiters ↦ record b {
        settled = settle waiters (address hwaddr) b.settled;
        in_progress = erase_key b.in_progress paddr;
      }
    ]

unfoldable pub handle_request : ArpHdr → Arp → Arp
handle_request ah a =
    if ah.target_paddr == a.l3self && not (a.l3self == broadcast_l3)
    then send ah.sender_hwaddr
        (record ah {
          oper = 2;
          target_hwaddr = ah.sender_hwaddr;
          target_paddr = ah.sender_paddr;
          sender_hwaddr = a.l2self;
          sender_paddr = a.l3self;
        })
        a
    else a

-- Those that wait for an address.
unfoldable pub waiters_for : ℕ → Arp → List ℕ
unfolding find_key
waiters_for paddr a = elim (find_key a.in_progress paddr) [ none ↦ [] | some ws ↦ ws ]
