-- ===== src/Ip/Send/Loop.antt =====
-- What `send` makes of a packet that has to be fragmented.
use actor_network.Prelude.{
  List, Returns, Returns-bind, Returns-guard, Returns-if, Returns_map, [], ap, append-nil,
  append_assoc, arith, drop, drop-drop, drop_all, leb, length, length-drop, length-take, le→leb,
  min, refl, subst, suc, sym, take, true, zero, ℕ, ◌%◌, ◌++◌, ◌+◌, ◌-◌, ◌<◌, ◌==◌, ◌>>=◌, ◌^◌, ◌∙◌,
  ◌∷◌, ◌≡◌, ◌≤◌,
}
use actor_network.Ip.{IpEnv, Ipv4, L3Packet}
use actor_network.Ip.Send.{Route, needs_frag, room, send, send_loop, send_pkt, shared}
use actor_network.Ip.Send.Pieces.{IsPiece, Queues, send_pkt-Queues}

-- The queued packets carry `bytes`, which lie from `offset` on, in order and in full.
abbrev pub Pieces : IpEnv → Route → ℕ → ℕ → List ℕ → List L3Packet → Type 0
Pieces env r host offset bytes [] = bytes ≡ []
Pieces env r host offset bytes (q ∷ qs) =
    (n : ℕ) × (0 < n)
    × (n ≤ length bytes)
    × IsPiece env r host offset (length bytes - n) (take n bytes) q
    × Pieces env r host (offset + n) (drop n bytes) qs

-- Such packets were put at the end of the queue, and nothing else has changed.
abbrev pub Sends : IpEnv → Route → ℕ → List ℕ → Ipv4 → Ipv4 → Type 0
Sends env r offset bytes s s' =
    (qs : List L3Packet) × (s' ≡ record s { packetq = s.packetq ++ qs })
    × Pieces env r s.host_address offset bytes qs

abbrev requeue : Ipv4 → List L3Packet → Ipv4
requeue s l = record s { packetq = l }

queued-append :
    (s : Ipv4) (q : L3Packet) (qs : List L3Packet)
    → record s { packetq = (s.packetq ++ (q ∷ [])) ++ qs }
      ≡ record s { packetq = s.packetq ++ (q ∷ qs) }
queued-append s q qs = ap (requeue s) (append_assoc s.packetq (q ∷ []) qs)

same : (s : Ipv4) → s ≡ record s { packetq = s.packetq ++ [] }
same s = ap (requeue s) (sym (append-nil s.packetq))

module _ (env : IpEnv) (r : Route) (p : List ℕ) (to_fits : r.to < 2 ^ 32)
    (mtu_min : 28 ≤ env.features.mtu) (mtu_fits : env.features.mtu < 2 ^ 16)
    (mtu_multiple : (env.features.mtu - 20) % 8 ≡ 0) (short : length p < 2 ^ 16) where
  room_is : room env ≡ env.features.mtu - 20
  room_is = omega arith

  -- One turn, with `n` of the `remaining` bytes, and then the rest.
  turn-Sends :
      (n remaining offset : ℕ) (s s' : Ipv4)
      → 0 < n
      → n ≤ remaining
      → offset + remaining ≡ length p
      → Queues env r (take n (drop offset p)) (remaining - n) offset s s'
      → (out : Ipv4) → Sends env r (offset + n) (drop (offset + n) p) s' out
      → Sends env r offset (drop offset p) s out
  turn-Sends n remaining offset s s' pos le sums (q, e, piece) out (qs, d, pieces) =
      let left : length (drop offset p) ≡ remaining = omega (arith, length-drop offset p) in
      (
        q ∷ qs,
        d ∙ ap (λ t. requeue t (t.packetq ++ qs)) e ∙ queued-append s q qs,
        (
          n,
          pos,
          omega arith,
          rw left piece,
          rw (drop-drop n offset p) (
              subst (λ t. Pieces env r t.host_address (offset + n) (drop (offset + n) p) qs) e
                pieces),
        ),
      )

  -- What the loop does with that much fuel.
  abbrev LoopSends : ℕ → Type 0
  LoopSends fuel =
      (remaining offset : ℕ) (s : Ipv4)
      → s.host_address < 2 ^ 32
      → offset + remaining ≡ length p
      → remaining ≤ fuel
      → (0 < remaining → offset % 8 ≡ 0)
      → Returns (send_loop env fuel r p remaining offset s) (Sends env r offset (drop offset p) s)

  -- The loop at a turn that has bytes to send.
  step-Sends :
      (fuel : ℕ)
      → LoopSends fuel
      → (remaining offset : ℕ) (s : Ipv4) → s.host_address < 2 ^ 32
      → offset + remaining ≡ length p
      → remaining ≤ suc fuel
      → offset % 8 ≡ 0
      → 0 < remaining
      → Returns
          (shared env offset (min (room env) remaining) p >>= λ pkt.
            send_pkt env true r pkt (remaining - min (room env) remaining) offset s >>= λ s'.
            send_loop env fuel r p
              (remaining - min (room env) remaining)
              ((offset + min (room env) remaining) % 2 ^ 16)
              s')
          (Sends env r offset (drop offset p) s)
  step-Sends fuel further remaining offset s host sums enough multiple more =
      let n = min (room env) remaining in
      let wraps : (offset + n) % 2 ^ 16 ≡ offset + n = omega (arith, room_is) in
      Returns-bind (λ pkt. pkt ≡ take n (drop offset p)) _ (shared env offset n p) _
        (Returns-guard _ (leb (offset + n) (length p)) _
          (le→leb (offset + n) (length p) (omega arith)) refl)
        (λ pkt e. rw e (
          Returns-bind (Queues env r (take n (drop offset p)) (remaining - n) offset s) _ _ _
            (send_pkt-Queues env r (take n (drop offset p)) (remaining - n) offset s host to_fits
              (omega arith) (omega (arith, room_is, length-take n (drop offset p))) mtu_fits
              multiple)
            (λ s' queued.
              Returns_map (Sends env r (offset + n) (drop (offset + n) p) s') _ _
                (rw wraps (
                  further (remaining - n) (offset + n) s'
                    (subst (λ t. t.host_address < 2 ^ 32) (sym queued.1) host) (omega arith)
                    (omega (arith, room_is)) (λ m. omega (arith, room_is))))
                (turn-Sends n remaining offset s s' (omega (arith, room_is)) (omega arith) sums
                  queued))))

  loop-Sends : (fuel : ℕ) → LoopSends fuel
  unfolding send_loop
  loop-Sends zero remaining offset s host sums enough multiple =
      let none_left : remaining ≡ 0 = omega arith in
      let at_end : offset ≡ length p = omega arith in
      rw none_left ([], same s, rw at_end (drop_all p))
  loop-Sends (suc fuel) remaining offset s host sums enough multiple =
      Returns-if (Sends env r offset (drop offset p) s) (remaining == 0) _ _
        (λ e. ([], same s, ended (ground arith)))
        (λ e.
          step-Sends fuel (loop-Sends fuel) remaining offset s host sums enough
            (multiple (ground arith)) (ground arith))
    where
      ended : offset ≡ length p → drop offset p ≡ []
      ended at_end = rw at_end (drop_all p)

-- On a link whose MTU leaves room for a multiple of 8 bytes, a packet below 64 KiB that has to be
-- fragmented is sent as packets that fit the link: their payloads are those of the packet, in order and
-- in full, each with its offset, and MF set on all but the last.
pub send-Sends :
    (env : IpEnv) (r : Route) (p : List ℕ) (s : Ipv4)
    → r.to < 2 ^ 32
    → s.host_address < 2 ^ 32
    → 28 ≤ env.features.mtu
    → env.features.mtu < 2 ^ 16
    → (env.features.mtu - 20) % 8 ≡ 0
    → length p < 2 ^ 16
    → needs_frag p r.proto_num env.features ≡ true
    → Returns (send env r p s) (Sends env r 0 p s)
unfolding send
send-Sends env r p s to_fits host lo hi multiple short frag =
    rw (frag, low_bits_are)
      (loop-Sends env r p to_fits lo hi multiple short (length p) (length p) 0 s host (omega arith)
        (omega arith) (λ more. refl))
  where
    low_bits_are : length p % 2 ^ 16 ≡ length p
    low_bits_are = omega arith
