-- ===== src/Ip/Icmp/Space.antt =====
-- The room in the queue of replies.
use actor_network.Prelude.{
  Ensures, Ensures-bind, Ensures-if, Ensures-some, Ensures_any, List, Option, [], arith, leb,
  length, none, refl, some, suc, zero, ℕ, ◌&&◌, ◌++◌, ◌+◌, ◌==◌, ◌∷◌, ◌≡◌,
}
use actor_network.Ip.{L4Packet, icmp_num}
use actor_network.Ip.Icmp.{
  Icmp, echo_request, enqueue, extract, provide, received, reply_to, resolution_failed, resolved,
  type_of,
}

-- The bytes of the replies that wait, for an address or in the queue.
abbrev pub resolving_bytes : List (ℕ × List ℕ) → ℕ
resolving_bytes [] = 0
resolving_bytes ((to, reply) ∷ rest) = length reply + resolving_bytes rest

abbrev pub queued_bytes : List L4Packet → ℕ
queued_bytes [] = 0
queued_bytes (q ∷ qs) = length q.bytes + queued_bytes qs

abbrev pub bytes_held : Icmp → ℕ
bytes_held s = resolving_bytes s.resolving + queued_bytes s.packetq

-- The bytes of the reply at a place among those that wait.
abbrev pub bytes_at : ℕ → Icmp → ℕ
bytes_at i s = elim (extract i s.resolving) [ none ↦ 0 | some r ↦ length r.0.1 ]

-- What can happen to the component, with the bytes of the reply that it loses.
pub data Step : ℕ → Icmp → Icmp → Type 0 where
  arrival :
      {s s' : Icmp} (front others : List ℕ) (source : ℕ)
      → received front others source s ≡ some s'
      → Step 0 s s'
  address : {s : Icmp} (i e_dst : ℕ) → Step 0 s (resolved i e_dst s)
  no_address : {s : Icmp} (i : ℕ) → Step (bytes_at i s) s (resolution_failed i s)
  taken : {s : Icmp} → Step 0 s (provide s).1

pub data Steps : ℕ → Icmp → Icmp → Type 0 where
  still : {s : Icmp} → Steps 0 s s
  more :
      {s s' s'' : Icmp} {lost more_lost : ℕ}
      → Steps lost s s'
      → Step more_lost s' s''
      → Steps (lost + more_lost) s s''

resolving_bytes-append :
    (xs ys : List (ℕ × List ℕ))
    → resolving_bytes (xs ++ ys) ≡ resolving_bytes xs + resolving_bytes ys
resolving_bytes-append [] ys = omega arith
resolving_bytes-append ((to, reply) ∷ xs) ys = omega (arith, resolving_bytes-append xs ys)

queued_bytes-append :
    (xs ys : List L4Packet) → queued_bytes (xs ++ ys) ≡ queued_bytes xs + queued_bytes ys
queued_bytes-append [] ys = omega arith
queued_bytes-append (q ∷ xs) ys = omega (arith, queued_bytes-append xs ys)

-- The room and the bytes held, together.
abbrev kept_sum : Icmp → ℕ
kept_sum s = s.queue_space + bytes_held s

enqueue_sum :
    (source : ℕ) (reply : List ℕ) (s : Icmp) → kept_sum (enqueue source reply s) ≡ kept_sum s
enqueue_sum source reply s =
    ground (arith, resolving_bytes-append s.resolving ((source, reply) ∷ []))

received_sum :
    (front others : List ℕ) (source : ℕ) (s : Icmp)
    → Ensures (received front others source s) (λ s'. kept_sum s' ≡ kept_sum s)
unfolding received
received_sum front others source s =
    Ensures-if (λ s'. kept_sum s' ≡ kept_sum s)
      (leb 8 (length front) && type_of front == echo_request) _ _
      (Ensures-bind (λ r. Unit) (λ s'. kept_sum s' ≡ kept_sum s) (reply_to front others) _
        (Ensures_any _) (λ reply u. enqueue_sum source reply s))
      refl

resolving_bytes-extract :
    (i : ℕ) (xs : List (ℕ × List ℕ))
    → Ensures (extract i xs) (λ r. resolving_bytes xs ≡ length r.0.1 + resolving_bytes r.1)
unfolding extract
resolving_bytes-extract i [] = tt
resolving_bytes-extract zero (x ∷ xs) = refl
resolving_bytes-extract (suc i) (x ∷ xs) =
    Ensures-bind (λ r. resolving_bytes xs ≡ length r.0.1 + resolving_bytes r.1) _ (extract i xs) _
      (resolving_bytes-extract i xs) (λ r h. omega arith)

resolved_sum : (i e_dst : ℕ) (s : Icmp) → kept_sum (resolved i e_dst s) ≡ kept_sum s
unfolding resolved
resolved_sum i e_dst s = by_case (extract i s.resolving) refl
  where
    by_case :
        (o : Option ((ℕ × List ℕ) × List (ℕ × List ℕ)))
        → extract i s.resolving ≡ o
        → kept_sum (resolved i e_dst s) ≡ kept_sum s
    by_case none e = ground (arith, e)
    by_case (some r) e =
        let total =
          Ensures-some _ (extract i s.resolving) (resolving_bytes-extract i s.resolving) e in
        ground (
          arith,
          e,
          total,
          queued_bytes-append s.packetq
              (record { to = r.0.0; bytes = r.0.1; e_dst = e_dst; proto_num = icmp_num } ∷ []),
        )

failed_sum : (i : ℕ) (s : Icmp) → kept_sum (resolution_failed i s) + bytes_at i s ≡ kept_sum s
unfolding resolution_failed
failed_sum i s = by_case (extract i s.resolving) refl
  where
    by_case :
        (o : Option ((ℕ × List ℕ) × List (ℕ × List ℕ)))
        → extract i s.resolving ≡ o
        → kept_sum (resolution_failed i s) + bytes_at i s ≡ kept_sum s
    by_case none e = ground (arith, e)
    by_case (some r) e =
        let total =
          Ensures-some _ (extract i s.resolving) (resolving_bytes-extract i s.resolving) e in
        ground (arith, e, total)

provide_sum : (s : Icmp) → kept_sum (provide s).1 ≡ kept_sum s
unfolding provide
provide_sum s = by_case s.packetq refl
  where
    by_case : (l : List L4Packet) → s.packetq ≡ l → kept_sum (provide s).1 ≡ kept_sum s
    by_case [] e = ground (arith, e)
    by_case (q ∷ qs) e = ground (arith, e)

Step-sum : {lost : ℕ} {s s' : Icmp} → Step lost s s' → kept_sum s' + lost ≡ kept_sum s
Step-sum (arrival {s} {s'} front others source e) =
    let same =
      Ensures-some _ (received front others source s) (received_sum front others source s) e in
    omega (arith, same)
Step-sum (address {s} i e_dst) = omega (arith, resolved_sum i e_dst s)
Step-sum (no_address {s} i) = failed_sum i s
Step-sum (taken {s}) = omega (arith, provide_sum s)

-- Whatever echo requests come, addresses are found or not, in any order, and replies are taken: the room
-- in the queue, the replies that wait and the replies that were lost for want of an address make up the
-- same number of bytes always. So what waits is bounded, and each lost reply takes its room with it.
pub Steps-sum :
    {lost : ℕ} {s s' : Icmp}
    → Steps lost s s'
    → s'.queue_space + bytes_held s' + lost ≡ s.queue_space + bytes_held s
Steps-sum (still {s}) = omega arith
Steps-sum (more {s} {s'} {s''} {lost} {more_lost} steps step) =
    let h = Step-sum step in let k = Steps-sum steps in omega (arith, h, k)
