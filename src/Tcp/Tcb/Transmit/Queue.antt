-- ===== src/Tcp/Tcb/Transmit/Queue.antt =====
-- What is sent and what waits is the data that the user gave, in order.
use actor_network.Prelude.{
  Bool-cases, List, [], ap, append_assoc, arith, drop, inl, inr, leb, leb→le, length, length-append,
  ltb, refl, suc, take, zero, ℕ, ◌++◌, ◌+◌, ◌-◌, ◌==◌, ◌∙◌, ◌∷◌, ◌≡◌, ◌≤◌,
}
use actor_network.Tcp.Tcb.{Unacked}
use actor_network.Tcp.Tcb.Reader.{joined}
use actor_network.Tcp.Tcb.Transmit.{collect, split_last, take_unsent}

-- The payload of the segments that are not acknowledged.
abbrev pub in_flight : List Unacked → List ℕ
in_flight [] = []
in_flight (seg ∷ segs) = seg.bytes ++ in_flight segs

collect-joined :
    (n : ℕ) (ps : List (List ℕ))
    → ((collect n ps).0 ++ joined (collect n ps).1 ≡ joined ps)
      × (length (collect n ps).0 + (collect n ps).2 ≡ n)
unfolding collect
collect-joined n [] = (refl, omega arith)
collect-joined n (p ∷ ps) =
    let (split, counted) = collect-joined (n - length p) ps in
    let r = collect (n - length p) ps in
    elim (Bool-cases (leb (length p) n)) [
      | inl fits ↦ rw fits (
        append_assoc p r.0 (joined r.1) ∙ ap (◌++◌ p) split,
        omega (arith, leb→le (length p) n fits, length-append p r.0),
      )
      | inr big ↦ rw big (refl, omega arith)
    ]

take-drop : (n : ℕ) (p rest : List ℕ) → take n p ++ (drop n p ++ rest) ≡ p ++ rest
take-drop zero p rest = refl
take-drop (suc n) [] rest = refl
take-drop (suc n) (x ∷ p) rest = ap (◌∷◌ x) (take-drop n p rest)

length-take_le : (n : ℕ) (p : List ℕ) → length (take n p) ≤ n
length-take_le zero p = omega arith
length-take_le (suc n) [] = omega arith
length-take_le (suc n) (x ∷ p) = omega (arith, length-take_le n p)

split_last-joined :
    (bytes : List ℕ) (left : List (List ℕ)) (k : ℕ)
    → ((split_last (bytes, left, k)).0 ++ joined (split_last (bytes, left, k)).1
        ≡ bytes ++ joined left)
      × (length (split_last (bytes, left, k)).0 ≤ length bytes + k)
split_last-joined bytes [] k = (refl, omega arith)
split_last-joined bytes (q ∷ qs) k = elim (Bool-cases (k == 0)) [
  | inl e ↦ rw e (refl, omega arith)
  | inr e ↦ rw e (
    append_assoc bytes (take k q) (drop k q ++ joined qs)
        ∙ ap (◌++◌ bytes) (take-drop k q (joined qs)),
    omega (arith, length-append bytes (take k q), length-take_le k q),
  )
]

-- Taking bytes off the packets that wait takes their first bytes, at most as many as asked for, on all
-- four ways of `get_transmit_packet`.
pub take_unsent-joined :
    (n : ℕ) (ps : List (List ℕ))
    → ((take_unsent n ps).0 ++ joined (take_unsent n ps).1 ≡ joined ps)
      × (length (take_unsent n ps).0 ≤ n)
unfolding take_unsent
take_unsent-joined n [] = (refl, omega arith)
take_unsent-joined n (p ∷ ps) =
    let (split, counted) = collect-joined (n - length p) ps in
    let r = collect (n - length p) ps in
    let (last, few) = split_last-joined (p ++ r.0) r.1 r.2 in
    elim (Bool-cases (ltb n (length p))) [
      | inl big ↦ rw big (take-drop n p (joined ps), length-take_le n p)
      | inr fits ↦ rw fits (
        last ∙ append_assoc p r.0 (joined r.1) ∙ ap (◌++◌ p) split,
        ground (arith, few, length-append p r.0, counted),
      )
    ]
