-- ===== src/Ip/Fragments/Timeout.antt =====
-- What `frag_timeout` drops, and what it leaves.
use actor_network.Prelude.{
  Bool, Bool-cases, List, [], ap, arith, false, if◌then◌else◌, inl, inr, length, ltb, none, refl,
  subst, sym, true, ℕ, ◌+◌, ◌<◌, ◌∙◌, ◌∷◌, ◌≡◌, ◌≤◌,
}
use actor_network.Ip.{Frag, FragId, Ipv4, frag_timeout_span, same_id}
use actor_network.Ip.Fragments.{
  drop_oldest, erase_frag, frag_arm, frag_drop, frag_of, frag_timeout, put_frag, rearm, sweep,
  timeout_loop,
}
use actor_network.Ip.Fragments.Keys.{same_id→eq}

frag_of-erase_other :
    (m : List (FragId × Frag)) (j id : FragId)
    → same_id j id ≡ false
    → frag_of (erase_frag m j) id ≡ frag_of m id
unfolding frag_of erase_frag
frag_of-erase_other [] j id ne = refl
frag_of-erase_other ((k, f) ∷ m) j id ne = by_key (same_id k j) refl (frag_of-erase_other m j id ne)
  where
    by_key :
        (b : Bool)
        → same_id k j ≡ b
        → frag_of (erase_frag m j) id ≡ frag_of m id
        → frag_of (erase_frag ((k, f) ∷ m) j) id ≡ frag_of ((k, f) ∷ m) id
    by_key true e further =
        let other : same_id k id ≡ false = ap (λ i. same_id i id) (same_id→eq k j e) ∙ ne in
        rw (erase_frag, frag_of, e, other) further
    by_key false e further =
        rw (erase_frag, frag_of, e) (ap (λ g. if same_id k id then f else g) further)

-- Young enough to be kept.
abbrev pub IsYoung : ℕ → Frag → Type 0
IsYoung now f = now ≤ f.rx_time + frag_timeout_span

different :
    (m : List (FragId × Frag)) (now : ℕ) (j id : FragId)
    → ltb ((frag_of m j).rx_time + frag_timeout_span) now ≡ true
    → IsYoung now (frag_of m id)
    → same_id j id ≡ false
different m now j id old young = elim (Bool-cases (same_id j id)) [
  | inl e ↦
      let rx : (frag_of m j).rx_time ≡ (frag_of m id).rx_time =
        ap (λ i. (frag_of m i).rx_time) (same_id→eq j id e) in
      let bad : ⊥ = ground arith in elim bad [ ]
  | inr e ↦ e
]

-- Looking an entry up, which makes one, changes no entry.
frag_of-found :
    (m : List (FragId × Frag)) (j id : FragId)
    → frag_of (put_frag j (frag_of m j) m) id ≡ frag_of m id
unfolding frag_of
frag_of-found m j id = elim (Bool-cases (same_id j id)) [
  | inl e ↦ rw e (ap (frag_of m) (same_id→eq j id e))
  | inr e ↦ rw e (frag_of-erase_other m j id e)
]

timeout_loop-keeps :
    (now : ℕ) (ids : List FragId) (s : Ipv4) (id : FragId)
    → IsYoung now (frag_of s.frags id)
    → frag_of (timeout_loop now ids s).frags id ≡ frag_of s.frags id
unfolding timeout_loop frag_drop
timeout_loop-keeps now [] s id young = refl
timeout_loop-keeps now (j ∷ younger) s id young =
    elim (Bool-cases (ltb ((frag_of s.frags j).rx_time + frag_timeout_span) now)) [
      | inl e ↦
          let same = frag_of-erase_other s.frags j id (different s.frags now j id e young) in
          rw e (
            timeout_loop-keeps now younger (drop_oldest j younger s) id
              (subst (IsYoung now) (sym same) young)
            ∙ same)
      | inr e ↦ rw e (frag_of-found s.frags j id)
    ]

-- The oldest of the entries that are left is young.
abbrev pub OldestIsYoung : ℕ → List FragId → List (FragId × Frag) → Type 0
OldestIsYoung now [] m = Unit
OldestIsYoung now (id ∷ younger) m = IsYoung now (frag_of m id)

timeout_loop-oldest :
    (now : ℕ) (ids : List FragId) (s : Ipv4)
    → s.frags_age ≡ ids
    → OldestIsYoung now (timeout_loop now ids s).frags_age (timeout_loop now ids s).frags
unfolding timeout_loop frag_drop
timeout_loop-oldest now [] s e = subst (λ l. OldestIsYoung now l s.frags) (sym e) tt
timeout_loop-oldest now (j ∷ younger) s e =
    elim (Bool-cases (ltb ((frag_of s.frags j).rx_time + frag_timeout_span) now)) [
      | inl d ↦ rw d (timeout_loop-oldest now younger (drop_oldest j younger s) refl)
      | inr d ↦ rw d (
          subst (λ l. OldestIsYoung now l (put_frag j (frag_of s.frags j) s.frags)) (sym e)
            (subst (IsYoung now) (sym (frag_of-found s.frags j j)) (ground arith)))
    ]

rearm_frags : (m : List (FragId × Frag)) (now : ℕ) (s : Ipv4) → (rearm m now s).frags ≡ s.frags
unfolding frag_arm
rearm_frags [] now s = refl
rearm_frags (_ ∷ m) now s = refl

rearm_age :
    (m : List (FragId × Frag)) (now : ℕ) (s : Ipv4) → (rearm m now s).frags_age ≡ s.frags_age
unfolding frag_arm
rearm_age [] now s = refl
rearm_age (_ ∷ m) now s = refl

sweep-keeps :
    (m : List (FragId × Frag)) (now : ℕ) (s : Ipv4) (id : FragId)
    → IsYoung now (frag_of s.frags id)
    → frag_of (sweep m now s).frags id ≡ frag_of s.frags id
sweep-keeps [] now s id young = refl
sweep-keeps (_ ∷ m) now s id young =
    ap (λ l. frag_of l id) (rearm_frags _ now (timeout_loop now s.frags_age s))
    ∙ timeout_loop-keeps now s.frags_age s id young

sweep-oldest :
    (m : List (FragId × Frag)) (now : ℕ) (s : Ipv4)
    → s.frags ≡ m
    → 0 < length m
    → OldestIsYoung now (sweep m now s).frags_age (sweep m now s).frags
sweep-oldest [] now s e pos = elim pos [ ]
sweep-oldest (_ ∷ m) now s e pos =
    let t = timeout_loop now s.frags_age s in
    subst (λ l. OldestIsYoung now l (rearm t.frags now t).frags) (sym (rearm_age t.frags now t))
      (subst (OldestIsYoung now t.frags_age) (sym (rearm_frags t.frags now t))
        (timeout_loop-oldest now s.frags_age s refl))

-- When the timer goes off, no datagram is dropped that was begun within the last 30 seconds; and of the
-- datagrams that are left, if there were any, the first in the list of ages was.
pub frag_timeout-young :
    (now : ℕ) (s : Ipv4) (id : FragId)
    → IsYoung now (frag_of s.frags id)
    → 0 < length s.frags
    → (frag_of (frag_timeout now s).frags id ≡ frag_of s.frags id)
      × OldestIsYoung now (frag_timeout now s).frags_age (frag_timeout now s).frags
unfolding frag_timeout
frag_timeout-young now s id young pos = (
  sweep-keeps s.frags now (record s { frag_timer = none }) id young,
  sweep-oldest s.frags now (record s { frag_timer = none }) refl pos,
)
