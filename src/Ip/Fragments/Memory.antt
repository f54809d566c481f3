-- ===== src/Ip/Fragments/Memory.antt =====
-- The memory that the fragments take up, and the list of ages that has to name them all.
use actor_network.Prelude.{
  Bool-cases, List, [], ap, arith, false, inl, inr, refl, subst, sym, true, ℕ, ◌++◌, ◌+◌, ◌<◌, ◌^◌,
  ◌∙◌, ◌∷◌, ◌≡◌, ◌⊎◌,
}
use actor_network.Ip.{Frag, FragId, same_id}
use actor_network.Ip.Fragments.{erase_frag, frag_of, remove_id}
use actor_network.Ip.Fragments.Keys.{same_id→eq}

abbrev pub AbsentKey : FragId → List (FragId × Frag) → Type 0
AbsentKey id [] = Unit
AbsentKey id ((k, f) ∷ m) = (same_id k id ≡ false) × AbsentKey id m

-- Every key once, and 32-bit sizes.
abbrev pub IsTable : List (FragId × Frag) → Type 0
IsTable [] = Unit
IsTable ((k, f) ∷ m) = AbsentKey k m × (f.mem_size < 2 ^ 32) × IsTable m

abbrev pub total : List (FragId × Frag) → ℕ
total [] = 0
total ((k, f) ∷ m) = f.mem_size + total m

abbrev pub Listed : FragId → List FragId → Type 0
Listed k [] = ⊥
Listed k (j ∷ js) = (j ≡ k) ⊎ Listed k js

abbrev pub Tracked : List FragId → List (FragId × Frag) → Type 0
Tracked ids [] = Unit
Tracked ids ((k, f) ∷ m) = Listed k ids × Tracked ids m

erase-absent : (m : List (FragId × Frag)) (id : FragId) → AbsentKey id m → erase_frag m id ≡ m
unfolding erase_frag
erase-absent [] id h = refl
erase-absent ((k, f) ∷ m) id h = rw h.0 (ap (◌∷◌ (k, f)) (erase-absent m id h.1))

erase-Absent_other :
    (m : List (FragId × Frag)) (j id : FragId) → AbsentKey j m → AbsentKey j (erase_frag m id)
unfolding erase_frag
erase-Absent_other [] j id h = tt
erase-Absent_other ((k, f) ∷ m) j id h = elim (Bool-cases (same_id k id)) [
  | inl e ↦ rw e (erase-Absent_other m j id h.1)
  | inr e ↦ rw e (h.0, erase-Absent_other m j id h.1)
]

pub erase-Absent_same : (m : List (FragId × Frag)) (id : FragId) → AbsentKey id (erase_frag m id)
unfolding erase_frag
erase-Absent_same [] id = tt
erase-Absent_same ((k, f) ∷ m) id = elim (Bool-cases (same_id k id)) [
  | inl e ↦ rw e (erase-Absent_same m id)
  | inr e ↦ rw e (e, erase-Absent_same m id)
]

pub erase-IsTable : (m : List (FragId × Frag)) (id : FragId) → IsTable m → IsTable (erase_frag m id)
unfolding erase_frag
erase-IsTable [] id h = tt
erase-IsTable ((k, f) ∷ m) id h = elim (Bool-cases (same_id k id)) [
  | inl e ↦ rw e (erase-IsTable m id h.2)
  | inr e ↦ rw e (erase-Absent_other m k id h.0, h.1, erase-IsTable m id h.2)
]

pub frag_of_small :
    (m : List (FragId × Frag)) (id : FragId) → IsTable m → (frag_of m id).mem_size < 2 ^ 32
unfolding frag_of
frag_of_small [] id h = omega arith
frag_of_small ((k, f) ∷ m) id h = elim (Bool-cases (same_id k id)) [
  | inl e ↦ rw e h.1
  | inr e ↦ rw e (frag_of_small m id h.2)
]

pub total-erase :
    (m : List (FragId × Frag)) (id : FragId)
    → IsTable m
    → total (erase_frag m id) + (frag_of m id).mem_size ≡ total m
unfolding frag_of erase_frag
total-erase [] id h = refl
total-erase ((k, f) ∷ m) id h = elim (Bool-cases (same_id k id)) [
  | inl e ↦
      let eq : k ≡ id = same_id→eq k id e in
      let gone : total (erase_frag m id) ≡ total m =
        ap total (erase-absent m id (subst (λ j. AbsentKey j m) eq h.0)) in
      rw e (omega arith)
  | inr e ↦ rw e (omega (arith, total-erase m id h.2))
]

Tracked-map :
    (ids js : List FragId) (m : List (FragId × Frag))
    → ((k : FragId) → Listed k ids → Listed k js)
    → Tracked ids m
    → Tracked js m
Tracked-map ids js [] g h = tt
Tracked-map ids js ((k, f) ∷ m) g h = (g k h.0, Tracked-map ids js m g h.1)

pub Listed-append : (k : FragId) (ids js : List FragId) → Listed k ids → Listed k (ids ++ js)
Listed-append k [] js h = elim h [ ]
Listed-append k (i ∷ ids) js (inl e) = inl e
Listed-append k (i ∷ ids) js (inr h) = inr (Listed-append k ids js h)

pub Listed-last : (k : FragId) (ids : List FragId) → Listed k (ids ++ (k ∷ []))
Listed-last k [] = inl refl
Listed-last k (i ∷ ids) = inr (Listed-last k ids)

pub Listed-remove :
    (k id : FragId) (ids : List FragId)
    → same_id k id ≡ false
    → Listed k ids
    → Listed k (remove_id id ids)
unfolding remove_id
Listed-remove k id [] ne h = elim h [ ]
Listed-remove k id (i ∷ ids) ne h = elim (Bool-cases (same_id i id)) [
  | inl e ↦ rw e (elim h [
    | inl d ↦ let bad : true ≡ false = sym e ∙ ap (λ j. same_id j id) d ∙ ne in absurd (cc)
    | inr j ↦ Listed-remove k id ids ne j
  ])
  | inr e ↦ rw e (elim h [ inl d ↦ inl d | inr j ↦ inr (Listed-remove k id ids ne j) ])
]

-- Without the entry of `id`, a list of the other keys does.
pub Tracked-erase :
    (ids js : List FragId) (m : List (FragId × Frag)) (id : FragId)
    → ((k : FragId) → same_id k id ≡ false → Listed k ids → Listed k js)
    → Tracked ids m
    → Tracked js (erase_frag m id)
unfolding erase_frag
Tracked-erase ids js [] id g h = tt
Tracked-erase ids js ((k, f) ∷ m) id g h = elim (Bool-cases (same_id k id)) [
  | inl e ↦ rw e (Tracked-erase ids js m id g h.1)
  | inr e ↦ rw e (g k e h.0, Tracked-erase ids js m id g h.1)
]
