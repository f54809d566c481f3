-- ===== src/Ip/Fragments/Keys.antt =====
-- The table of fragments, by its keys.
use actor_network.Prelude.{Bool-cases, List, [], arith, inl, inr, refl, true, ◌∷◌, ◌≡◌}
use actor_network.Ip.{Frag, FragId, same_id}
use actor_network.Ip.Fragments.{erase_frag, frag_of, fresh_frag, put_frag}

pub same_id_refl : (id : FragId) → same_id id id ≡ true
same_id_refl id = ground arith

pub same_id→eq : (x y : FragId) → same_id x y ≡ true → x ≡ y
same_id→eq x y e =
    let a : x.src_ip ≡ y.src_ip = ground arith in
    let b : x.dst_ip ≡ y.dst_ip = ground arith in
    let c : x.identification ≡ y.identification = ground arith in
    let d : x.protocol ≡ y.protocol = ground arith in
    λ i. record { src_ip = a i; dst_ip = b i; identification = c i; protocol = d i }

pub frag_of-erase_same :
    (m : List (FragId × Frag)) (id : FragId) → frag_of (erase_frag m id) id ≡ fresh_frag
unfolding frag_of erase_frag
frag_of-erase_same [] id = refl
frag_of-erase_same ((k, f) ∷ m) id = elim (Bool-cases (same_id k id)) [
  | inl e ↦ rw e (frag_of-erase_same m id)
  | inr e ↦ rw (e, e) (frag_of-erase_same m id)
]

pub frag_of-put_same :
    (m : List (FragId × Frag)) (id : FragId) (f : Frag) → frag_of (put_frag id f m) id ≡ f
unfolding frag_of
frag_of-put_same m id f = rw (same_id_refl id) refl
