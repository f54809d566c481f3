-- ===== src/Packet/Build/Laws.antt =====
-- Building, appending and prepending, seen as operations on byte strings.
use actor_network.Prelude.{
  ==_iff, Bool-cases, List, Returns, Returns_map, [], ap, append-nil, ap₂, arith, drop, false, inl,
  inr, length, length-append, le→leb, ne_of_==_false, refl, subst, suc, sym, true, zero, ℕ, ◌*◌,
  ◌++◌, ◌+◌, ◌<◌, ◌==◌, ◌^◌, ◌∙◌, ◌∷◌, ◌≡◌, ◌≢◌, ◌≤◌,
}
use actor_network.Packet.Build.{append, empty, from_bytes, from_fragment}
use actor_network.Packet.Impl.{
  Base, Fragment, Packet, allocate, external, internal_data_size, nr_frags, push_back, set_base,
  u32, unuse_internal_data, uses_data, using_internal_data,
}
use actor_network.Packet.Impl.Laws.{
  allocate_if_needed_lem, allocate_lem, contents-append, grown, grown_room,
}
use actor_network.Packet.Impl.Valid.{AllLater, Anchored, Holds, contents}

-- A buffer copied into a packet is what the packet holds, in `_data` or outside it.
pub from_bytes-Holds : (bs : List ℕ) → length bs < 2 ^ 32 → Holds bs (from_bytes bs)
unfolding from_bytes
from_bytes-Holds bs h = ground (arith, append-nil bs)

-- A packet with nothing in it yet.
pub record IsEmpty (p : Packet) : Type 0 where
  pub holds : Holds [] p
  pub no_frags : p.frags ≡ []
  pub all_headroom : p.headroom ≡ internal_data_size

pub empty-IsEmpty : Returns empty IsEmpty
unfolding empty
empty-IsEmpty =
    Returns_map _ IsEmpty (allocate 1) (allocate_lem 1 (omega arith))
      (λ p h. record { holds = h.0; no_frags = h.2; all_headroom = h.3 })

pub from_fragment-Holds : (bs : List ℕ) → length bs < 2 ^ 32 → Returns (from_fragment bs) (Holds bs)
unfolding from_fragment allocate push_back
from_fragment-Holds bs h = ground (arith, append-nil bs)

pub AllLater-append : (xs ys : List Fragment) → AllLater xs → AllLater ys → AllLater (xs ++ ys)
AllLater-append [] ys h k = k
AllLater-append (f ∷ xs) ys h k = (h.0, AllLater-append xs ys h.1 k)

pub Anchored-append :
    (h : ℕ) (xs ys : List Fragment) → xs ≢ [] → Anchored h xs → AllLater ys → Anchored h (xs ++ ys)
Anchored-append h [] ys ne v w = absurd (ne refl)
Anchored-append h (f ∷ xs) ys ne v w = (v.0, AllLater-append xs ys v.1 w)

contents-set_base : (b : Base) (fs : List Fragment) → contents (set_base b fs) ≡ contents fs
contents-set_base b [] = refl
contents-set_base b (f ∷ fs) = refl

length-set_base : (b : Base) (fs : List Fragment) → length (set_base b fs) ≡ length fs
length-set_base b [] = refl
length-set_base b (f ∷ fs) = refl

Anchored-set_base_external :
    (h : ℕ) (fs : List Fragment)
    → Anchored h fs
    → uses_data fs ≡ true
    → Anchored internal_data_size (set_base external fs) × AllLater (set_base external fs)
Anchored-set_base_external h [] v u = cc
Anchored-set_base_external h (f ∷ fs) v u = ground arith

pub Anchored-AllLater :
    (h : ℕ) (fs : List Fragment)
    → Anchored h fs
    → uses_data fs ≡ false
    → AllLater fs × (h ≡ internal_data_size)
Anchored-AllLater h [] v u = ground arith
Anchored-AllLater h (f ∷ fs) v u = ground arith

contents-drop-set_base :
    (b : Base) (k : ℕ) (fs : List Fragment)
    → contents (drop k (set_base b fs)) ≡ contents (drop k fs)
contents-drop-set_base b k [] = refl
contents-drop-set_base b zero (f ∷ fs) = refl
contents-drop-set_base b (suc k) (f ∷ fs) = refl

-- Nor does it move bytes between fragments.
pub contents-drop-unuse_internal_data :
    (k : ℕ) (p : Packet)
    → contents (drop k (unuse_internal_data p).frags) ≡ contents (drop k p.frags)
unfolding unuse_internal_data
contents-drop-unuse_internal_data k p = elim (Bool-cases (using_internal_data p)) [
  | inl e ↦ rw e (contents-drop-set_base external k p.frags)
  | inr e ↦ rw e refl
]

-- What leaving the internal buffer does.
pub unuse_internal_data_lem :
    {bs : List ℕ} (p : Packet)
    → Holds bs p
    → Holds bs (unuse_internal_data p)
      × AllLater (unuse_internal_data p).frags
      × ((unuse_internal_data p).headroom ≡ internal_data_size)
      × (nr_frags (unuse_internal_data p) ≡ nr_frags p)
unfolding unuse_internal_data
unuse_internal_data_lem p v = ground (
  arith,
  contents-set_base external p.frags,
  length-set_base external p.frags,
  Anchored-set_base_external p.headroom p.frags,
  Anchored-AllLater p.headroom p.frags,
)

-- Joining two fragment arrays.
joined-Holds :
    {xs ys : List ℕ} {p q : Packet} (a : ℕ)
    → Holds xs p
    → Holds ys q
    → length xs + length ys < 2 ^ 32
    → p.frags ≢ []
    → AllLater q.frags
    → nr_frags p + nr_frags q ≤ a
    → Holds
        (xs ++ ys)
        (record p { len = u32 (p.len + q.len); allocated = a; frags = p.frags ++ q.frags })
joined-Holds {xs} {ys} {p} {q} a v w fits ne later room = record {
  bytes_are = contents-append p.frags q.frags ∙ ap₂ ◌++◌ v.bytes_are w.bytes_are;
  len_is = omega (arith, v.len_is, w.len_is, length-append xs ys);
  len_fits = omega (arith, length-append xs ys);
  frags_fit = omega (arith, length-append p.frags q.frags);
  anchored = Anchored-append p.headroom p.frags q.frags ne v.anchored later;
}

pub empty_bytes : (bs : List ℕ) → length bs ≡ 0 → bs ≡ []
empty_bytes [] h = refl
empty_bytes (b ∷ bs) h = absurd (omega arith)

-- A packet that holds bytes has a fragment.
pub frags-ne-nil : {bs : List ℕ} (p : Packet) → Holds bs p → p.len ≢ 0 → p.frags ≢ []
frags-ne-nil p v h e = ground (arith, ap contents e, ap length v.bytes_are)

-- Appending one packet to another holds the bytes of both, in order. Both are well formed, their
-- bytes are counted in 32 bits, and their fragments, doubled, in 16.
pub append-Holds :
    (xs ys : List ℕ) (p q : Packet)
    → Holds xs p
    → Holds ys q
    → length xs + length ys < 2 ^ 32
    → 2 * (nr_frags p + nr_frags q) < 2 ^ 16
    → Returns (append p q) (Holds (xs ++ ys))
unfolding append
append-Holds xs ys p q v w fits room =
    let left = unuse_internal_data_lem q w in
    let fits_in : nr_frags p + nr_frags (unuse_internal_data q) ≤ grown p (nr_frags q) =
      omega (arith, left.3, grown_room p (nr_frags q)) in
    elim (Bool-cases (p.len == 0)) [
      | inl e ↦ rw e (
          subst (λ l. Holds (l ++ ys) q)
            (sym (empty_bytes xs (omega (arith, v.len_is, (==_iff _ _).0 e)))) w)
      | inr e ↦
          rw (e, allocate_if_needed_lem p (nr_frags q) v.anchored room, le→leb _ _ fits_in)
            (joined-Holds _ v left.0 fits (frags-ne-nil p v (ne_of_==_false e)) left.1 fits_in)
    ]
