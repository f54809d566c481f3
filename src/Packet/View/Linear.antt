-- ===== src/Packet/View/Linear.antt =====
-- Linearising keeps the bytes and puts them in one place.
use actor_network.Prelude.{
  ==_iff, Bool-cases, List, Returns, Returns-bind, Returns_map, [], ap, append-nil, append_assoc,
  arith, false, inl, inr, length, length-append, refl, subst, sym, ℕ, ◌++◌, ◌-◌, ◌<◌, ◌==◌, ◌∙◌,
  ◌∷◌, ◌≡◌, ◌≤◌,
}
use actor_network.Packet.Build.{outside}
use actor_network.Packet.Build.Laws.{empty_bytes, unuse_internal_data_lem}
use actor_network.Packet.Impl.{Fragment, Packet, internal_data_size, size, unuse_internal_data}
use actor_network.Packet.Impl.Laws.{contents-append}
use actor_network.Packet.Impl.Valid.{AllLater, Holds, contents}
use actor_network.Packet.Trim.Back.{AllLater-Anchored}
use actor_network.Packet.Trim.Front.{AllLater-rest}
use actor_network.Packet.View.{gather, linearize, linearize_after}

-- What the collapsing loop collects and leaves.
pub record IsGathered (d : ℕ) (fs : List Fragment) (r : List ℕ × List Fragment) : Type 0 where
  pub same_bytes : r.0 ++ contents r.1 ≡ contents fs
  pub enough : d ≤ length r.0
  pub later : AllLater fs → AllLater r.1
  pub not_more : length r.1 ≤ length fs
  pub fewer : 0 < d → length r.1 < length fs

gather-some :
    (d : ℕ) (f : Fragment) (fs : List Fragment) (r : List ℕ × List Fragment)
    → 0 < d
    → IsGathered (d - size f) fs r
    → IsGathered d (f ∷ fs) (f.bytes ++ r.0, r.1)
gather-some d f fs r pos t = record {
  same_bytes = append_assoc f.bytes r.0 (contents r.1) ∙ ap (◌++◌ f.bytes) t.same_bytes;
  enough = omega (arith, t.enough, length-append f.bytes r.0);
  later = λ h. t.later h.1;
  not_more = omega (arith, t.not_more);
  fewer = λ _. omega (arith, t.not_more);
}

pub gather-IsGathered :
    (d : ℕ) (fs : List Fragment)
    → d ≤ length (contents fs)
    → Returns (gather d fs) (IsGathered d fs)
unfolding gather
gather-IsGathered d [] h = rw ((==_iff d 0).1 (omega arith)) (record {
  same_bytes = refl;
  enough = omega arith;
  later = λ v. v;
  not_more = omega arith;
  fewer = λ p. absurd (omega arith);
})
gather-IsGathered d (f ∷ fs) h = elim (Bool-cases (d == 0)) [
  | inl e ↦ rw e (record {
    same_bytes = refl;
    enough = omega (arith, (==_iff d 0).0 e);
    later = λ v. v;
    not_more = omega arith;
    fewer = λ p. absurd (omega (arith, (==_iff d 0).0 e));
  })
  | inr e ↦ rw e (
      Returns-bind (IsGathered (d - size f) fs) _ (gather (d - size f) fs) _
        (gather-IsGathered (d - size f) fs (omega (arith, length-append f.bytes (contents fs))))
        (λ r t. gather-some d f fs r (ground arith) t))
]

AllLater-outside :
    (front left : List Fragment) (bytes : List ℕ)
    → AllLater front
    → AllLater left
    → AllLater (front ++ outside bytes ∷ left)
AllLater-outside [] left bytes h k = (tt, k)
AllLater-outside (f ∷ front) left bytes h k = (h.0, AllLater-outside front left bytes h.1 k)

AllLater-front : (xs ys : List Fragment) → AllLater (xs ++ ys) → AllLater xs
AllLater-front [] ys h = tt
AllLater-front (f ∷ xs) ys h = (h.0, AllLater-front xs ys h.1)

-- The fragment array that a collapse leaves: the front, one fragment with all the bytes that were
-- asked for, and the rest.
pub record IsCollapsed (bs : List ℕ) (front : List Fragment) (d : ℕ) (q : Packet) : Type 0 where
  pub holds : Holds bs q
  pub bytes : List ℕ
  pub left : List Fragment
  pub frags_are : q.frags ≡ front ++ outside bytes ∷ left
  pub enough : d ≤ length bytes

collapsed :
    {bs : List ℕ} (p : Packet) (front fs : List Fragment) (d : ℕ)
    → Holds bs p
    → AllLater p.frags
    → p.headroom ≡ internal_data_size
    → p.frags ≡ front ++ fs
    → 0 < d
    → (r : List ℕ × List Fragment) → IsGathered d fs r
    → IsCollapsed bs front d (record p { frags = front ++ outside r.0 ∷ r.1 })
collapsed {bs} p front fs d v later h e pos r t = record {
  holds = record {
    bytes_are =
        contents-append front (outside r.0 ∷ r.1)
        ∙ ap (◌++◌ (contents front)) t.same_bytes
        ∙ sym (contents-append front fs)
        ∙ ap contents (sym e)
        ∙ v.bytes_are;
    len_is = v.len_is;
    len_fits = v.len_fits;
    frags_fit = omega (
      arith,
      v.frags_fit,
      t.fewer pos,
      ap length e,
      length-append front fs,
      length-append front (outside r.0 ∷ r.1),
    );
    anchored = rw h (
        AllLater-Anchored _ (
          AllLater-outside front r.1 r.0 (AllLater-front front fs (subst AllLater e later))
            (t.later (AllLater-rest front fs (subst AllLater e later)))));
  };
  bytes = r.0;
  left = r.1;
  frags_are = refl;
  enough = t.enough;
}

pub linearize_after-IsCollapsed :
    {bs : List ℕ} (p : Packet) (front fs : List Fragment) (d : ℕ)
    → Holds bs p
    → AllLater p.frags
    → p.headroom ≡ internal_data_size
    → p.frags ≡ front ++ fs
    → 0 < d
    → d ≤ length (contents fs)
    → Returns (linearize_after front d fs p) (IsCollapsed bs front d)
linearize_after-IsCollapsed p front fs d v later h e pos le =
    Returns-bind (IsGathered d fs) _ (gather d fs) _ (gather-IsGathered d fs le)
      (λ r t. rw (pos_ne d pos) (collapsed p front fs d v later h e pos r t))
  where
    pos_ne : (n : ℕ) → 0 < n → (n == 0) ≡ false
    pos_ne n p = ground arith

-- A prefix as long as the whole is the whole.
prefix_all : {bs : List ℕ} (xs ys : List ℕ) → xs ++ ys ≡ bs → length bs ≤ length xs → xs ≡ bs
prefix_all {bs} xs ys e le =
    sym (append-nil xs)
    ∙ ap (◌++◌ xs) (sym (empty_bytes ys (omega (arith, ap length e, length-append xs ys))))
    ∙ e

abbrev pub first_bytes : List Fragment → List ℕ
first_bytes [] = []
first_bytes (f ∷ fs) = f.bytes

-- Linearising a well-formed packet with bytes keeps them, and puts all of them into its first
-- fragment.
pub linearize-Holds :
    (bs : List ℕ) (p : Packet)
    → Holds bs p
    → 0 < length bs
    → Returns (linearize p) (λ q. Holds bs q × (first_bytes q.frags ≡ bs))
unfolding linearize
linearize-Holds bs p v pos =
    let left = unuse_internal_data_lem p v in
    let w = left.0 in
    Returns_map (IsCollapsed bs [] (unuse_internal_data p).len) _ _
      (linearize_after-IsCollapsed (unuse_internal_data p) [] (unuse_internal_data p).frags
        (unuse_internal_data p).len left.0 left.1 left.2 refl (omega (arith, w.len_is))
        (omega (arith, w.len_is, ap length w.bytes_are)))
      (λ q t. (t.holds, whole q t))
  where
    whole :
        (q : Packet) → IsCollapsed bs [] (unuse_internal_data p).len q → first_bytes q.frags ≡ bs
    whole q t =
        ap first_bytes t.frags_are
        ∙ prefix_all t.bytes (contents t.left) (sym (ap contents t.frags_are) ∙ t.holds.bytes_are)
            (omega (arith, t.enough, w_len))
      where
        w_len : (unuse_internal_data p).len ≡ length bs
        w_len = let w = (unuse_internal_data_lem p v).0 in w.len_is
