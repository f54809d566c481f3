-- ===== src/Packet/View/Share.antt =====
-- `share` gives a packet with the asked part of the bytes.
use native.Mathlib.Decide.{dec_le}
use actor_network.Prelude.{
  ==_iff, Bool-cases, List, Returns, Returns-bind, [], ap, append-nil, ap₂, arith, drop,
  drop-append_left, inl, inr, length, length-append, length-drop, length-take, le→leb, min, refl,
  subst, sym, take, take-append, take-append_left, take_all, ℕ, ◌*◌, ◌++◌, ◌+◌, ◌-◌, ◌<◌, ◌==◌, ◌^◌,
  ◌∙◌, ◌∷◌, ◌≡◌, ◌≤◌,
}
use actor_network.Packet.Build.{empty}
use actor_network.Packet.Build.Laws.{IsEmpty, empty-IsEmpty, unuse_internal_data_lem}
use actor_network.Packet.Impl.{
  Fragment, Packet, first_size, nr_frags, size, u32, unuse_internal_data,
}
use actor_network.Packet.Impl.Laws.{allocate_if_needed_lem, contents-append, grown, grown_room}
use actor_network.Packet.Impl.Valid.{AllLater, Anchored, Holds, contents}
use actor_network.Packet.Trim.{skip}
use actor_network.Packet.Trim.Back.{AllLater-Anchored}
use actor_network.Packet.Trim.Front.{IsSkipped, skip-IsSkipped}
use actor_network.Packet.View.{share, slice}
use actor_network.Packet.View.Header.{at_split}

take-min :
    (n : ℕ) (xs ys : List ℕ)
    → take (min n (length xs)) xs ++ take (n - min n (length xs)) ys ≡ take n (xs ++ ys)
take-min n xs ys = elim (dec_le n (length xs)) [
  | yes h ↦ rw (min_left h) (
      ap₂ {A = List ℕ} ◌++◌ refl (ap (λ k. take k ys) (none_left n))
      ∙ append-nil (take n xs)
      ∙ sym (take-append_left n xs ys h))
  | no h ↦ rw (min_right (long h)) (
      ap₂ {A = List ℕ} ◌++◌ (take_all xs) refl
      ∙ sym (take-append (n - length xs) xs ys)
      ∙ ap (λ k. take k (xs ++ ys)) (omega (arith, long h)))
]
  where
    min_left : n ≤ length xs → min n (length xs) ≡ n
    min_left h = omega arith

    long : ¬ (n ≤ length xs) → length xs ≤ n
    long h = omega arith

    min_right : length xs ≤ n → min n (length xs) ≡ length xs
    min_right h = omega arith

    none_left : (m : ℕ) → m - m ≡ 0
    none_left m = omega arith

-- The fragments of the shared part.
record IsSliced (n o : ℕ) (fs gs : List Fragment) : Type 0 where
  bytes_are : contents gs ≡ take n (drop o (contents fs))
  no_more : length gs ≤ length fs
  later : AllLater gs

slice-IsSliced :
    (n o : ℕ) (fs : List Fragment)
    → o ≤ first_size fs
    → o + n ≤ length (contents fs)
    → Returns (slice n o fs) (IsSliced n o fs)
unfolding slice
slice-IsSliced n o [] at le =
    let none_asked : n ≡ 0 = omega arith in
    rw (none_asked) (record { bytes_are = refl; no_more = omega arith; later = tt })
slice-IsSliced n o (f ∷ fs) at le = elim (Bool-cases (n == 0)) [
  | inl e ↦ rw e (
      let zero_asked : n ≡ 0 = (==_iff n 0).0 e in
      record { bytes_are = rw zero_asked refl; no_more = omega arith; later = tt })
  | inr e ↦ rw e (
      Returns-bind (IsSliced (n - min n (size f - o)) 0 fs) _ (slice (n - min n (size f - o)) 0 fs)
        _
        (slice-IsSliced (n - min n (size f - o)) 0 fs (omega arith)
          (omega (arith, length-append f.bytes (contents fs))))
        (λ gs t. record {
          bytes_are = joined gs t;
          no_more = omega (arith, t.no_more);
          later = (tt, t.later);
        }))
]
  where
    joined :
        (gs : List Fragment)
        → IsSliced (n - min n (size f - o)) 0 fs gs
        → take (min n (size f - o)) (drop o f.bytes) ++ contents gs
          ≡ take n (drop o (f.bytes ++ contents fs))
    joined gs t =
        ap (◌++◌ (take (min n (size f - o)) (drop o f.bytes))) t.bytes_are
        ∙ subst
            (λ k.
              take (min n k) (drop o f.bytes) ++ take (n - min n k) (contents fs)
              ≡ take n (drop o f.bytes ++ contents fs))
            (length-drop o f.bytes) (take-min n (drop o f.bytes) (contents fs))
        ∙ ap (take n) (sym (drop-append_left o f.bytes (contents fs) at))

-- What `share` gives: the packet itself holds what it held, and the new one a part of it.
abbrev pub Shares : ℕ → ℕ → List ℕ → Packet × Packet → Type 0
Shares offset n bs (self, q) = Holds bs self × Holds (take n (drop offset bs)) q

-- Sharing `n` bytes from an offset within a well-formed packet gives a well-formed packet with just
-- these bytes. Fragments, doubled, are counted in 16 bits.
pub share-Shares :
    (offset n : ℕ) (bs : List ℕ) (p : Packet)
    → Holds bs p
    → offset + n ≤ length bs
    → 2 * nr_frags p < 2 ^ 16
    → Returns (share offset n p) (Shares offset n bs)
unfolding share
share-Shares offset n bs p v within room = Returns-bind IsEmpty _ empty _ empty-IsEmpty (λ fresh w.
    rw (allocate_if_needed_lem fresh (nr_frags self) (anchored fresh w) (fits fresh w)) (
      Returns-bind (IsSkipped offset self.frags) _ (skip offset self.frags) _
        (skip-IsSkipped offset self.frags (omega (arith, ap length self_holds.bytes_are)))
        (λ r t.
          Returns-bind (IsSliced n r.0 r.1) _ (slice n r.0 r.1) _
            (slice-IsSliced n r.0 r.1 t.inside (available r t))
            (λ gs u.
              rw (le→leb _ _ (capacity fresh r t gs u)) (self_holds, shared fresh w r t gs u)))))
  where
    self : Packet
    self = unuse_internal_data p

    self_holds : Holds bs self
    self_holds = (unuse_internal_data_lem p v).0

    self_frags : nr_frags self ≡ nr_frags p
    self_frags = (unuse_internal_data_lem p v).3

    anchored : (fresh : Packet) → IsEmpty fresh → Anchored fresh.headroom fresh.frags
    anchored fresh w = let h = w.holds in h.anchored

    fits : (fresh : Packet) → IsEmpty fresh → 2 * (nr_frags fresh + nr_frags self) < 2 ^ 16
    fits fresh w = omega (arith, ap length w.no_frags, self_frags)

    available :
        (r : ℕ × List Fragment) → IsSkipped offset self.frags r → r.0 + n ≤ length (contents r.1)
    available r t = omega (
      arith,
      t.amount,
      ap length self_holds.bytes_are,
      ap (λ l. length (contents l)) t.splits,
      ap length (contents-append t.gone r.1),
      length-append (contents t.gone) (contents r.1),
    )

    capacity :
        (fresh : Packet) (r : ℕ × List Fragment)
        → IsSkipped offset self.frags r
        → (gs : List Fragment) → IsSliced n r.0 r.1 gs
        → length gs ≤ grown fresh (nr_frags self)
    capacity fresh r t gs u = omega (
      arith,
      u.no_more,
      ap length t.splits,
      length-append t.gone r.1,
      grown_room fresh (nr_frags self),
    )

    part :
        (r : ℕ × List Fragment)
        → IsSkipped offset self.frags r
        → (gs : List Fragment) → IsSliced n r.0 r.1 gs
        → contents gs ≡ take n (drop offset bs)
    part r t gs u =
        u.bytes_are
        ∙ ap (take n) (
            sym (
              at_split offset r.0 t.gone r.1 (ap contents (sym t.splits) ∙ self_holds.bytes_are)
                t.amount))

    shared :
        (fresh : Packet)
        → IsEmpty fresh
        → (r : ℕ × List Fragment) (t : IsSkipped offset self.frags r) (gs : List Fragment)
          (u : IsSliced n r.0 r.1 gs)
        → Holds (take n (drop offset bs)) (record fresh {
          len = u32 (length (contents gs));
          allocated = grown fresh (nr_frags self);
          frags = gs;
          offload = self.offload;
        })
    shared fresh w r t gs u = record {
      bytes_are = part r t gs u;
      len_is = omega (
        arith,
        ap length (part r t gs u),
        length-take n (drop offset bs),
        length-drop offset bs,
        v.len_fits,
      );
      len_fits = omega (arith, length-take n (drop offset bs), length-drop offset bs, v.len_fits);
      frags_fit = capacity fresh r t gs u;
      anchored = rw w.all_headroom (AllLater-Anchored gs u.later);
    }
