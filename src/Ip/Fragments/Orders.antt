-- ===== src/Ip/Fragments/Orders.antt =====
-- Fragments of one datagram merged in the order in which they come.
use actor_network.Prelude.{
  List, Option, Returns, Returns-bind, Returns_map, [], inl, inr, length, some, some-injective,
  subst, sym, true, ℕ, ◌<◌, ◌>>=◌, ◌↔◌, ◌∙◌, ◌∷◌, ◌≡◌, ◌⊎◌,
}
use actor_network.Ip.{Frag, IpHdr, offset_of}
use actor_network.Ip.Fragments.{first_packet, frag_merge, fresh_frag, is_complete, opened_frag}
use actor_network.Ip.Fragments.Complete.{first_packet-is_complete, is_complete_iff}
use actor_network.Ip.Fragments.Reassembly.{
  IsAdded, IsFragmentOf, IsReassembling, fresh-IsReassembling, merged-IsAdded, payload_of,
}
use actor_network.Ip.Header.{read_ip}
use actor_network.Merger.Segments.{Covers, InSegment, cut}
use actor_network.Tcp.Core.{BigEndian}

-- What `handle_received_packet` does to the entry of a datagram for the packets `ps`, one after the
-- other, as long as it is not complete.
unfoldable pub merge_all : BigEndian → ℕ → ℕ → List (List ℕ) → Frag → Option Frag
unfolding read_ip frag_merge
merge_all be impl_size now [] f = some f
merge_all be impl_size now (p ∷ ps) f = do
  h ← read_ip be p
  r ← frag_merge impl_size h (offset_of h) p (opened_frag h now f)
  merge_all be impl_size now ps r.0

module _ (be : BigEndian) (stream : ℕ → ℕ) (len : ℕ) where
  abbrev pub IsFragment : List ℕ → Type 0
  IsFragment p = (h : IpHdr) × (read_ip be p ≡ some h) × IsFragmentOf stream len h p

  abbrev pub AreFragments : List (List ℕ) → Type 0
  AreFragments [] = Unit
  AreFragments (p ∷ ps) = IsFragment p × AreFragments ps

-- The byte at `x` of the datagram is in one of the packets.
abbrev pub Carries : BigEndian → ℕ → List ℕ → Type 0
Carries be x p =
    (h : IpHdr) × (read_ip be p ≡ some h) × InSegment x (offset_of h) (length (payload_of h p))

abbrev pub Carried : BigEndian → ℕ → List (List ℕ) → Type 0
Carried be x [] = ⊥
Carried be x (p ∷ ps) = Carries be x p ⊎ Carried be x ps

module _ (be : BigEndian) (stream : ℕ → ℕ) (len impl_size now : ℕ) where
  -- What the packets make of the state `f`.
  pub record AreAdded (ps : List (List ℕ)) (f f' : Frag) : Type 0 where
    pub reassembling : IsReassembling stream len f'
    pub covers : (x : ℕ) → Covers x f'.ip_data.map ↔ (Carried be x ps ⊎ Covers x f.ip_data.map)

  pub AreAdded-cons :
      (p : List ℕ) (ps : List (List ℕ)) (h : IpHdr) (f g f' : Frag)
      → read_ip be p ≡ some h
      → IsAdded stream len h p f g
      → AreAdded ps g f'
      → AreAdded (p ∷ ps) f f'
  AreAdded-cons p ps h f g f' e a t = record {
    reassembling = t.reassembling;
    covers = λ x. (
      λ c. elim ((t.covers x).0 c) [
        | inl i ↦ inl (inr i)
        | inr i ↦ elim ((a.covers x).0 i) [ inl j ↦ inl (inl (h, e, j)) | inr j ↦ inr j ]
      ],
      λ c. (t.covers x).1 (elim c [
        | inl (inl (k, d, j)) ↦
            let same_h : k ≡ h = some-injective k h (sym d ∙ e) in
            inr (
              (a.covers x).1
                (inl (subst (λ l. InSegment x (offset_of l) (length (payload_of l p))) same_h j)))
        | inl (inr i) ↦ inl i
        | inr j ↦ inr ((a.covers x).1 (inr j))
      ]),
    );
  }

  merge_all-AreAdded :
      (ps : List (List ℕ)) (f : Frag)
      → AreFragments be stream len ps
      → IsReassembling stream len f
      → Returns (merge_all be impl_size now ps f) (AreAdded ps f)
  unfolding merge_all
  merge_all-AreAdded [] f vs w = record {
    reassembling = w;
    covers = λ x. (inr, λ c. elim c [ inl i ↦ elim i [ ] | inr i ↦ i ]);
  }
  merge_all-AreAdded (p ∷ ps) f ((h, e, v), vs) w = rw e (
      Returns-bind (λ r. IsAdded stream len h p f r.0) (AreAdded (p ∷ ps) f)
        (frag_merge impl_size h (offset_of h) p (opened_frag h now f)) _
        (merged-IsAdded stream len impl_size h p f v w now)
        (λ r a.
          Returns_map (AreAdded ps r.0) (AreAdded (p ∷ ps) f) _
            (merge_all-AreAdded ps r.0 vs a.reassembling)
            (λ f' t. AreAdded-cons p ps h f r.0 f' e a t)))

-- Of a datagram, complete exactly when its bytes are all there, and then with the right data.
abbrev pub IsReassembled : BigEndian → (ℕ → ℕ) → ℕ → List (List ℕ) → Frag → Type 0
IsReassembled be stream len ps f =
    ((is_complete f ≡ true) ↔ ((x : ℕ) → x < len → Carried be x ps))
    × (is_complete f ≡ true → first_packet f.ip_data.map ≡ cut stream 0 len)

-- Fragments of one datagram, in any order, repeated or overlapping, are merged without a fault. The
-- datagram is complete exactly when each of its bytes is in one of them, and then its data is right.
pub merge_all-IsReassembled :
    (be : BigEndian) (stream : ℕ → ℕ) (len impl_size now : ℕ) (ps : List (List ℕ))
    → 0 < len
    → AreFragments be stream len ps
    → Returns (merge_all be impl_size now ps fresh_frag) (IsReassembled be stream len ps)
unfolding is_complete
merge_all-IsReassembled be stream len impl_size now ps pos vs =
    Returns_map (AreAdded be stream len impl_size now ps fresh_frag) _ _
      (merge_all-AreAdded be stream len impl_size now ps fresh_frag vs
        (fresh-IsReassembling stream len))
      (λ f t.
        let complete = is_complete_iff stream len f pos t.reassembling in
        (
          (
            λ e x h. elim ((t.covers x).0 (complete.0 e x h)) [ inl i ↦ i | inr i ↦ elim i [ ] ],
            λ c. complete.1 (λ x h. (t.covers x).1 (inl (c x h))),
          ),
          first_packet-is_complete stream len f t.reassembling,
        ))
