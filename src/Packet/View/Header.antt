-- ===== src/Packet/View/Header.antt =====
-- `get_header` reads the bytes at an offset, whichever way they are split into fragments.
use native.Mathlib.Nat.{mod-eq_of_lt}
use actor_network.Prelude.{
  Bool-cases, List, Option, Returns, Returns-bind, [], ap, append-nil, ap₂, arith, drop,
  drop-append, drop-append_left, drop_all, false, if◌then◌else◌, inl, inr, leb, leb→le, length,
  length-append, length-drop, length-take, le→leb, ltb, ltb→lt, none, refl, some, sym, take,
  take-append-drop, take-append_left, take_all, ℕ, ◌++◌, ◌+◌, ◌-◌, ◌<◌, ◌>>=◌, ◌^◌, ◌∙◌, ◌∷◌, ◌≡◌,
  ◌≢◌, ◌≤◌,
}
use actor_network.Packet.Build.{outside}
use actor_network.Packet.Build.Laws.{contents-drop-unuse_internal_data, unuse_internal_data_lem}
use actor_network.Packet.Impl.{Fragment, Packet, first_size, size, unuse_internal_data}
use actor_network.Packet.Impl.Laws.{contents-append}
use actor_network.Packet.Impl.Valid.{Holds, contents}
use actor_network.Packet.View.{get_header, header_in, linearize_after, locate, window}
use actor_network.Packet.View.Linear.{IsCollapsed, linearize_after-IsCollapsed}

-- What the search for the fragment finds.
pub record IsLocated (offset : ℕ) (fs : List Fragment) (r : List Fragment × List Fragment × ℕ)
    : Type 0 where
  pub splits : fs ≡ r.0 ++ r.1
  pub amount : offset ≡ length (contents r.0) + r.2
  pub inside : r.1 ≢ [] → r.2 < first_size r.1

locate-IsLocated : (offset : ℕ) (fs : List Fragment) → IsLocated offset fs (locate offset fs)
unfolding locate
locate-IsLocated offset [] = record {
  splits = refl;
  amount = omega arith;
  inside = λ ne. absurd (ne refl);
}
locate-IsLocated offset (f ∷ fs) = elim (Bool-cases (leb (size f) offset)) [
  | inl e ↦ rw e (
      let t = locate-IsLocated (offset - size f) fs in
      record {
        splits = ap {B = List Fragment} (λ l. f ∷ l) t.splits;
        amount = omega (
          arith,
          t.amount,
          leb→le _ _ e,
          length-append f.bytes (contents (locate (offset - size f) fs).0),
        );
        inside = t.inside;
      })
  | inr e ↦ rw e (record { splits = refl; amount = omega arith; inside = λ _. ground arith })
]

-- A window inside the first fragment is that part of the contents.
window_lem :
    (o n : ℕ) (f : Fragment) (fs : List Fragment)
    → o + n ≤ size f
    → window o n (f ∷ fs) ≡ some (take n (drop o (contents (f ∷ fs))))
window_lem o n f fs le =
    rw (le→leb _ _ le, drop-append_left o f.bytes (contents fs) (omega arith))
      (ap some (
        sym (
          take-append_left n (drop o f.bytes) (contents fs)
            (omega (arith, length-drop o f.bytes)))))

take_front : (xs ys : List Fragment) → take (length xs) (xs ++ ys) ≡ xs
take_front xs ys = take-append_left (length xs) xs ys (omega arith) ∙ take_all xs

drop_front : (xs ys : List Fragment) → drop (length xs) (xs ++ ys) ≡ ys
drop_front xs ys =
    drop-append_left (length xs) xs ys (omega arith) ∙ ap (λ l. l ++ ys) (drop_all xs)

-- The result of `get_header`: the packet holds what it held, and the header, where there is one, is
-- the bytes asked for.
abbrev pub Reads : ℕ → ℕ → List ℕ → Packet × Option (List ℕ) → Type 0
Reads offset n bs (q, h) =
    Holds bs q
    × (h ≡ (if leb (offset + n) (length bs) then some (take n (drop offset bs)) else none))

pub at_split :
    {bs : List ℕ} (offset o : ℕ) (xs ys : List Fragment)
    → contents (xs ++ ys) ≡ bs
    → offset ≡ length (contents xs) + o
    → drop offset bs ≡ drop o (contents ys)
at_split offset o xs ys e a =
    ap₂ {A = ℕ} drop a (sym e ∙ contents-append xs ys) ∙ drop-append o (contents xs) (contents ys)

-- The first `k` fragments and the others.
contents_split :
    (k : ℕ) (fs : List Fragment)
    → length (contents (take k fs)) + length (contents (drop k fs)) ≡ length (contents fs)
contents_split k fs = omega (
  arith,
  ap (λ l. length (contents l)) (take-append-drop k fs),
  ap length (contents-append (take k fs) (drop k fs)),
  length-append (contents (take k fs)) (contents (drop k fs)),
)

module _ {bs : List ℕ} (offset n : ℕ) (p : Packet) (v : Holds bs p) (pos : 0 < n)
    (within : offset + n ≤ length bs) (front : List Fragment) (f : Fragment) (fs : List Fragment)
    (o : ℕ) (t : IsLocated offset p.frags (front, f ∷ fs, o)) where
  direct :
      o + n ≤ size f
      → Returns (window o n (f ∷ fs) >>= λ header. some (p, some header)) (Reads offset n bs)
  direct le =
      rw (window_lem o n f fs le, le→leb _ _ within)
        (
          v,
          ap (λ l. some (take n l))
              (sym (
                at_split offset o front (f ∷ fs) (ap contents (sym t.splits) ∙ v.bytes_are)
                  t.amount)),
        )

  moved : Packet
  moved = unuse_internal_data p

  k : ℕ
  k = length front

  amount_moved : offset ≡ length (contents (take k moved.frags)) + o
  unfolding moved k
  amount_moved = omega (
    arith,
    t.amount,
    contents_split (length front) moved.frags,
    ap length (contents-drop-unuse_internal_data (length front) p),
    ap (λ l. length (contents (drop (length front) l))) t.splits,
    ap (λ l. length (contents l)) (drop_front front (f ∷ fs)),
    ap length (let w = (unuse_internal_data_lem p v).0 in w.bytes_are),
    ap length v.bytes_are,
    ap (λ l. length (contents l)) t.splits,
    ap length (contents-append front (f ∷ fs)),
    length-append (contents front) (contents (f ∷ fs)),
  )

  Reads-collapsed :
      (r : Packet)
      → IsCollapsed bs (take k moved.frags) (o + n) r
      → Returns
          (window o n (drop k r.frags) >>= λ header. some (r, some header))
          (Reads offset n bs)
  unfolding moved k
  Reads-collapsed r c =
      rw (found, window_lem o n (outside c.bytes) c.left c.enough, le→leb _ _ within)
        (c.holds, ap (λ l. some (take n l)) (sym there))
    where
      same_length : length (take k moved.frags) ≡ length front
      same_length = omega (
        arith,
        length-take (length front) moved.frags,
        (unuse_internal_data_lem p v).3,
        ap length t.splits,
        length-append front (f ∷ fs),
      )

      found : drop k r.frags ≡ outside c.bytes ∷ c.left
      found =
          ap₂ {A = ℕ} drop (sym same_length) c.frags_are
          ∙ drop_front (take k moved.frags) (outside c.bytes ∷ c.left)

      there : drop offset bs ≡ drop o (contents (outside c.bytes ∷ c.left))
      there =
          at_split offset o (take k moved.frags) (outside c.bytes ∷ c.left)
            (ap contents (sym c.frags_are) ∙ c.holds.bytes_are) amount_moved

  collapsing :
      size f < o + n
      → Returns
          (linearize_after (take k moved.frags) (o + n) (drop k moved.frags) moved >>= λ r.
            window o n (drop k r.frags) >>= λ header. some (r, some header))
          (Reads offset n bs)
  unfolding moved k
  collapsing lt =
      let left = unuse_internal_data_lem p v in
      Returns-bind (IsCollapsed bs (take k moved.frags) (o + n)) _ _ _
        (linearize_after-IsCollapsed moved (take k moved.frags) (drop k moved.frags) (o + n) left.0
          left.1 left.2 (sym (take-append-drop k moved.frags)) (omega arith) enough)
        Reads-collapsed
    where
      enough : o + n ≤ length (contents (drop k moved.frags))
      enough = omega (
        arith,
        amount_moved,
        contents_split k moved.frags,
        ap length (let w = (unuse_internal_data_lem p v).0 in w.bytes_are),
      )

  header_in-Reads : Returns (header_in n p front (f ∷ fs) o) (Reads offset n bs)
  unfolding moved k
  header_in-Reads = elim (Bool-cases (ltb (size f) (o + n))) [
    | inl e ↦ rw e (collapsing (ltb→lt _ _ e))
    | inr e ↦ rw e (direct (ground arith))
  ]

located-Reads :
    {bs : List ℕ} (offset n : ℕ) (p : Packet)
    → Holds bs p
    → 0 < n
    → offset + n ≤ length bs
    → (front rest : List Fragment) (o : ℕ) → IsLocated offset p.frags (front, rest, o)
    → Returns (header_in n p front rest o) (Reads offset n bs)
located-Reads offset n p v pos within front (f ∷ fs) o t =
    header_in-Reads offset n p v pos within front f fs o t
located-Reads offset n p v pos within front [] o t = absurd (
    omega (
      arith,
      t.amount,
      ap length v.bytes_are,
      ap (λ l. length (contents l)) t.splits,
      ap length (contents-append front []),
      ap length (append-nil (contents front)),
    ))

-- Asking for a header of `n` bytes, `n` not 0, at an offset gives these bytes of the packet if it
-- has so many, and `nullptr` if not, however the bytes are spread over fragments; the packet holds
-- what it held. The offset and `n` add up to less than 2 ^ 64.
pub get_header-Reads :
    (offset n : ℕ) (bs : List ℕ) (p : Packet)
    → Holds bs p
    → 0 < n
    → offset + n < 2 ^ 64
    → Returns (get_header offset n p) (Reads offset n bs)
unfolding get_header
get_header-Reads offset n bs p v pos fits =
    rw (mod-eq_of_lt fits) (elim (Bool-cases (ltb p.len (offset + n))) [
      | inl e ↦ rw e (v, rw (short (ltb→lt _ _ e)) refl)
      | inr e ↦
          rw e (located-Reads offset n p v pos (enough e) _ _ _ (locate-IsLocated offset p.frags))
    ])
  where
    short : p.len < offset + n → leb (offset + n) (length bs) ≡ false
    short lt = ground (arith, v.len_is)

    enough : ltb p.len (offset + n) ≡ false → offset + n ≤ length bs
    enough e = ground (arith, v.len_is)
