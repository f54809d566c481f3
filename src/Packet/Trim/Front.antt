-- ===== src/Packet/Trim/Front.antt =====
-- Trimming the front drops bytes.
use actor_network.Prelude.{
  ==_iff, Bool-cases, List, Returns, Returns-bind, Returns_map, [], ap, ap₂, arith, drop,
  drop-append, drop-append_left, inl, inr, leb, length, length-append, length-drop, le→leb, not,
  refl, subst, suc, sym, zero, ℕ, ◌&&◌, ◌++◌, ◌+◌, ◌-◌, ◌==◌, ◌∙◌, ◌∷◌, ◌≡◌, ◌≤◌,
}
use actor_network.Packet.Impl.{Fragment, Packet, first_size, size}
use actor_network.Packet.Impl.Laws.{contents-append}
use actor_network.Packet.Impl.Valid.{AllLater, Anchored, Holds, contents}
use actor_network.Packet.Trim.{cut_first, front_headroom, skip, trim_front}

-- What the loop leaves: `gone` fragments went whole, and what is left to cut lies inside the next.
pub record IsSkipped (n : ℕ) (fs : List Fragment) (r : ℕ × List Fragment) : Type 0 where
  pub gone : List Fragment
  pub splits : fs ≡ gone ++ r.1
  pub amount : n ≡ length (contents gone) + r.0
  pub inside : r.0 ≤ first_size r.1

pub skip-IsSkipped :
    (n : ℕ) (fs : List Fragment) → n ≤ length (contents fs) → Returns (skip n fs) (IsSkipped n fs)
unfolding skip
skip-IsSkipped n [] h =
    rw ((==_iff n 0).1 (omega arith))
      (record { gone = []; splits = refl; amount = omega arith; inside = omega arith })
skip-IsSkipped n (f ∷ fs) h = elim (Bool-cases (not (n == 0) && leb (size f) n)) [
  | inl e ↦ rw e (
      Returns_map (IsSkipped (n - size f) fs) _ (skip (n - size f) fs)
        (skip-IsSkipped (n - size f) fs (omega (arith, length-append f.bytes (contents fs))))
        (λ r t. record {
          gone = f ∷ t.gone;
          splits = ap {B = List Fragment} (λ l. f ∷ l) t.splits;
          amount = ground (arith, t.amount, length-append f.bytes (contents t.gone));
          inside = t.inside;
        }))
  | inr e ↦ rw e (record { gone = []; splits = refl; amount = omega arith; inside = ground arith })
]

pub AllLater-rest : (xs ys : List Fragment) → AllLater (xs ++ ys) → AllLater ys
AllLater-rest [] ys h = h
AllLater-rest (f ∷ xs) ys h = AllLater-rest xs ys h.1

Anchored-later :
    (h n : ℕ) (fs : List Fragment)
    → n ≤ first_size fs
    → AllLater fs
    → Anchored (front_headroom h n fs) (cut_first n fs)
Anchored-later h n [] le v = refl
Anchored-later h n (f ∷ fs) le v = ground (arith, length-drop n f.bytes)

Anchored-cut :
    (h n : ℕ) (gone fs : List Fragment)
    → n ≤ first_size fs
    → Anchored h (gone ++ fs)
    → Anchored (front_headroom h n fs) (cut_first n fs)
Anchored-cut h n [] [] le v = refl
Anchored-cut h n [] (f ∷ fs) le v = ground (arith, length-drop n f.bytes)
Anchored-cut h n (g ∷ gone) fs le v = Anchored-later h n fs le (AllLater-rest gone fs v.1)

contents-cut_first :
    (n : ℕ) (fs : List Fragment)
    → n ≤ first_size fs
    → contents (cut_first n fs) ≡ drop n (contents fs)
contents-cut_first zero [] le = refl
contents-cut_first (suc n) [] le = elim le [ ]
contents-cut_first n (f ∷ fs) le = sym (drop-append_left n f.bytes (contents fs) le)

length-cut_first : (n : ℕ) (fs : List Fragment) → length (cut_first n fs) ≡ length fs
length-cut_first n [] = refl
length-cut_first n (f ∷ fs) = refl

trimmed-Holds :
    {bs : List ℕ} (n : ℕ) (p : Packet)
    → Holds bs p
    → n ≤ length bs
    → (r : ℕ × List Fragment) → IsSkipped n p.frags r
    → Holds (drop n bs) (record p {
      len = p.len - n;
      headroom = front_headroom p.headroom r.0 r.1;
      frags = cut_first r.0 r.1;
    })
trimmed-Holds {bs} n p v le r t = record {
  bytes_are =
      contents-cut_first r.0 r.1 t.inside
      ∙ sym (drop-append r.0 (contents t.gone) (contents r.1))
      ∙ ap₂ drop (sym t.amount)
          (sym (contents-append t.gone r.1) ∙ ap contents (sym t.splits) ∙ v.bytes_are);
  len_is = omega (arith, v.len_is, length-drop n bs);
  len_fits = omega (arith, v.len_fits, length-drop n bs);
  frags_fit =
      omega (
        arith,
        v.frags_fit,
        length-cut_first r.0 r.1,
        ap length t.splits,
        length-append t.gone r.1,
      );
  anchored =
      Anchored-cut p.headroom r.0 t.gone r.1 t.inside
        (subst (Anchored p.headroom) t.splits v.anchored);
}

-- Trimming `n` of the bytes off the front of a well-formed packet, `n` at most their number, leaves
-- the others, and the packet well formed.
pub trim_front-Holds :
    (n : ℕ) (bs : List ℕ) (p : Packet)
    → Holds bs p
    → n ≤ length bs
    → Returns (trim_front n p) (Holds (drop n bs))
unfolding trim_front
trim_front-Holds n bs p v le = rw (le→leb n p.len (omega (arith, v.len_is))) (
    Returns-bind (IsSkipped n p.frags) _ (skip n p.frags) _
      (skip-IsSkipped n p.frags (omega (arith, ap length v.bytes_are)))
      (λ r t. trimmed-Holds n p v le r t))
