-- ===== src/Packet/Trim/Back.antt =====
-- Trimming the back drops bytes at the end; what it does to the headroom.
use actor_network.Prelude.{
  Bool, List, Option, Returns, Returns-bind, [], ap, append-nil, ap₂, arith, false, if◌then◌else◌,
  length, length-append, length-take, le→leb, none, refl, reverse, reverse-append, reverse-cons,
  reverse-reverse, some, subst, sym, take, take-append, take-append_left, take_nil, true, ℕ, ◌&&◌,
  ◌++◌, ◌+◌, ◌-◌, ◌∙◌, ◌∷◌, ◌≡◌, ◌≤◌,
}
use actor_network.Packet.Build.Laws.{AllLater-append, Anchored-AllLater}
use actor_network.Packet.Impl.{
  Fragment, Packet, first_size, internal_data_size, nr_frags, size, uses_data, using_internal_data,
}
use actor_network.Packet.Impl.Laws.{contents-append}
use actor_network.Packet.Impl.Valid.{AllLater, Anchored, Holds, contents}
use actor_network.Packet.Trim.{cut_last, is_single, skip, trim_back}
use actor_network.Packet.Trim.Front.{AllLater-rest, IsSkipped, skip-IsSkipped}

contents-reverse_cons :
    (f : Fragment) (fs : List Fragment)
    → contents (reverse (f ∷ fs)) ≡ contents (reverse fs) ++ f.bytes
contents-reverse_cons f fs =
    ap contents (reverse-cons f fs)
    ∙ contents-append (reverse fs) (f ∷ [])
    ∙ ap (◌++◌ (contents (reverse fs))) (append-nil f.bytes)

length-contents-reverse :
    (fs : List Fragment) → length (contents (reverse fs)) ≡ length (contents fs)
length-contents-reverse [] = refl
length-contents-reverse (f ∷ fs) = omega (
  arith,
  ap length (contents-reverse_cons f fs),
  length-append (contents (reverse fs)) f.bytes,
  length-append f.bytes (contents fs),
  length-contents-reverse fs,
)

-- Cutting `n` bytes off the last fragment, which the reversed array has first.
contents-cut_last :
    (n : ℕ) (fs : List Fragment)
    → n ≤ first_size fs
    → contents (reverse (cut_last n fs))
      ≡ take (length (contents (reverse fs)) - n) (contents (reverse fs))
contents-cut_last n [] le = sym (take_nil (0 - n))
contents-cut_last n (f ∷ fs) le =
    contents-reverse_cons (record f { bytes = take (size f - n) f.bytes }) fs
    ∙ sym (take-append (size f - n) (contents (reverse fs)) f.bytes)
    ∙ ap₂ {A = ℕ} take
        (omega (
          arith,
          ap length (contents-reverse_cons f fs),
          length-append (contents (reverse fs)) f.bytes,
        ))
        (sym (contents-reverse_cons f fs))

split_back :
    (n : ℕ) (fs : List Fragment) (r : ℕ × List Fragment) (t : IsSkipped n (reverse fs) r)
    → contents fs ≡ contents (reverse r.1) ++ contents (reverse t.gone)
split_back n fs r t =
    ap contents (sym (reverse-reverse fs) ∙ ap reverse t.splits ∙ reverse-append t.gone r.1)
    ∙ contents-append (reverse r.1) (reverse t.gone)

trimmed_back :
    (n : ℕ) (fs : List Fragment) (r : ℕ × List Fragment)
    → IsSkipped n (reverse fs) r
    → contents (reverse (cut_last r.0 r.1)) ≡ take (length (contents fs) - n) (contents fs)
trimmed_back n fs r t =
    contents-cut_last r.0 r.1 t.inside
    ∙ sym (
        take-append_left (length (contents (reverse r.1)) - r.0) (contents (reverse r.1))
          (contents (reverse t.gone)) (omega arith))
    ∙ ap₂ {A = ℕ} take
        (omega (
          arith,
          t.amount,
          length-contents-reverse t.gone,
          ap length (split_back n fs r t),
          length-append (contents (reverse r.1)) (contents (reverse t.gone)),
        ))
        (sym (split_back n fs r t))

length-reverse : (fs : List Fragment) → length (reverse fs) ≡ length fs
length-reverse [] = refl
length-reverse (f ∷ fs) =
    omega
      (arith, ap length (reverse-cons f fs), length-append (reverse fs) (f ∷ []), length-reverse fs)

length-cut_last : (n : ℕ) (fs : List Fragment) → length (cut_last n fs) ≡ length fs
length-cut_last n [] = refl
length-cut_last n (f ∷ fs) = refl

-- What `trim_back` does to everything but the headroom.
pub record IsTrimmed (n : ℕ) (bs : List ℕ) (p q : Packet) : Type 0 where
  pub bytes_are : contents q.frags ≡ take (length bs - n) bs
  pub len_is : q.len ≡ length bs - n
  pub frags_fit : nr_frags q ≤ q.allocated
  pub same_capacity : q.allocated ≡ p.allocated
  pub same_offload : q.offload ≡ p.offload

-- Trimming `n` of the bytes off the back of a well-formed packet leaves the others, in a packet that
-- counts them right and has not outgrown its array.
pub trim_back-IsTrimmed :
    (n : ℕ) (bs : List ℕ) (p : Packet)
    → Holds bs p
    → n ≤ length bs
    → Returns (trim_back n p) (IsTrimmed n bs p)
unfolding trim_back
trim_back-IsTrimmed n bs p v le = rw (le→leb n p.len (omega (arith, v.len_is))) (
    Returns-bind (IsSkipped n (reverse p.frags)) _ (skip n (reverse p.frags)) _
      (skip-IsSkipped n (reverse p.frags)
        (omega (arith, ap length v.bytes_are, length-contents-reverse p.frags)))
      (λ r t. record {
        bytes_are = trimmed_back n p.frags r t ∙ ap (λ l. take (length l - n) l) v.bytes_are;
        len_is = omega (arith, v.len_is);
        frags_fit = omega (
          arith,
          v.frags_fit,
          length-reverse (cut_last r.0 r.1),
          length-cut_last r.0 r.1,
          ap length t.splits,
          length-append t.gone r.1,
          length-reverse p.frags,
        );
        same_capacity = refl;
        same_offload = refl;
      }))

AllLater-reverse : (fs : List Fragment) → AllLater fs → AllLater (reverse fs)
AllLater-reverse [] h = h
AllLater-reverse (f ∷ fs) h =
    rw (reverse-cons f fs)
      (AllLater-append (reverse fs) (f ∷ []) (AllLater-reverse fs h.1) (h.0, tt))

AllLater-cut_last : (n : ℕ) (fs : List Fragment) → AllLater fs → AllLater (cut_last n fs)
AllLater-cut_last n [] h = h
AllLater-cut_last n (f ∷ fs) h = ground (arith, length-take (size f - n) f.bytes)

AllLater-unused : (fs : List Fragment) → AllLater fs → uses_data fs ≡ false
AllLater-unused [] h = refl
AllLater-unused (f ∷ fs) h = ground arith

pub AllLater-Anchored : (fs : List Fragment) → AllLater fs → Anchored internal_data_size fs
AllLater-Anchored [] h = refl
AllLater-Anchored (f ∷ fs) h = ground arith

-- Where the internal buffer is not in use, the headroom stays in order too.
pub trim_back-Anchored :
    (n : ℕ) (p : Packet)
    → Anchored p.headroom p.frags
    → using_internal_data p ≡ false
    → n ≤ p.len
    → n ≤ length (contents p.frags)
    → Returns (trim_back n p) (λ q. Anchored q.headroom q.frags)
unfolding trim_back
trim_back-Anchored n p v unused le fits = rw (le→leb n p.len le) (
    Returns-bind (IsSkipped n (reverse p.frags)) _ (skip n (reverse p.frags)) _
      (skip-IsSkipped n (reverse p.frags) (omega (arith, length-contents-reverse p.frags)))
      (λ r t. kept r t))
  where
    later : AllLater p.frags × (p.headroom ≡ internal_data_size)
    later = Anchored-AllLater p.headroom p.frags v unused

    kept :
        (r : ℕ × List Fragment)
        → IsSkipped n (reverse p.frags) r
        → Anchored
            (if is_single r.1 && uses_data (reverse (cut_last r.0 r.1))
              then p.headroom + r.0
              else p.headroom)
            (reverse (cut_last r.0 r.1))
    kept r t =
        let rest : AllLater (reverse (cut_last r.0 r.1)) = AllLater-reverse (cut_last r.0 r.1) (
          AllLater-cut_last r.0 r.1 (
            AllLater-rest t.gone r.1
              (subst AllLater t.splits (AllLater-reverse p.frags later.0)))) in
        rw (AllLater-unused _ rest, and_false (is_single r.1), later.1) (AllLater-Anchored _ rest)
      where
        and_false : (b : Bool) → (b && false) ≡ false
        and_false true = refl
        and_false false = refl

-- On a packet whose internal buffer is not in use, trimming `n` of the bytes off the back leaves the
-- others, and the packet well formed.
pub trim_back-Holds :
    (n : ℕ) (bs : List ℕ) (p : Packet)
    → Holds bs p
    → using_internal_data p ≡ false
    → n ≤ length bs
    → Returns (trim_back n p) (Holds (take (length bs - n) bs))
trim_back-Holds n bs p v unused le = both (trim_back n p) (trim_back-IsTrimmed n bs p v le) (
    trim_back-Anchored n p v.anchored unused (omega (arith, v.len_is))
      (omega (arith, ap length v.bytes_are)))
  where
    both :
        (m : Option Packet)
        → Returns m (IsTrimmed n bs p)
        → Returns m (λ q. Anchored q.headroom q.frags)
        → Returns m (Holds (take (length bs - n) bs))
    both none h k = h
    both (some q) h k = record {
      bytes_are = h.bytes_are;
      len_is = omega (arith, h.len_is, length-take (length bs - n) bs);
      len_fits = omega (arith, v.len_fits, length-take (length bs - n) bs);
      frags_fit = h.frags_fit;
      anchored = k;
    }
