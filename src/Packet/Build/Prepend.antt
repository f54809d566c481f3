-- ===== src/Packet/Build/Prepend.antt =====
-- Prepending into the headroom of the internal buffer, and beside it.
use actor_network.Prelude.{
  Bool, Bool-cases, List, Returns, Returns-bind, [], ap, append_assoc, arith, false, if◌then◌else◌,
  inl, inr, leb, leb→le, length, length-append, lt→ltb, refl, some, sym, true, ℕ, ◌*◌, ◌++◌, ◌+◌,
  ◌-◌, ◌<◌, ◌^◌, ◌∙◌, ◌∷◌, ◌≡◌, ◌≤◌,
}
use actor_network.Packet.Build.{
  allocate_headroom, enter_data, lower, prepend, prepend_outside, prepend_uninitialized_header,
  second_attempt,
}
use actor_network.Packet.Build.Laws.{Anchored-AllLater, unuse_internal_data_lem}
use actor_network.Packet.Impl.{
  Base, Fragment, Packet, add_len, external, in_data, internal, internal_data_size, nr_frags,
  push_front, unuse_internal_data, uses_data, using_internal_data,
}
use actor_network.Packet.Impl.Laws.{allocate_if_needed_lem, grown, grown_room}
use actor_network.Packet.Impl.Valid.{AllLater, Anchored, Holds, contents}

abbrev StartsInternal : List Fragment → Type 0
StartsInternal [] = ⊥
StartsInternal (f ∷ fs) = (o : ℕ) × (f.base ≡ internal o)

uses_data-StartsInternal : (fs : List Fragment) → uses_data fs ≡ true → StartsInternal fs
uses_data-StartsInternal [] u = cc
uses_data-StartsInternal (f ∷ fs) u = base_cases f.base refl u
  where
    base_cases : (b : Base) → f.base ≡ b → in_data b ≡ true → (o : ℕ) × (f.base ≡ internal o)
    base_cases external e h = cc
    base_cases (internal o) e h = (o, e)

lt-grown : (p : Packet) → nr_frags p < grown p 1
lt-grown p = omega (arith, grown_room p 1)

-- The first fragment is internal, and nothing else about the packet has changed.
record IsEntered (p q : Packet) : Type 0 where
  starts : StartsInternal q.frags
  same_bytes : contents q.frags ≡ contents p.frags
  frags_fit : nr_frags q ≤ q.allocated
  same_headroom : q.headroom ≡ p.headroom
  same_len : q.len ≡ p.len
  anchored : Anchored q.headroom q.frags

enter_data_lem :
    (p : Packet)
    → Anchored p.headroom p.frags
    → nr_frags p ≤ p.allocated
    → 2 * (nr_frags p + 1) < 2 ^ 16
    → Returns (enter_data p) (IsEntered p)
unfolding push_front
enter_data_lem p v fits room = elim (Bool-cases (using_internal_data p)) [
  | inl e ↦ rw e (record {
    starts = uses_data-StartsInternal p.frags e;
    same_bytes = refl;
    frags_fit = fits;
    same_headroom = refl;
    same_len = refl;
    anchored = v;
  })
  | inr e ↦
      rw (e, allocate_if_needed_lem p 1 v room, push_front, lt→ltb _ _ (lt-grown p))
        (record {
          starts = (internal_data_size, refl);
          same_bytes = refl;
          frags_fit = omega (arith, lt-grown p);
          same_headroom = refl;
          same_len = refl;
          anchored =
              let w = Anchored-AllLater p.headroom p.frags v e in ((sym w.1, omega arith), w.0);
        })
]

-- The first fragment has grown downwards by the new bytes.
record IsLowered (fill : List ℕ) (h : ℕ) (fs gs : List Fragment) : Type 0 where
  anchored : Anchored (h - length fill) gs
  new_bytes : contents gs ≡ fill ++ contents fs
  same_number : length gs ≡ length fs

lower_lem :
    (fill : List ℕ) (h : ℕ) (fs : List Fragment)
    → Anchored h fs
    → StartsInternal fs
    → length fill ≤ h
    → Returns (lower fill fs) (IsLowered fill h fs)
lower_lem fill h [] v s le = elim s [ ]
lower_lem fill h (f ∷ fs) v (o, e) le =
    ground (arith, length-append fill f.bytes, append_assoc fill f.bytes (contents fs))

-- A header that fits the headroom is written before the packet's bytes; another changes nothing.
abbrev pub Prepended : List ℕ → List ℕ → Packet → Packet × Bool → Type 0
Prepended fill bs p (q, true) = Holds (fill ++ bs) q
Prepended fill bs p (q, false) = (q ≡ p) × (p.headroom < length fill)

lowered-Holds :
    (fill bs : List ℕ) (p : Packet)
    → Holds bs p
    → length fill + length bs < 2 ^ 32
    → (q : Packet) → IsEntered (add_len (length fill) p) q
    → (gs : List Fragment) → IsLowered fill q.headroom q.frags gs
    → Holds (fill ++ bs) (record q { headroom = q.headroom - length fill; frags = gs })
lowered-Holds fill bs p v fits q r gs t = record {
  bytes_are = t.new_bytes ∙ ap (◌++◌ fill) (r.same_bytes ∙ v.bytes_are);
  len_is = omega (arith, length-append fill bs);
  len_fits = omega (arith, length-append fill bs);
  frags_fit = omega arith;
  anchored = t.anchored;
}

pub allocate_headroom-Prepended :
    (fill bs : List ℕ) (p : Packet)
    → Holds bs p
    → length fill + length bs < 2 ^ 32
    → 2 * (nr_frags p + 1) < 2 ^ 16
    → Returns (allocate_headroom p fill) (Prepended fill bs p)
unfolding allocate_headroom
allocate_headroom-Prepended fill bs p v fits room =
    elim (Bool-cases (leb (length fill) p.headroom)) [
      | inr e ↦ rw e (refl, ground arith)
      | inl e ↦ rw e (
          Returns-bind (IsEntered (add_len (length fill) p)) _
            (enter_data (add_len (length fill) p)) _
            (enter_data_lem (add_len (length fill) p) v.anchored v.frags_fit room)
            (λ q r.
              Returns-bind (IsLowered fill q.headroom q.frags) _ (lower fill q.frags) _
                (lower_lem fill q.headroom q.frags r.anchored r.starts
                  (omega (arith, leb→le _ _ e, r.same_headroom)))
                (λ gs t. lowered-Holds fill bs p v fits q r gs t)))
    ]

prepend_outside-Holds :
    (fill bs : List ℕ) (p : Packet)
    → Holds bs p
    → AllLater p.frags
    → p.headroom ≡ internal_data_size
    → length fill + length bs < 2 ^ 32
    → 2 * (nr_frags p + 1) < 2 ^ 16
    → Returns (prepend_outside fill p) (Holds (fill ++ bs))
unfolding push_front
prepend_outside-Holds fill bs p v later h fits room =
    rw (allocate_if_needed_lem p 1 v.anchored room, push_front, lt→ltb _ _ (lt-grown p))
      (record {
        bytes_are = ap (◌++◌ fill) v.bytes_are;
        len_is = omega (arith, v.len_is, length-append fill bs);
        len_fits = omega (arith, length-append fill bs);
        frags_fit = omega (arith, lt-grown p);
        anchored = (h, later);
      })

-- The fallback after the internal buffer was left.
unused-Holds :
    (fill bs : List ℕ) (p : Packet)
    → Holds bs p
    → length fill + length bs < 2 ^ 32
    → 2 * (nr_frags p + 1) < 2 ^ 16
    → Returns (prepend_outside fill (unuse_internal_data p)) (Holds (fill ++ bs))
unused-Holds fill bs p v fits room =
    let left = unuse_internal_data_lem p v in
    prepend_outside-Holds fill bs (unuse_internal_data p) left.0 left.1 left.2 fits
      (omega (arith, left.3))

-- Prepending bytes to a packet holds them before what it held, wherever there is room for them. The
-- bytes are counted in 32 bits, and the fragments, doubled, in 16.
pub prepend-Holds :
    (fill bs : List ℕ) (p : Packet)
    → Holds bs p
    → length fill + length bs < 2 ^ 32
    → 2 * (nr_frags p + 1) < 2 ^ 16
    → Returns (prepend fill p) (Holds (fill ++ bs))
unfolding prepend
prepend-Holds fill bs p v fits room =
    Returns-bind (Prepended fill bs p) _ (allocate_headroom p fill) _
      (allocate_headroom-Prepended fill bs p v fits room) placed
  where
    placed :
        (r : Packet × Bool)
        → Prepended fill bs p r
        → Returns
            (if r.1 then some r.0 else prepend_outside fill (unuse_internal_data r.0))
            (Holds (fill ++ bs))
    placed (q, true) h = h
    placed (q, false) h = rw h.0 (unused-Holds fill bs p v fits room)

-- The second attempt of `prepend_uninitialized_header`, with the internal buffer free.
second_attempt-Holds :
    (fill bs : List ℕ) (p : Packet)
    → Holds bs p
    → length fill + length bs < 2 ^ 32
    → 2 * (nr_frags p + 1) < 2 ^ 16
    → Returns (second_attempt fill p) (Holds (fill ++ bs))
second_attempt-Holds fill bs p v fits room =
    let left = unuse_internal_data_lem p v in
    Returns-bind (Prepended fill bs (unuse_internal_data p)) _
      (allocate_headroom (unuse_internal_data p) fill) _
      (allocate_headroom-Prepended fill bs (unuse_internal_data p) left.0 fits
        (omega (arith, left.3)))
      placed
  where
    placed :
        (r : Packet × Bool)
        → Prepended fill bs (unuse_internal_data p) r
        → Returns (if r.1 then some r.0 else prepend_outside fill r.0) (Holds (fill ++ bs))
    placed (q, true) h = h
    placed (q, false) h =
        let left = unuse_internal_data_lem p v in
        rw h.0 (
          prepend_outside-Holds fill bs (unuse_internal_data p) left.0 left.1 left.2 fits
            (omega (arith, left.3)))

-- A header made by `prepend_uninitialized_header` and then written stands before what the packet
-- held, on all three of its ways to find the memory. The bytes are counted in 32 bits, and the
-- fragments, doubled, in 16.
pub prepend_uninitialized_header-Holds :
    (p : Packet) (fill bs : List ℕ)
    → Holds bs p
    → length fill + length bs < 2 ^ 32
    → 2 * (nr_frags p + 1) < 2 ^ 16
    → Returns (prepend_uninitialized_header p fill) (Holds (fill ++ bs))
unfolding prepend_uninitialized_header
prepend_uninitialized_header-Holds p fill bs v fits room =
    Returns-bind (Prepended fill bs p) _ (allocate_headroom p fill) _
      (allocate_headroom-Prepended fill bs p v fits room) placed
  where
    placed :
        (r : Packet × Bool)
        → Prepended fill bs p r
        → Returns (if r.1 then some r.0 else second_attempt fill r.0) (Holds (fill ++ bs))
    placed (q, true) h = h
    placed (q, false) h = rw h.0 (second_attempt-Holds fill bs p v fits room)
