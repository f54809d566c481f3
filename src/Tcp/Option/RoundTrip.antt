-- ===== src/Tcp/Option/RoundTrip.antt =====
-- What one side fills in, the other side's `parse` reads.
use actor_network.Prelude.{
  Bool, Bool-cases, List, [], arith, false, if◌then◌else◌, inl, inr, length, not, refl, some, true,
  ℕ, ◌%◌, ◌&&◌, ◌++◌, ◌+◌, ◌<◌, ◌^◌, ◌||◌, ◌∷◌, ◌≡◌, ◌≤◌, ◌⊎◌,
}
use actor_network.Tcp.Core.{Align, BigEndian}
use actor_network.Tcp.Option.{
  TcpOption, fill, get_size, kind_of, mss_bytes, parse, parse_loop, parsed, win_scale_bytes,
}

module _ (be : BigEndian) (core : Align) where
  open be use {write16, read16, read-write16}
  open core use {align_up, align_up_multiple, align_up_bounds}

  align_up_at : (v w : ℕ) → v ≤ w → w < v + 4 → w % 4 ≡ 0 → align_up v ≡ w
  align_up_at v w lo hi m = omega (arith, align_up_multiple v, align_up_bounds v)

  aligned8 : align_up 8 ≡ 8
  aligned8 = align_up_at 8 8 (omega arith) (omega arith) refl

  aligned5 : align_up 5 ≡ 8
  aligned5 = align_up_at 5 8 (omega arith) (omega arith) refl

  aligned4 : align_up 4 ≡ 4
  aligned4 = align_up_at 4 4 (omega arith) (omega arith) refl

  -- What the other side knows after it has parsed the options of a segment.
  abbrev pub told : TcpOption → TcpOption → Bool → Bool → TcpOption
  told o o' syn_on ack_on =
      let p =
        if syn_on && (o.mss_received || not ack_on)
        then record o' { mss_received = true; remote_mss = o.local_mss }
        else o' in
      if syn_on && (o.win_scale_received || not ack_on)
      then record p {
        win_scale_received = true;
        remote_win_scale = o.local_win_scale;
        local_win_scale = 7;
      }
      else p

  abbrev mss_sent : TcpOption → Bool → Bool → Bool
  mss_sent o syn_on ack_on = syn_on && (o.mss_received || not ack_on)

  abbrev scale_sent : TcpOption → Bool → Bool → Bool
  scale_sent o syn_on ack_on = syn_on && (o.win_scale_received || not ack_on)

  -- The bytes, their number, and what they tell.
  record IsFilled (o o' : TcpOption) (syn_on ack_on : Bool) : Type 0 where
    bytes : List ℕ
    fills : fill be core o syn_on ack_on (get_size be core o syn_on ack_on) ≡ some bytes
    size_is : length bytes ≡ get_size be core o syn_on ack_on
    whole_words : length bytes % 4 ≡ 0
    tells : parse be bytes o' ≡ parsed (told o o' syn_on ack_on)

  module _ (o o' : TcpOption) (syn_on ack_on : Bool) (fits : o.local_mss < 2 ^ 16) where
    both_sent :
        mss_sent o syn_on ack_on ≡ true
        → scale_sent o syn_on ack_on ≡ true
        → IsFilled o o' syn_on ack_on
    unfolding fill get_size parse parse_loop kind_of
    both_sent m w = record {
      bytes = mss_bytes be o.local_mss ++ win_scale_bytes be o.local_win_scale ++ 0 ∷ [];
      fills = rw (m, w, aligned8) refl;
      size_is = rw (m, w, aligned8) refl;
      whole_words = refl;
      tells = rw (m, w, read-write16 o.local_mss fits) refl;
    }

    mss_only :
        mss_sent o syn_on ack_on ≡ true
        → scale_sent o syn_on ack_on ≡ false
        → IsFilled o o' syn_on ack_on
    unfolding fill get_size parse parse_loop kind_of
    mss_only m w = record {
      bytes = mss_bytes be o.local_mss ++ 1 ∷ 1 ∷ 1 ∷ 0 ∷ [];
      fills = rw (m, w, aligned5) refl;
      size_is = rw (m, w, aligned5) refl;
      whole_words = refl;
      tells = rw (m, w, read-write16 o.local_mss fits) refl;
    }

    scale_only :
        mss_sent o syn_on ack_on ≡ false
        → scale_sent o syn_on ack_on ≡ true
        → IsFilled o o' syn_on ack_on
    unfolding fill get_size parse parse_loop kind_of
    scale_only m w = record {
      bytes = win_scale_bytes be o.local_win_scale ++ 0 ∷ [];
      fills = rw (m, w, aligned4) refl;
      size_is = rw (m, w, aligned4) refl;
      whole_words = refl;
      tells = rw (m, w) refl;
    }

    none_sent :
        mss_sent o syn_on ack_on ≡ false
        → scale_sent o syn_on ack_on ≡ false
        → IsFilled o o' syn_on ack_on
    unfolding fill get_size parse parse_loop kind_of
    none_sent m w = record {
      bytes = [];
      fills = rw (m, w) refl;
      size_is = rw (m, w) refl;
      whole_words = refl;
      tells = rw (m, w) refl;
    }

  -- `fill` writes as many bytes as `get_size` said, a whole number of 32-bit words, so that its
  -- assertion holds; and `parse` on these bytes, with no other, learns the MSS and the window scale
  -- that were sent, turns its own scaling on exactly when a scale came, and changes nothing else.
  -- The MSS is a 16-bit number.
  pub fill-parse :
      (o o' : TcpOption) (syn_on ack_on : Bool)
      → o.local_mss < 2 ^ 16
      → (bytes : List ℕ) × (fill be core o syn_on ack_on (get_size be core o syn_on ack_on)
          ≡ some bytes)
        × (length bytes ≡ get_size be core o syn_on ack_on)
        × (length bytes % 4 ≡ 0)
        × (parse be bytes o' ≡ parsed (told o o' syn_on ack_on))
  fill-parse o o' syn_on ack_on fits =
      let r =
        by_cases (Bool-cases (mss_sent o syn_on ack_on))
          (Bool-cases (scale_sent o syn_on ack_on)) in
      (r.bytes, r.fills, r.size_is, r.whole_words, r.tells)
    where
      by_cases :
          (mss_sent o syn_on ack_on ≡ true) ⊎ (mss_sent o syn_on ack_on ≡ false)
          → (scale_sent o syn_on ack_on ≡ true) ⊎ (scale_sent o syn_on ack_on ≡ false)
          → IsFilled o o' syn_on ack_on
      by_cases (inl m) (inl w) = both_sent o o' syn_on ack_on fits m w
      by_cases (inl m) (inr w) = mss_only o o' syn_on ack_on fits m w
      by_cases (inr m) (inl w) = scale_only o o' syn_on ack_on fits m w
      by_cases (inr m) (inr w) = none_sent o o' syn_on ack_on fits m w
