-- ===== src/Ip/Receive/Tests.antt =====
-- Reassembly at the two fragments of a datagram of nine bytes.
use actor_network.Prelude.{
  Bool-cases, Returns, [], ap, arith, inl, inr, ltb, ltb→lt, refl, some, some-injective, sym, ℕ,
  ◌++◌, ◌<◌, ◌∙◌, ◌∷◌, ◌≡◌,
}
use actor_network.Ip.{offset_of}
use actor_network.Ip.Fragments.{frag_of, fresh_frag}
use actor_network.Ip.Fragments.Orders.{Carried, IsReassembled, merge_all, merge_all-IsReassembled}
use actor_network.Ip.Fragments.Reassembly.{IsFragmentOf}
use actor_network.Ip.Header.{read_ip}
use actor_network.Ip.Receive.Delivers.{run-delivers}
use actor_network.Ip.Receive.Run.{IsIncoming, Runs, delivery_of}
use actor_network.Ip.Samples.{
  first_fragment, first_hdr, last_fragment, last_hdr, some_id, test_env, test_host,
}
use actor_network.Tcp.Tests.{big_endian}

abbrev ascending : ℕ → ℕ
ascending x = x

first-IsFragmentOf : IsFragmentOf ascending 9 first_hdr first_fragment
unfolding first_fragment
first-IsFragmentOf = record {
  size = 8;
  size_is = refl;
  payload = refl;
  nonempty = omega arith;
  ends = omega arith;
  mf_is = refl;
}

last-IsFragmentOf : IsFragmentOf ascending 9 last_hdr last_fragment
unfolding last_fragment
last-IsFragmentOf = record {
  size = 1;
  size_is = refl;
  payload = refl;
  nonempty = omega arith;
  ends = omega arith;
  mf_is = refl;
}

first_read : read_ip big_endian first_fragment ≡ some first_hdr
unfolding read_ip first_fragment
first_read = refl

last_read : read_ip big_endian last_fragment ≡ some last_hdr
unfolding read_ip last_fragment
last_read = refl

merge_all-IsReassembled_example :
    Returns
      (merge_all big_endian 100 0 (last_fragment ∷ first_fragment ∷ []) fresh_frag)
      (IsReassembled big_endian ascending 9 (last_fragment ∷ first_fragment ∷ []))
merge_all-IsReassembled_example =
    merge_all-IsReassembled big_endian ascending 9 100 0 (last_fragment ∷ first_fragment ∷ [])
      (omega arith)
      ((last_hdr, last_read, last-IsFragmentOf), ((first_hdr, first_read, first-IsFragmentOf), tt))

first-IsIncoming : IsIncoming test_env ascending 9 (some_id 7) 2 18 first_fragment
unfolding first_fragment
first-IsIncoming = record {
  hdr = first_hdr;
  reads = first_read;
  fragment = first-IsFragmentOf;
  part = refl;
  id_is = refl;
  len_is = refl;
  short = omega arith;
  let_through = refl;
  target_is = refl;
  known = refl;
}

last-IsIncoming : IsIncoming test_env ascending 9 (some_id 7) 2 18 last_fragment
unfolding last_fragment
last-IsIncoming = record {
  hdr = last_hdr;
  reads = last_read;
  fragment = last-IsFragmentOf;
  part = refl;
  id_is = refl;
  len_is = refl;
  short = omega arith;
  let_through = refl;
  target_is = refl;
  known = refl;
}

-- The last fragment alone does not have the first byte.
last_missing : ¬ ((x : ℕ) → x < 9 → Carried big_endian x (last_fragment ∷ []))
last_missing all = elim (all 0 (omega arith)) [
  | inl (h, e, i) ↦
      let same : h ≡ last_hdr = some-injective h last_hdr (sym e ∙ last_read) in
      let far : offset_of h ≡ 8 = ap offset_of same in
      let bad : ⊥ = omega (arith, far, i.0) in elim bad [ ]
  | inr i ↦ elim i [ ]
]

ascending-Carried : (x : ℕ) → x < 9 → Carried big_endian x (last_fragment ∷ first_fragment ∷ [])
unfolding first_fragment last_fragment
ascending-Carried x h = elim (Bool-cases (ltb x 8)) [
  | inl e ↦ inr (inl (first_hdr, first_read, (omega arith, ltb→lt x 8 e)))
  | inr e ↦ inl (last_hdr, last_read, (ground arith, h))
]

run-delivers_example : Runs test_env 18 0 (last_fragment ∷ first_fragment ∷ []) test_host (λ u.
    u.deliveries ≡ [] ++ (delivery_of (some_id 7) (0 ∷ 1 ∷ 2 ∷ 3 ∷ 4 ∷ 5 ∷ 6 ∷ 7 ∷ 8 ∷ []) ∷ []))
unfolding frag_of
run-delivers_example =
    run-delivers test_env ascending 9 (some_id 7) 18 0 (last_fragment ∷ []) first_fragment test_host
      (omega arith) (λ hash. refl) refl refl (last-IsIncoming, (first-IsIncoming, tt)) last_missing
      ascending-Carried
