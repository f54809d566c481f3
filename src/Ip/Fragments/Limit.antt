-- ===== src/Ip/Fragments/Limit.antt =====
-- What `frag_limit_mem` brings about.
use actor_network.Prelude.{
  Bool-cases, List, [], arith, false, inl, inr, leb, min, refl, ℕ, ◌+◌, ◌-◌, ◌<◌, ◌==◌, ◌^◌, ◌∷◌,
  ◌≡◌, ◌≤◌,
}
use actor_network.Ip.{Frag, FragId, Ipv4, frag_high_thresh, frag_low_thresh}
use actor_network.Ip.Fragments.{drop_oldest, frag_drop, frag_limit_mem, frag_of, limit_loop}
use actor_network.Ip.Fragments.Accounts.{Accounts, AccountsFor, oldest-Accounts}
use actor_network.Ip.Fragments.Memory.{Tracked, total, total-erase}

-- A table with no age in its list is empty.
total_untracked : (m : List (FragId × Frag)) → Tracked [] m → total m ≡ 0
total_untracked [] h = refl
total_untracked ((k, f) ∷ m) h = elim h.0 [ ]

limit_loop-low :
    (ids : List FragId) (bytes : ℕ) (s : Ipv4)
    → AccountsFor ids s
    → total s.frags < 2 ^ 32
    → s.frag_mem ≤ frag_low_thresh + bytes
    → (limit_loop ids bytes s).frag_mem ≤ frag_low_thresh
unfolding limit_loop frag_drop
limit_loop-low [] bytes s a fits h = omega (arith, a.accounted, total_untracked s.frags a.tracked)
limit_loop-low (id ∷ younger) bytes s a fits h = elim (Bool-cases (bytes == 0)) [
  | inl e ↦ rw e (ground arith)
  | inr e ↦
      let size = (frag_of s.frags id).mem_size in
      let sum = total-erase s.frags id a.table in
      rw e (
        limit_loop-low younger (bytes - min bytes size) (drop_oldest id younger s)
          (oldest-Accounts id younger s a) (omega (arith, sum)) (omega (arith, sum, a.accounted)))
]

-- Where the memory of the fragments is above the high threshold, so much is dropped that it is not
-- above the low one. The table and the list of ages are in order, and the sum of the sizes fits the
-- counter.
pub frag_limit_mem-low :
    (s : Ipv4)
    → Accounts s
    → total s.frags < 2 ^ 32
    → frag_high_thresh < s.frag_mem
    → (frag_limit_mem s).frag_mem ≤ frag_low_thresh
unfolding frag_limit_mem
frag_limit_mem-low s a fits high =
    let above : leb s.frag_mem frag_high_thresh ≡ false = ground arith in
    rw above (limit_loop-low s.frags_age (s.frag_mem - frag_low_thresh) s a fits (omega arith))
