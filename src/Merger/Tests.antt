-- ===== src/Merger/Tests.antt =====
-- Merging at concrete segments.
use actor_network.Prelude.{Returns, [], arith, refl, some, ℕ, ◌∷◌, ◌≡◌}
use actor_network.Merger.{Merger, merge}
use actor_network.Merger.Within.{IsMerged32, merge-IsMerged32}

abbrev ascending : ℕ → ℕ
ascending x = x

abbrev sparse : Merger
sparse = record {
  map = record { beg = 0; bytes = 0 ∷ 1 ∷ [] } ∷ record { beg = 4; bytes = 4 ∷ 5 ∷ 6 ∷ [] } ∷ [];
  linearizations = 0;
}

-- The gap is filled, and one segment is left.
merge_gap :
    merge 2 (2 ∷ 3 ∷ []) sparse
    ≡ some (record {
      map = record { beg = 0; bytes = 0 ∷ 1 ∷ 2 ∷ 3 ∷ 4 ∷ 5 ∷ 6 ∷ [] } ∷ [];
      linearizations = 1;
    })
unfolding merge
merge_gap = refl

merge-IsMerged32_example :
    Returns (merge 2 (2 ∷ 3 ∷ []) sparse) (λ r'. IsMerged32 2 (2 ∷ 3 ∷ []) sparse.map r'.map)
merge-IsMerged32_example =
    merge-IsMerged32 2 (2 ∷ 3 ∷ []) sparse (omega arith, (omega arith, tt)) (omega arith)
      ((omega arith, omega arith), ((omega arith, omega arith), tt))
