-- ===== src/Checksum/Tests.antt =====
-- Summing concrete bytes.
use actor_network.Prelude.{List, Returns, [], arith, false, refl, some, true, ℕ, ◌∷◌, ◌≡◌}
use actor_network.Checksum.{Checksummer, fresh, get, ip_checksum, sum, sum_packet}
use actor_network.Checksum.Fold.{get_constant}
use actor_network.Checksum.Sum.{AllNonempty, IsSummed, flatten, sum_packet-IsSummed}

abbrev odd_state : Checksummer
odd_state = record { csum = 5; odd = true }

abbrev pieces : List (List ℕ)
pieces = (1 ∷ []) ∷ (2 ∷ 3 ∷ []) ∷ (4 ∷ 5 ∷ 6 ∷ 7 ∷ 8 ∷ 9 ∷ 10 ∷ 11 ∷ 12 ∷ []) ∷ []

-- The sum of a two-byte word, and what `get` gives for it.
one_word :
    (sum (0x12 ∷ 0x34 ∷ []) fresh ≡ some (record { csum = 0x1234; odd = false }))
    × (ip_checksum (0x12 ∷ 0x34 ∷ []) ≡ some 0xffff)
unfolding ip_checksum
one_word = (refl, refl)

pieces-AllNonempty : AllNonempty pieces
pieces-AllNonempty = (λ e. cc, (λ e. cc, (λ e. cc, tt)))

sum_packet-IsSummed_example : Returns (sum_packet pieces fresh) (IsSummed (flatten pieces) fresh)
sum_packet-IsSummed_example = sum_packet-IsSummed pieces fresh pieces-AllNonempty

get_constant_example : get odd_state ≡ 0xffff
get_constant_example = get_constant odd_state (omega arith)
