-- ===== src/Ip/Fragments/Accounts.antt =====
-- The invariant of the table of fragments, and that every operation on it keeps it.
use actor_network.Prelude.{
  Bool-cases, List, [], ap, arith, false, inl, inr, leb, min, refl, some, subst, sym, ℕ, ◌%◌, ◌+◌,
  ◌-◌, ◌<◌, ◌==◌, ◌^◌, ◌∙◌, ◌∷◌, ◌≡◌, ◌⊎◌,
}
use actor_network.Ip.{FragId, Ipv4, frag_high_thresh, frag_low_thresh, same_id}
use actor_network.Ip.Fragments.{
  drop_oldest, erase_frag, frag_drop, frag_limit_mem, frag_of, limit_loop, sub32,
}
use actor_network.Ip.Fragments.Keys.{same_id_refl}
use actor_network.Ip.Fragments.Memory.{
  IsTable, Listed, Tracked, Tracked-erase, erase-IsTable, frag_of_small, total, total-erase,
}

-- With `ids` for the list of ages: what is counted is what the entries take up, modulo the width of the
-- counter, and the list has every entry.
pub record AccountsFor (ids : List FragId) (s : Ipv4) : Type 0 where
  pub table : IsTable s.frags
  pub accounted : s.frag_mem ≡ total s.frags % 2 ^ 32
  pub tracked : Tracked ids s.frags

abbrev pub Accounts : Ipv4 → Type 0
Accounts s = AccountsFor s.frags_age s

-- The timer runs while there are fragments.
abbrev pub IsTimed : Ipv4 → Type 0
IsTimed s = (s.frags ≡ []) ⊎ ((t : ℕ) × (s.frag_timer ≡ some t))

returned : (t n : ℕ) → n < 2 ^ 32 → ((t + n) % 2 ^ 32 + 2 ^ 32 - n) % 2 ^ 32 ≡ t % 2 ^ 32
returned t n h = omega arith

pub added_sum :
    (t old new : ℕ)
    → old < 2 ^ 32
    → new < 2 ^ 32
    → ((t + old) % 2 ^ 32 + (new + 2 ^ 32 - old) % 2 ^ 32) % 2 ^ 32 ≡ (new + t) % 2 ^ 32
added_sum t old new h k = omega arith

-- Dropping an entry.
pub frag_drop-Accounts :
    (ids js : List FragId) (id : FragId) (s : Ipv4)
    → ((k : FragId) → same_id k id ≡ false → Listed k ids → Listed k js)
    → AccountsFor ids s
    → AccountsFor js (frag_drop id (frag_of s.frags id).mem_size s)
unfolding frag_drop
frag_drop-Accounts ids js id s g a = record {
  table = erase-IsTable s.frags id a.table;
  accounted =
      ap (λ n. sub32 n (frag_of s.frags id).mem_size)
        (a.accounted ∙ ap (λ n. n % 2 ^ 32) (sym (total-erase s.frags id a.table)))
      ∙ returned (total (erase_frag s.frags id)) (frag_of s.frags id).mem_size
          (frag_of_small s.frags id a.table);
  tracked = Tracked-erase ids js s.frags id g a.tracked;
}

-- A list of ages that another entry stands in front of.
behind :
    (id : FragId) (younger : List FragId) (k : FragId)
    → same_id k id ≡ false
    → Listed k (id ∷ younger)
    → Listed k younger
behind id younger k ne (inl e) = absurd (cc (same_id_refl k, ne, e))
behind id younger k ne (inr h) = h

pub oldest-Accounts :
    (id : FragId) (younger : List FragId) (s : Ipv4)
    → AccountsFor (id ∷ younger) s
    → AccountsFor younger (drop_oldest id younger s)
unfolding frag_drop
oldest-Accounts id younger s a =
    let b = frag_drop-Accounts (id ∷ younger) younger id s (behind id younger) a in
    record { table = b.table; accounted = b.accounted; tracked = b.tracked }

limit_loop-Accounts :
    (ids : List FragId) (bytes : ℕ) (s : Ipv4)
    → s.frags_age ≡ ids
    → AccountsFor ids s
    → Accounts (limit_loop ids bytes s)
unfolding limit_loop
limit_loop-Accounts [] bytes s e a = subst (λ l. AccountsFor l s) (sym e) a
limit_loop-Accounts (id ∷ younger) bytes s e a = elim (Bool-cases (bytes == 0)) [
  | inl d ↦ rw d (subst (λ l. AccountsFor l s) (sym e) a)
  | inr d ↦ rw d (
      limit_loop-Accounts younger (bytes - min bytes (frag_of s.frags id).mem_size)
        (drop_oldest id younger s) refl (oldest-Accounts id younger s a))
]

pub frag_limit_mem-Accounts : (s : Ipv4) → Accounts s → Accounts (frag_limit_mem s)
unfolding frag_limit_mem
frag_limit_mem-Accounts s a = elim (Bool-cases (leb s.frag_mem frag_high_thresh)) [
  | inl d ↦ rw d a
  | inr d ↦ rw d (limit_loop-Accounts s.frags_age (s.frag_mem - frag_low_thresh) s refl a)
]
