-- ===== src/Ip/Fragments/Updates.antt =====
-- Putting an entry back keeps the invariant of the table of fragments.
use actor_network.Prelude.{
  Bool, Bool-cases, List, [], ap, arith, false, if◌then◌else◌, inl, inr, ltb, none, refl, subst,
  sym, true, ℕ, ◌%◌, ◌+◌, ◌<◌, ◌==◌, ◌^◌, ◌∙◌, ◌∷◌, ◌≡◌,
}
use actor_network.Ip.{Frag, FragId, Ipv4, frag_timeout_span, same_id}
use actor_network.Ip.Fragments.{
  aged, drop_oldest, erase_frag, frag_arm, frag_of, frag_timeout, put_frag, rearm, sub32, sweep,
  timeout_loop,
}
use actor_network.Ip.Fragments.Accounts.{Accounts, AccountsFor, IsTimed, added_sum, oldest-Accounts}
use actor_network.Ip.Fragments.Keys.{same_id→eq}
use actor_network.Ip.Fragments.Memory.{
  Listed, Listed-append, Listed-last, Tracked, Tracked-erase, erase-Absent_same, erase-IsTable,
  frag_of_small, total, total-erase,
}

size-Listed :
    (ids : List FragId) (m : List (FragId × Frag)) (id : FragId)
    → ((frag_of m id).mem_size == 0) ≡ false
    → Tracked ids m
    → Listed id ids
unfolding frag_of
size-Listed ids [] id e h = cc
size-Listed ids ((k, f) ∷ m) id e h = by_key (same_id k id) refl e (λ d. size-Listed ids m id d h.1)
  where
    by_key :
        (b : Bool)
        → same_id k id ≡ b
        → ((frag_of ((k, f) ∷ m) id).mem_size == 0) ≡ false
        → (((frag_of m id).mem_size == 0) ≡ false → Listed id ids)
        → Listed id ids
    by_key true d e' further = subst (λ j. Listed j ids) (same_id→eq k id d) h.0
    by_key false d e' further =
        further (subst (λ b. ((if b then f else frag_of m id).mem_size == 0) ≡ false) d e')

-- The list of ages after an entry is put has it.
aged-Listed :
    (ids : List FragId) (m : List (FragId × Frag)) (id : FragId)
    → Tracked ids m
    → Listed id (aged id (frag_of m id) ids)
aged-Listed ids m id h = elim (Bool-cases ((frag_of m id).mem_size == 0)) [
  | inl e ↦ rw e (Listed-last id ids)
  | inr e ↦ rw e (size-Listed ids m id e h)
]

aged-keeps :
    (ids : List FragId) (f : Frag) (id k : FragId) → Listed k ids → Listed k (aged id f ids)
aged-keeps ids f id k h = elim (Bool-cases (f.mem_size == 0)) [
  | inl e ↦ rw e (Listed-append k ids (id ∷ []) h)
  | inr e ↦ rw e h
]

-- The state after a merge, where the entry `f` has taken the place of the old one.
pub put-Accounts :
    (id : FragId) (f : Frag) (s : Ipv4)
    → f.mem_size < 2 ^ 32
    → Accounts s
    → Accounts (record s {
      frags = put_frag id f s.frags;
      frags_age = aged id (frag_of s.frags id) s.frags_age;
      frag_mem = (s.frag_mem + sub32 f.mem_size (frag_of s.frags id).mem_size) % 2 ^ 32;
    })
put-Accounts id f s small a = record {
  table = (erase-Absent_same s.frags id, small, erase-IsTable s.frags id a.table);
  accounted =
      ap (λ n. (n + sub32 f.mem_size (frag_of s.frags id).mem_size) % 2 ^ 32)
        (a.accounted ∙ ap (λ n. n % 2 ^ 32) (sym (total-erase s.frags id a.table)))
      ∙ added_sum (total (erase_frag s.frags id)) (frag_of s.frags id).mem_size f.mem_size
          (frag_of_small s.frags id a.table) small;
  tracked = (
    aged-Listed s.frags_age s.frags id a.tracked,
    Tracked-erase s.frags_age _ s.frags id
        (λ k ne h. aged-keeps s.frags_age (frag_of s.frags id) id k h) a.tracked,
  );
}

-- Looking up the entry of an id that is on the list.
found-Accounts :
    (id : FragId) (younger : List FragId) (s : Ipv4)
    → AccountsFor (id ∷ younger) s
    → AccountsFor (id ∷ younger) (record s { frags = put_frag id (frag_of s.frags id) s.frags })
found-Accounts id younger s a = record {
  table = (
    erase-Absent_same s.frags id,
    frag_of_small s.frags id a.table,
    erase-IsTable s.frags id a.table,
  );
  accounted = a.accounted ∙ ap (λ n. n % 2 ^ 32) (omega (arith, total-erase s.frags id a.table));
  tracked =
      (inl refl, Tracked-erase (id ∷ younger) (id ∷ younger) s.frags id (λ k ne h. h) a.tracked);
}

timeout_loop-Accounts :
    (now : ℕ) (ids : List FragId) (s : Ipv4)
    → s.frags_age ≡ ids
    → AccountsFor ids s
    → Accounts (timeout_loop now ids s)
unfolding timeout_loop
timeout_loop-Accounts now [] s e a = subst (λ l. AccountsFor l s) (sym e) a
timeout_loop-Accounts now (id ∷ younger) s e a =
    elim (Bool-cases (ltb ((frag_of s.frags id).rx_time + frag_timeout_span) now)) [
      | inl d ↦ rw d (
          timeout_loop-Accounts now younger (drop_oldest id younger s) refl
            (oldest-Accounts id younger s a))
      | inr d ↦ rw d (
          subst (λ l. AccountsFor l (record s { frags = put_frag id (frag_of s.frags id) s.frags }))
            (sym e) (found-Accounts id younger s a))
    ]

rearm-Accounts :
    (m : List (FragId × Frag)) (now : ℕ) (s : Ipv4)
    → s.frags ≡ m
    → Accounts s
    → Accounts (rearm m now s) × IsTimed (rearm m now s)
unfolding frag_arm
rearm-Accounts [] now s e a = (
  record { table = a.table; accounted = ap (λ m. total m % 2 ^ 32) (sym e); tracked = a.tracked },
  inl e,
)
rearm-Accounts (_ ∷ m) now s e a =
    (record { table = a.table; accounted = a.accounted; tracked = a.tracked }, inr (_, refl))

sweep-Accounts :
    (m : List (FragId × Frag)) (now : ℕ) (s : Ipv4)
    → s.frags ≡ m
    → Accounts s
    → Accounts (sweep m now s) × IsTimed (sweep m now s)
sweep-Accounts [] now s e a = (a, inl e)
sweep-Accounts (_ ∷ m) now s e a =
    rearm-Accounts (timeout_loop now s.frags_age s).frags now (timeout_loop now s.frags_age s) refl
      (timeout_loop-Accounts now s.frags_age s refl a)

-- The timer going off keeps the table in order, and leaves the timer running while there are
-- fragments.
pub frag_timeout-Accounts :
    (now : ℕ) (s : Ipv4) → Accounts s → Accounts (frag_timeout now s) × IsTimed (frag_timeout now s)
unfolding frag_timeout
frag_timeout-Accounts now s a =
    sweep-Accounts s.frags now (record s { frag_timer = none }) refl
      (record { table = a.table; accounted = a.accounted; tracked = a.tracked })
