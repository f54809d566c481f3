-- ===== src/Ip/Receive/Steps.antt =====
-- What each step of `handle_received_packet` does to the table of fragments and the timer.
-- The table is in order, and the timer runs while it has entries.
use actor_network.Prelude.{
  Bool-cases, List, Option, [], ap, inl, inr, leb, min, none, not, refl, some, subst, ℕ, ◌&&◌, ◌-◌,
  ◌==◌, ◌∷◌, ◌≡◌, ◌⊎◌,
}
use actor_network.Ip.{Frag, FragId, IpHdr, Ipv4, frag_high_thresh, frag_low_thresh}
use actor_network.Ip.Fragments.{
  arm_if_idle, drop_oldest, erase_frag, frag_arm, frag_drop, frag_limit_mem, frag_of, limit_loop,
  put_frag, remove_id,
}
use actor_network.Ip.Fragments.Accounts.{
  Accounts, AccountsFor, IsTimed, frag_drop-Accounts, frag_limit_mem-Accounts,
}
use actor_network.Ip.Fragments.Keys.{same_id_refl}
use actor_network.Ip.Fragments.Memory.{Listed-remove}
use actor_network.Ip.Receive.{deliver, in_my_netmask, learn_sender}

pub record WellFormed (s : Ipv4) : Type 0 where
  pub accounts : Accounts s
  pub timed : IsTimed s

erase-IsTimed :
    (id : FragId) (s : Ipv4)
    → (s.frags ≡ []) ⊎ ((t : ℕ) × (s.frag_timer ≡ some t))
    → (erase_frag s.frags id ≡ []) ⊎ ((t : ℕ) × (s.frag_timer ≡ some t))
unfolding erase_frag
erase-IsTimed id s (inl e) = inl (ap (λ m. erase_frag m id) e)
erase-IsTimed id s (inr t) = inr t

limit_loop-IsTimed :
    (ids : List FragId) (bytes : ℕ) (s : Ipv4) → IsTimed s → IsTimed (limit_loop ids bytes s)
unfolding limit_loop frag_drop
limit_loop-IsTimed [] bytes s t = t
limit_loop-IsTimed (id ∷ younger) bytes s t = elim (Bool-cases (bytes == 0)) [
  | inl d ↦ rw d t
  | inr d ↦ rw d (
      limit_loop-IsTimed younger (bytes - min bytes (frag_of s.frags id).mem_size)
        (drop_oldest id younger s) (erase-IsTimed id s t))
]

pub frag_limit_mem-WellFormed : (s : Ipv4) → WellFormed s → WellFormed (frag_limit_mem s)
unfolding frag_limit_mem
frag_limit_mem-WellFormed s w = record {
  accounts = frag_limit_mem-Accounts s w.accounts;
  timed = elim (Bool-cases (leb s.frag_mem frag_high_thresh)) [
    | inl d ↦ rw d w.timed
    | inr d ↦ rw d (limit_loop-IsTimed s.frags_age (s.frag_mem - frag_low_thresh) s w.timed)
  ];
}

-- The entry with the key is the one that is dropped.
pub dropped-Accounts :
    (id : FragId) (f : Frag) (t : Ipv4)
    → frag_of t.frags id ≡ f
    → Accounts t
    → Accounts (record (frag_drop id f.mem_size t) { frags_age = remove_id id t.frags_age })
unfolding frag_drop
dropped-Accounts id f t e a =
    let b : AccountsFor (remove_id id t.frags_age) (frag_drop id f.mem_size t) =
      subst (λ g. AccountsFor (remove_id id t.frags_age) (frag_drop id g.mem_size t)) e
        (frag_drop-Accounts t.frags_age (remove_id id t.frags_age) id t
          (λ k ne l. Listed-remove k id t.frags_age ne l) a) in
    record { table = b.table; accounted = b.accounted; tracked = b.tracked }

pub erase-put :
    (m : List (FragId × Frag)) (id : FragId) (f : Frag)
    → erase_frag (put_frag id f m) id ≡ erase_frag (erase_frag m id) id
unfolding erase_frag
erase-put m id f = rw (same_id_refl id) refl

pub armed-WellFormed :
    (timer : Option ℕ) (now : ℕ) (s : Ipv4)
    → s.frag_timer ≡ timer
    → Accounts s
    → WellFormed (arm_if_idle timer now s)
unfolding frag_arm
armed-WellFormed none now s e a = record {
  accounts = record { table = a.table; accounted = a.accounted; tracked = a.tracked };
  timed = inr (_, refl);
}
armed-WellFormed (some t) now s e a = record { accounts = a; timed = inr (t, e) }

pub deliver-WellFormed :
    (h : IpHdr) (p : List ℕ) (s : Ipv4) → WellFormed s → WellFormed (deliver h p s)
deliver-WellFormed h p s w = record {
  accounts = record {
    table = w.accounts.table;
    accounted = w.accounts.accounted;
    tracked = w.accounts.tracked;
  };
  timed = w.timed;
}

pub learn_sender-WellFormed :
    (h : IpHdr) (source : ℕ) (s : Ipv4) → WellFormed s → WellFormed (learn_sender h source s)
learn_sender-WellFormed h source s w =
    elim (Bool-cases (in_my_netmask h.src_ip s && not (h.src_ip == s.host_address))) [
      | inl e ↦ rw e (record {
        accounts = record {
          table = w.accounts.table;
          accounted = w.accounts.accounted;
          tracked = w.accounts.tracked;
        };
        timed = w.timed;
      })
      | inr e ↦ rw e w
    ]
