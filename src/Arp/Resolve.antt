-- ===== src/Arp/Resolve.antt =====
-- Lookups that wait are settled by what is learnt.
use actor_network.Prelude.{
  ==_iff, List, Option, [], append_assoc, arith, false, length, map, none, refl, reverse,
  reverse-cons, some, sym, ℕ, ◌++◌, ◌<◌, ◌==◌, ◌∷◌, ◌≡◌, ◌≢◌,
}
use actor_network.Arp.{
  Arp, Outcome, address, assign, erase_key, find_key, learn, lookup, max_waiters, send_query,
  settle, waiters_for, waiting,
}
use actor_network.Ip.Send.{room}

module _ {ℓ} {A : Type ℓ} where
  find_key-erase_key_same : (m : List (ℕ × A)) (k : ℕ) → find_key (erase_key m k) k ≡ none
  unfolding find_key erase_key
  find_key-erase_key_same [] k = refl
  find_key-erase_key_same ((j, v) ∷ m) k = ground (arith, find_key-erase_key_same m k)

  find_key-erase_key_other :
      (m : List (ℕ × A)) (k i : ℕ) → k ≢ i → find_key (erase_key m k) i ≡ find_key m i
  unfolding find_key erase_key
  find_key-erase_key_other [] k i ne = refl
  find_key-erase_key_other ((j, v) ∷ m) k i ne = ground (arith, find_key-erase_key_other m k i ne)

  find_key-assign_same : (m : List (ℕ × A)) (k : ℕ) (v : A) → find_key (assign k v m) k ≡ some v
  unfolding find_key assign
  find_key-assign_same m k v = rw ((==_iff k k).1 refl) refl

  find_key-assign_other :
      (m : List (ℕ × A)) (k i : ℕ) (v : A) → k ≢ i → find_key (assign k v m) i ≡ find_key m i
  unfolding find_key assign
  find_key-assign_other m k i v ne =
      let differs : (k == i) ≡ false = ground arith in
      rw differs (find_key-erase_key_other m k i ne)

settle-map :
    (ws : List ℕ) (o : Outcome) (got : List (ℕ × Outcome))
    → settle ws o got ≡ reverse (map (λ w. (w, o)) ws) ++ got
unfolding settle
settle-map [] o got = refl
settle-map (w ∷ ws) o got =
    rw
      (settle-map ws o ((w, o) ∷ got), reverse-cons {A = ℕ × Outcome} (w, o) (map (λ x. (x, o)) ws))
      (sym (append_assoc (reverse (map (λ x. (x, o)) ws)) ((w, o) ∷ []) got))

-- What learning an address leaves, with what the promises got the latest first, for that address and another one.
pub record Resolves (hwaddr paddr other : ℕ) (a c : Arp) : Type 0 where
  pub all_settled :
      c.settled ≡ reverse (map (λ w. (w, address hwaddr)) (waiters_for paddr a)) ++ a.settled
  pub found : find_key c.table paddr ≡ some hwaddr
  pub none_waits : find_key c.in_progress paddr ≡ none
  pub table_kept : find_key c.table other ≡ find_key a.table other
  pub progress_kept : find_key c.in_progress other ≡ find_key a.in_progress other

-- Learning an address settles the promise of every lookup that waits for it with that address, each
-- once and in the order in which they wait, and no other promise. It puts the address into the table
-- and ends the resolution; for another address the table and the resolutions stay as they were.
pub learn-Resolves :
    (hwaddr paddr other : ℕ) (a : Arp)
    → paddr ≢ other
    → Resolves hwaddr paddr other a (learn hwaddr paddr a)
unfolding learn waiters_for
learn-Resolves hwaddr paddr other a ne = by_case (find_key a.in_progress paddr) refl
  where
    by_case :
        (o : Option (List ℕ))
        → find_key a.in_progress paddr ≡ o
        → Resolves hwaddr paddr other a (learn hwaddr paddr a)
    by_case none e = record {
      all_settled = rw (learn, waiters_for, e) refl;
      found = rw (learn, e) (find_key-assign_same a.table paddr hwaddr);
      none_waits = rw (learn, e) e;
      table_kept = rw (learn, e) (find_key-assign_other a.table paddr other hwaddr ne);
      progress_kept = rw (learn, e) refl;
    }
    by_case (some ws) e = record {
      all_settled = rw (learn, waiters_for, e) (settle-map ws (address hwaddr) a.settled);
      found = rw (learn, e) (find_key-assign_same a.table paddr hwaddr);
      none_waits = rw (learn, e) (find_key-erase_key_same a.in_progress paddr);
      table_kept = rw (learn, e) (find_key-assign_other a.table paddr other hwaddr ne);
      progress_kept = rw (learn, e) (find_key-erase_key_other a.in_progress paddr other ne);
    }

-- A lookup of an address that the table does not have waits with the next promise, behind those that
-- wait for it already, which are fewer than `max_waiters`.
pub lookup_waits :
    (paddr : ℕ) (a : Arp)
    → find_key a.table paddr ≡ none
    → length (waiters_for paddr a) < max_waiters
    → ((lookup paddr a).0 ≡ waiting a.next_promise)
      × (waiters_for paddr (lookup paddr a).1 ≡ waiters_for paddr a ++ a.next_promise ∷ [])
unfolding lookup waiters_for find_key erase_key send_query
lookup_waits paddr a missing few = by_case (find_key a.in_progress paddr) refl few
  where
    by_case :
        (o : Option (List ℕ))
        → find_key a.in_progress paddr ≡ o
        → length (waiters_for paddr a) < max_waiters
        → ((lookup paddr a).0 ≡ waiting a.next_promise)
          × (waiters_for paddr (lookup paddr a).1 ≡ waiters_for paddr a ++ a.next_promise ∷ [])
    by_case none e room = ground arith
    by_case (some ws) e room = ground arith
