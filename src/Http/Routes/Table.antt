-- ===== src/Http/Routes/Table.antt =====
-- The table of exact urls: what is put is found, and dropping it undoes this.
use actor_network.Prelude.{
  ==_iff, Bool-cases, List, [], ap, false, if◌then◌else◌, inl, inr, none, refl, some, subst, sym,
  true, ℕ, ◌==◌, ◌∙◌, ◌∷◌, ◌≡◌, ◌⊎◌,
}
use actor_network.Http.Common.{
  Dict, OperationType, connect, delete, get, head, options, post, put, text_eq, text_eq_refl, trace,
}
use actor_network.Http.Routes.{
  Routes, at_op, drop_handler, erase, get_exact_match, get_handler, lookup, op_index, put_handler,
}

op_of : ℕ → OperationType
op_of i =
    if i == 0
    then get
    else if i == 1
    then post
    else if i == 2
    then put
    else if i == 3
    then delete
    else if i == 4
    then head
    else if i == 5
    then options
    else if i == 6
    then trace
    else connect

op_of-op_index : (op : OperationType) → op_of (op_index op) ≡ op
unfolding op_of op_index
op_of-op_index get = refl
op_of-op_index post = refl
op_of-op_index put = refl
op_of-op_index delete = refl
op_of-op_index head = refl
op_of-op_index options = refl
op_of-op_index trace = refl
op_of-op_index connect = refl

op_index_injective : (a b : OperationType) → op_index a ≡ op_index b → a ≡ b
op_index_injective a b e = sym (op_of-op_index a) ∙ ap op_of e ∙ op_of-op_index b

module _ {ℓ} {A : Type ℓ} where
  pub at_op_same : (op : OperationType) (v : A) (a : OperationType → A) → at_op op v a op ≡ v
  at_op_same op v a = rw ((==_iff (op_index op) (op_index op)).1 refl) refl

module _ {ℓ κ} {A : Type ℓ} where
  -- What holds of the new value at its method, and of the others, holds at every method.
  pub at_op_cases :
      (P : OperationType → A → Type κ) (op : OperationType) (v : A) (a : OperationType → A)
      → P op v
      → ((other : OperationType) → (op_index op == op_index other) ≡ false → P other (a other))
      → (other : OperationType) → P other (at_op op v a other)
  at_op_cases P op v a new old other = by_case (Bool-cases (op_index op == op_index other))
    where
      by_case :
          ((op_index op == op_index other) ≡ true) ⊎ ((op_index op == op_index other) ≡ false)
          → P other (at_op op v a other)
      by_case (inl e) =
          rw e (subst (λ o. P o v) (op_index_injective op other ((==_iff _ _).0 e)) new)
      by_case (inr e) = rw e (old other e)

module _ {ℓ} {H : Type ℓ} where
  lookup-erase :
      (m : List (List ℕ × H)) (url other : List ℕ)
      → lookup m url ≡ none
      → lookup (erase m url) other ≡ lookup m other
  unfolding lookup erase
  lookup-erase [] url other e = refl
  lookup-erase ((k, h) ∷ m) url other e =
      by_case (λ missing. lookup-erase m url other missing) (Bool-cases (text_eq k url)) e
    where
      by_case :
          (lookup m url ≡ none → lookup (erase m url) other ≡ lookup m other)
          → (text_eq k url ≡ true) ⊎ (text_eq k url ≡ false)
          → (if text_eq k url then some h else lookup m url) ≡ none
          → lookup (if text_eq k url then erase m url else (k, h) ∷ erase m url) other
            ≡ (if text_eq k other then some h else lookup m other)
      by_case rest (inl t) e' = cc
      by_case rest (inr f) e' =
          let missing : lookup m url ≡ none =
            subst (λ b. (if b then some h else lookup m url) ≡ none) f e' in
          rw (f, rest missing) refl

  -- The routes after a handler was put where there was none.
  pub record IsPut (op : OperationType) (url : List ℕ) (h : H) (rs rs' : Routes H) : Type ℓ where
    pub handled : (params : Dict) → get_handler op url params rs' ≡ (some h, params)
    pub refused : (h' : H) → put_handler op url h' rs' ≡ none
    pub dropped : (drop_handler op url rs').0 ≡ some h
    pub others :
        (op' : OperationType) (url' : List ℕ)
        → get_exact_match op' url' (drop_handler op url rs').1 ≡ get_exact_match op' url' rs

  -- Putting a handler where the url has none succeeds. Then `get_handler` finds it and sets no
  -- parameter, putting another one there throws, and dropping it gives it back and leaves every
  -- exact match as it was.
  pub put_handler-IsPut :
      (op : OperationType) (url : List ℕ) (h : H) (rs : Routes H)
      → get_exact_match op url rs ≡ none
      → (rs' : Routes H) × (put_handler op url h rs ≡ some rs') × IsPut op url h rs rs'
  unfolding put_handler get_exact_match lookup erase drop_handler get_handler
  put_handler-IsPut op url h rs free = (
    after,
    rw (put_handler, missing) refl,
    record {
      handled = λ params. rw (get_handler, found) refl;
      refused = λ h'. rw (put_handler, found) refl;
      dropped = found;
      others = back;
    },
  )
    where
      after : Routes H
      after = record rs { map = at_op op ((url, h) ∷ rs.map op) rs.map }

      missing : lookup (rs.map op) url ≡ none
      missing = free

      found : lookup (at_op op ((url, h) ∷ rs.map op) rs.map op) url ≡ some h
      found = rw (at_op_same op ((url, h) ∷ rs.map op) rs.map, text_eq_refl url) refl

      erased : (url' : List ℕ) → lookup (erase (after.map op) url) url' ≡ lookup (rs.map op) url'
      erased url' =
          rw (at_op_same op ((url, h) ∷ rs.map op) rs.map, text_eq_refl url)
            (lookup-erase (rs.map op) url url' free)

      back :
          (op' : OperationType) (url' : List ℕ)
          → get_exact_match op' url' (drop_handler op url after).1 ≡ get_exact_match op' url' rs
      back op' url' =
          at_op_cases (λ o m. lookup m url' ≡ lookup (rs.map o) url') op (erase (after.map op) url)
            after.map (erased url') (λ o e. rw e refl) op'
