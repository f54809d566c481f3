-- ===== src/Http/Params.antt =====
-- The path parameters are a dictionary.
use actor_network.Prelude.{
  Bool, Bool-cases, List, Option, ap, drop, false, if◌then◌else◌, inl, inr, none, refl, some, true,
  ℕ, ◌>>=◌, ◌∷◌, ◌≡◌, ◌≢◌, ◌⊎◌,
}
use actor_network.Http.Common.{
  Dict, clear_params, param, param_exists, param_value, set_param, text_eq, text_eq_refl,
  text_eq_sound,
}

abbrev is_some : Option (List ℕ) → Bool
is_some v = elim v [ none ↦ false | some w ↦ true ]

-- After `set` a key has the new value and every other key what it had; `operator[]` drops the first
-- character of it, `exists` tells whether there is one, and after `clear` there is none.
pub param-set_param :
    (m : Dict) (key other value : List ℕ) (slash : ℕ)
    → (param (set_param m key (slash ∷ value)) key ≡ some (slash ∷ value))
      × (param_value (set_param m key (slash ∷ value)) key ≡ some value)
      × (param_exists (set_param m key (slash ∷ value)) key ≡ true)
      × (key ≢ other → param (set_param m key (slash ∷ value)) other ≡ param m other)
      × (param_exists (clear_params m) other ≡ false)
unfolding param param_value param_exists clear_params set_param
param-set_param m key other value slash = (
  same,
  ap (λ v. v >>= λ text. some (drop 1 text)) same,
  ap is_some same,
  λ ne. unequal (Bool-cases (text_eq key other)) ne,
  refl,
)
  where
    same : param (set_param m key (slash ∷ value)) key ≡ some (slash ∷ value)
    same = rw (text_eq_refl key) refl

    unequal :
        (text_eq key other ≡ true) ⊎ (text_eq key other ≡ false)
        → key ≢ other
        → (if text_eq key other then some (slash ∷ value) else param m other) ≡ param m other
    unequal (inl e) ne = absurd (ne (text_eq_sound key other e))
    unequal (inr e) ne = rw e refl
