-- ===== src/Prelude/Partial.antt =====
-- Code that can fault: `none` is a failed assertion or an access out of bounds. `Returns` is the
-- total-correctness judgement on its result.
use mathlib.Core.Bool.{Bool, true, false}
use actor_network.Prelude.Tests.{if◌then◌else◌}
use mathlib.Core.Option.{Option, none, some}
use mathlib.Core.Path.{◌≡◌, refl, subst}

infixl 5 ◌>>=◌ ◌>>◌
abbrev pub ◌>>=◌ {ℓ κ} : {A : Type ℓ} {B : Type κ} → Option A → (A → Option B) → Option B
none >>= f = none
some a >>= f = f a

abbrev pub ◌>>◌ {ℓ} : {B : Type ℓ} → Option (Unit {0}) → Option B → Option B
m >> k = m >>= λ _. k

abbrev pub guard : Bool → Option (Unit {0})
guard true = some tt
guard false = none

-- The computation gives a result, and that has the property.
abbrev pub Returns {ℓ} : {A : Type ℓ} → Option A → (A → Type 0) → Type 0
Returns none P = ⊥
Returns (some a) P = P a

pub Returns-bind {ℓ κ} :
    {A : Type ℓ} {B : Type κ} (P : A → Type 0) (Q : B → Type 0) (m : Option A) (f : A → Option B)
    → Returns m P
    → ((a : A) → P a → Returns (f a) Q)
    → Returns (m >>= f) Q
Returns-bind P Q none f h k = elim h [ ]
Returns-bind P Q (some a) f h k = k a h

pub Returns_map {ℓ} :
    {A : Type ℓ} (P Q : A → Type 0) (m : Option A)
    → Returns m P
    → ((a : A) → P a → Q a)
    → Returns m Q
Returns_map P Q none h k = elim h [ ]
Returns_map P Q (some a) h k = k a h

pub Returns-some {ℓ} :
    {A : Type ℓ} (P : A → Type 0) (m : Option A) {a : A} → Returns m P → m ≡ some a → P a
Returns-some P m h e = subst (λ o. Returns o P) e h

pub Returns-guard {ℓ} :
    {B : Type ℓ} (Q : B → Type 0) (b : Bool) (m : Option B)
    → b ≡ true
    → Returns m Q
    → Returns (guard b >> m) Q
Returns-guard Q true m h r = r
Returns-guard Q false m h r = cc

-- If the computation gives a result, that has the property.
abbrev pub Ensures {ℓ} : {A : Type ℓ} → Option A → (A → Type 0) → Type 0
Ensures none P = Unit
Ensures (some a) P = P a

pub Ensures-bind {ℓ κ} :
    {A : Type ℓ} {B : Type κ} (P : A → Type 0) (Q : B → Type 0) (m : Option A) (f : A → Option B)
    → Ensures m P
    → ((a : A) → P a → Ensures (f a) Q)
    → Ensures (m >>= f) Q
Ensures-bind P Q none f h k = tt
Ensures-bind P Q (some a) f h k = k a h

pub Ensures_map {ℓ} :
    {A : Type ℓ} (P Q : A → Type 0) (m : Option A)
    → Ensures m P
    → ((a : A) → P a → Q a)
    → Ensures m Q
Ensures_map P Q none h k = tt
Ensures_map P Q (some a) h k = k a h

pub Ensures-if {ℓ} :
    {A : Type ℓ} (P : A → Type 0) (b : Bool) (m n : Option A)
    → Ensures m P
    → Ensures n P
    → Ensures (if b then m else n) P
Ensures-if P true m n h k = h
Ensures-if P false m n h k = k

-- The same, where the cases may use the test.
pub Ensures-if_cases {ℓ} :
    {A : Type ℓ} (P : A → Type 0) (b : Bool) (m n : Option A)
    → (b ≡ true → Ensures m P)
    → (b ≡ false → Ensures n P)
    → Ensures (if b then m else n) P
Ensures-if_cases P true m n h k = h refl
Ensures-if_cases P false m n h k = k refl

pub Ensures_any {ℓ} : {A : Type ℓ} (m : Option A) → Ensures m (λ a. Unit)
Ensures_any none = tt
Ensures_any (some a) = tt

pub Returns-if {ℓ} :
    {A : Type ℓ} (P : A → Type 0) (b : Bool) (m n : Option A)
    → (b ≡ true → Returns m P)
    → (b ≡ false → Returns n P)
    → Returns (if b then m else n) P
Returns-if P true m n h k = h refl
Returns-if P false m n h k = k refl

-- A computation that gives a result, and ensures something of it.
pub Returns-Ensures {ℓ} :
    {A : Type ℓ} (P Q : A → Type 0) (m : Option A)
    → Returns m P
    → Ensures m Q
    → Returns m (λ a. P a × Q a)
Returns-Ensures P Q none h k = elim h [ ]
Returns-Ensures P Q (some a) h k = (h, k)

pub Ensures-some {ℓ} :
    {A : Type ℓ} (P : A → Type 0) (m : Option A) {a : A} → Ensures m P → m ≡ some a → P a
Ensures-some P m h e = subst (λ o. Ensures o P) e h
