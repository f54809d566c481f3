-- ===== src/Tcp/Header/Bits.antt =====
-- The bit fields of the header bytes, checked at every value.
use actor_network.Prelude.{
  ==_iff, Bool, arith, bit_and, false, if◌then◌else◌, inl, inr, not, refl, subst, suc, sym, true,
  zero, ℕ, ◌&&◌, ◌+◌, ◌/◌, ◌<◌, ◌==◌, ◌^◌, ◌≡◌, ◌≤◌, ◌⊎◌,
}
use actor_network.Tcp.Header.{flag, flags_byte, offset_byte}

-- Whether the test holds of the `k` numbers from `a` on.
try_from : (ℕ → Bool) → ℕ → ℕ → Bool
try_from test a zero = true
try_from test a (suc k) = if test a then try_from test (suc a) k else false

try_from_lem :
    (test : ℕ → Bool) (a k v : ℕ) → try_from test a k ≡ true → a ≤ v → v < a + k → test v ≡ true
unfolding try_from
try_from_lem test a zero v h lo hi = absurd (omega arith)
try_from_lem test a (suc k) v h lo hi = elim (same_or_above a v lo) [
  | inl e ↦ subst (λ i. test i ≡ true) e (if_both (test a) _ h).0
  | inr gt ↦ try_from_lem test (suc a) k v (if_both (test a) _ h).1 gt (omega arith)
]
  where
    same_or_above : (i j : ℕ) → i ≤ j → (i ≡ j) ⊎ (suc i ≤ j)
    same_or_above i j le = omega arith

    if_both : (b c : Bool) → (if b then c else false) ≡ true → (b ≡ true) × (c ≡ true)
    if_both true c h = (refl, h)
    if_both false c h = cc

all_bool : (Bool → Bool) → Bool
all_bool p = p true && p false

all_bool_sound : (p : Bool → Bool) (b : Bool) → all_bool p ≡ true → p b ≡ true
unfolding all_bool
all_bool_sound p true h = ground arith
all_bool_sound p false h = ground arith

bool_eq : Bool → Bool → Bool
bool_eq true b = b
bool_eq false b = not b

bool_eq_sound : (a b : Bool) → bool_eq a b ≡ true → a ≡ b
unfolding bool_eq
bool_eq_sound true b h = sym h
bool_eq_sound false true h = cc
bool_eq_sound false false h = refl

and_left : (a b : Bool) → (a && b) ≡ true → a ≡ true
and_left true b h = refl
and_left false b h = cc

and_right : (a b : Bool) → (a && b) ≡ true → b ≡ true
and_right true b h = h
and_right false b h = cc

offset_fields : ℕ → ℕ → Bool
unfolding offset_byte
offset_fields r d = bit_and (offset_byte r d) 15 == r && offset_byte r d / 2 ^ 4 == d

offset_table : try_from (λ d. try_from (λ r. offset_fields r d) 0 16) 0 16 ≡ true
unfolding try_from offset_fields
offset_table = refl

offset_fields_sound :
    (r d : ℕ)
    → offset_fields r d ≡ true
    → (bit_and (offset_byte r d) 15 ≡ r) × (offset_byte r d / 2 ^ 4 ≡ d)
unfolding offset_fields
offset_fields_sound r d e = ((==_iff _ r).0 (and_left _ _ e), (==_iff _ d).0 (and_right _ _ e))

pub offset_byte_lem :
    (r d : ℕ) → r < 16 → d < 16 → (bit_and (offset_byte r d) 15 ≡ r) × (offset_byte r d / 2 ^ 4 ≡ d)
offset_byte_lem r d hr hd = offset_fields_sound r d at_values
  where
    at_values : offset_fields r d ≡ true
    at_values =
        try_from_lem (λ r. offset_fields r d) 0 16 r
          (try_from_lem (λ i. try_from (λ r. offset_fields r i) 0 16) 0 16 d offset_table
            (omega arith) hd)
          (omega arith) hr

-- The seven fields of the second byte, read back from it.
flags_fields : Bool → Bool → Bool → Bool → Bool → Bool → ℕ → Bool
unfolding flags_byte
flags_fields fin syn rst psh ack urg d =
    let b = flags_byte fin syn rst psh ack urg d in
    bool_eq (flag b 0) fin
    && (bool_eq (flag b 1) syn
        && (bool_eq (flag b 2) rst
            && (bool_eq (flag b 3) psh
                && (bool_eq (flag b 4) ack
                    && (bool_eq (flag b 5) urg && bit_and (b / 2 ^ 6) 3 == d)))))

flags_table :
    try_from
      (λ d. all_bool λ fin. all_bool λ syn. all_bool λ rst.
        all_bool λ psh. all_bool λ ack. all_bool λ urg. flags_fields fin syn rst psh ack urg d)
      0
      4
    ≡ true
unfolding try_from all_bool flags_fields bool_eq
flags_table = refl

pub record Reads (b : ℕ) (fin syn rst psh ack urg : Bool) (d : ℕ) : Type 0 where
  pub reads_fin : flag b 0 ≡ fin
  pub reads_syn : flag b 1 ≡ syn
  pub reads_rst : flag b 2 ≡ rst
  pub reads_psh : flag b 3 ≡ psh
  pub reads_ack : flag b 4 ≡ ack
  pub reads_urg : flag b 5 ≡ urg
  pub reads_rsvd2 : bit_and (b / 2 ^ 6) 3 ≡ d

flags_fields-Reads :
    (fin syn rst psh ack urg : Bool) (d : ℕ)
    → flags_fields fin syn rst psh ack urg d ≡ true
    → Reads (flags_byte fin syn rst psh ack urg d) fin syn rst psh ack urg d
unfolding flags_fields
flags_fields-Reads fin syn rst psh ack urg d e0 =
    let e1 = and_right _ _ e0 in
    let e2 = and_right _ _ e1 in
    let e3 = and_right _ _ e2 in
    let e4 = and_right _ _ e3 in
    let e5 = and_right _ _ e4 in
    record {
      reads_fin = bool_eq_sound _ _ (and_left _ _ e0);
      reads_syn = bool_eq_sound _ _ (and_left _ _ e1);
      reads_rst = bool_eq_sound _ _ (and_left _ _ e2);
      reads_psh = bool_eq_sound _ _ (and_left _ _ e3);
      reads_ack = bool_eq_sound _ _ (and_left _ _ e4);
      reads_urg = bool_eq_sound _ _ (and_left _ _ e5);
      reads_rsvd2 = (==_iff _ d).0 (and_right _ _ e5);
    }

pub flags_byte-Reads :
    (fin syn rst psh ack urg : Bool) (d : ℕ)
    → d < 4
    → Reads (flags_byte fin syn rst psh ack urg d) fin syn rst psh ack urg d
flags_byte-Reads fin syn rst psh ack urg d h = flags_fields-Reads fin syn rst psh ack urg d (
    all_bool_sound _ urg (
      all_bool_sound _ ack (
        all_bool_sound _ psh (
          all_bool_sound _ rst (
            all_bool_sound _ syn
              (all_bool_sound _ fin (try_from_lem _ 0 4 d flags_table (omega arith) h)))))))
