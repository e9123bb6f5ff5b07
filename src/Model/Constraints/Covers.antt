-- ===== src/Model/Constraints/Covers.antt =====
-- What the constraints hash depends on, and what it shows.
use openodin.Prelude.{
  ℕ, ◌<◌, ◌≡◌, refl, ap₂, Bool, true, List, [], ◌∷◌, ◌++◌, String, arith, ltb, All, Bool-cases, inl,
  inr, ltb→lt, &&-eq-true, sym, ◌∙◌,
}
use openodin.Prelude.Buffer.{Buffer}
use openodin.Model.Bits.{is_bit_set}
use openodin.Model.Constraints.{
  FlagMapping, Packed, is_flag_locked, flag_update, flag_updates, locked_fields, hash_constraints,
  value_bytes, hash_fields_from, hash_specific_fields,
}
use openodin.Model.Constraints.Locked.{is_flag_locked_iff}

-- The flag that an entry of the mapping names, in the given config numbers.
abbrev pub flag_in : (String → ℕ) → FlagMapping → Bool
flag_in configs m = is_bit_set (configs m.config_type) m.config_index

flag_update-show :
    (bit : ℕ) (f g : Bool) (xs ys : Buffer)
    → flag_update true bit f ++ xs ≡ flag_update true bit g ++ ys
    → (f ≡ g) × (xs ≡ ys)
unfolding flag_update
flag_update-show bit f g xs ys e = elim (Bool-cases (ltb bit 10)) [
  | inl short ↦ (ground arith, ground arith)
  | inr long ↦ (ground arith, ground arith)
]

-- Equal bytes fed to the hash show equal flags, for every flag that is locked by one of the lower 32
-- bits.
pub flag_updates-show :
    (locked_config : ℕ) (c d : String → ℕ) (mapping : List FlagMapping)
    → flag_updates locked_config c mapping ≡ flag_updates locked_config d mapping
    → All
        (λ m. m.bit < 32 → is_bit_set locked_config m.bit ≡ true → flag_in c m ≡ flag_in d m)
        mapping
unfolding flag_updates
flag_updates-show l c d [] e = tt
flag_updates-show l c d (m ∷ mapping) e = elim (Bool-cases (is_flag_locked l m.bit)) [
  | inl locked ↦
      let (same, rest) =
        flag_update-show m.bit (flag_in c m) (flag_in d m) (flag_updates l c mapping)
          (flag_updates l d mapping) (rw locked at e) in
      (λ low set. same, flag_updates-show l c d mapping rest)
  | inr unlocked ↦ (
    λ low set. ground (arith, is_flag_locked_iff l m.bit),
    flag_updates-show l c d mapping (rw (unlocked, flag_update) at e),
  )
]

hash_fields-cong :
    (h : Buffer → Buffer) (l : ℕ) (p q : Packed) (mapping : List (ℕ × ℕ)) (digest : Buffer)
    → All (λ f. is_bit_set l f.0 ≡ true → p f.1 ≡ q f.1) mapping
    → hash_fields_from h p digest (locked_fields l mapping)
      ≡ hash_fields_from h q digest (locked_fields l mapping)
unfolding hash_fields_from locked_fields
hash_fields-cong h l p q [] digest a = refl
hash_fields-cong h l p q ((bit, index) ∷ mapping) digest a = elim (Bool-cases (is_bit_set l bit)) [
  | inl locked ↦ rw locked (hash_step (a.0 locked) (hash_fields-cong h l p q mapping _ a.1))
  | inr unlocked ↦ rw unlocked (hash_fields-cong h l p q mapping digest a.1)
]
  where
    hash_step :
        p index ≡ q index
        → hash_fields_from h p (h (digest ++ value_bytes (p index))) (locked_fields l mapping)
          ≡ hash_fields_from h q (h (digest ++ value_bytes (p index))) (locked_fields l mapping)
        → hash_fields_from h p (h (digest ++ value_bytes (p index))) (locked_fields l mapping)
          ≡ hash_fields_from h q (h (digest ++ value_bytes (q index))) (locked_fields l mapping)
    hash_step e k = rw (← e) k

flag_updates-cong :
    (l : ℕ) (c d : String → ℕ) (mapping : List FlagMapping)
    → All (λ m. m.bit < 32 → is_bit_set l m.bit ≡ true → flag_in c m ≡ flag_in d m) mapping
    → flag_updates l c mapping ≡ flag_updates l d mapping
unfolding flag_updates
flag_updates-cong l c d [] a = refl
flag_updates-cong l c d (m ∷ mapping) a = elim (Bool-cases (is_flag_locked l m.bit)) [
  | inl locked ↦
      let (low, set) = &&-eq-true _ _ (sym (is_flag_locked_iff l m.bit) ∙ locked) in
      ap₂ (λ f t. flag_update (is_flag_locked l m.bit) m.bit f ++ t) (a.0 (ltb→lt _ _ low) set)
        (flag_updates-cong l c d mapping a.1)
  | inr unlocked ↦ rw (unlocked, flag_update) (flag_updates-cong l c d mapping a.1)
]

-- The constraints hash depends on the locked fields and on the flags locked by the lower 32 bits of
-- the locked config, and on nothing else: a flag of a higher bit is never part of it.
pub hash_constraints-cong :
    (blake2b : Buffer → Buffer) (locked_config : ℕ) (p q : Packed) (fields : List (ℕ × ℕ))
    (flags : List FlagMapping) (c d : String → ℕ)
    → All (λ f. is_bit_set locked_config f.0 ≡ true → p f.1 ≡ q f.1) fields
    → All
        (λ m. m.bit < 32 → is_bit_set locked_config m.bit ≡ true → flag_in c m ≡ flag_in d m)
        flags
    → hash_constraints blake2b locked_config p fields flags c
      ≡ hash_constraints blake2b locked_config q fields flags d
unfolding hash_constraints hash_specific_fields
hash_constraints-cong h l p q fields flags c d a b =
    ap₂ (λ x y. h (x ++ y)) (hash_fields-cong h l p q fields _ a) (flag_updates-cong l c d flags b)
