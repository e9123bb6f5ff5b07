-- ===== src/Model/Constraints.antt =====
-- HashConstraints of datamodel/BaseModel.ts and HashSpecificFields of datamodel/PackSchema.ts, which
-- bind a certificate to what it signs. `blake2b` is a library function: a parameter, over the
-- concatenation of the updates. A packed model is seen through `FieldIterator(packed).get(index)?.value`.
pub mod Locked
pub mod Covers
use Prim.Native.Nat.{bit_and}
use openodin.Prelude.{
  ℕ, zero, suc, ◌+◌, ◌/◌, ◌%◌, ◌^◌, Bool, true, false, not, Option, none, some, List, [], ◌∷◌, ◌++◌,
  String, ◌==◌, if◌then◌else◌, ltb,
}
use openodin.Prelude.Buffer.{Buffer}
use openodin.Model.Bits.{is_bit_set}

abbrev pub Packed : Type 0
Packed = ℕ → Option Buffer

-- `Buffer.alloc(32).fill(0)`
zeros : ℕ → Buffer
zeros zero = []
zeros (suc n) = 0 ∷ zeros n

abbrev value_bytes : Option Buffer → Buffer
value_bytes none = []
value_bytes (some b) = b

-- The bytes of "flagHashing".
abbrev flag_hashing : Buffer
flag_hashing = 102 ∷ 108 ∷ 97 ∷ 103 ∷ 72 ∷ 97 ∷ 115 ∷ 104 ∷ 105 ∷ 110 ∷ 103 ∷ []

-- The text of a key: the decimal digits of a bit number, of which there are at most two.
abbrev pub key_bytes : ℕ → Buffer
key_bytes bit = if ltb bit 10 then (48 + bit) ∷ [] else (48 + bit / 10) ∷ (48 + bit % 10) ∷ []

-- An entry of ConstraintsFlagsMapping: the key, and the config number with the bit in it.
pub record FlagMapping : Type 0 where
  pub bit : ℕ
  pub config_type : String
  pub config_index : ℕ

-- `(lockedConfig & 2**bit) !== 0`: the operands of `&` are taken to 32 bits.
unfoldable pub is_flag_locked : ℕ → ℕ → Bool
is_flag_locked locked_config bit = not (bit_and (2 ^ bit % 2 ^ 32) (locked_config % 2 ^ 32) == 0)

-- The field indexes of the locked fields, by ascending key.
unfoldable pub locked_fields : ℕ → List (ℕ × ℕ) → List ℕ
locked_fields locked_config [] = []
locked_fields locked_config ((bit, index) ∷ mapping) =
    let rest = locked_fields locked_config mapping in
    if is_bit_set locked_config bit then index ∷ rest else rest

-- The updates for one flag.
flag_update : Bool → ℕ → Bool → Buffer
flag_update false bit flag = []
flag_update true bit flag = flag_hashing ++ (key_bytes bit ++ ((if flag then 1 else 0) ∷ []))

-- What the loop over the flags feeds to the hash; `configs` gives 0 for a missing config.
unfoldable pub flag_updates : ℕ → (String → ℕ) → List FlagMapping → Buffer
unfolding flag_update
flag_updates locked_config configs [] = []
flag_updates locked_config configs (m ∷ mapping) =
    flag_update (is_flag_locked locked_config m.bit) m.bit
      (is_bit_set (configs m.config_type) m.config_index)
    ++ flag_updates locked_config configs mapping

module _ (blake2b : Buffer → Buffer) where
  hash_fields_from : Packed → Buffer → List ℕ → Buffer
  hash_fields_from packed digest [] = digest
  hash_fields_from packed digest (index ∷ fields) =
      hash_fields_from packed (blake2b (digest ++ value_bytes (packed index))) fields

  unfoldable pub hash_specific_fields : Packed → List ℕ → Buffer
  unfolding hash_fields_from zeros
  hash_specific_fields packed fields = hash_fields_from packed (zeros 32) fields

  unfoldable pub hash_constraints :
      ℕ → Packed → List (ℕ × ℕ) → List FlagMapping → (String → ℕ) → Buffer
  hash_constraints locked_config packed fields_mapping flags_mapping configs = blake2b (
      hash_specific_fields packed (locked_fields locked_config fields_mapping)
      ++ flag_updates locked_config configs flags_mapping)
