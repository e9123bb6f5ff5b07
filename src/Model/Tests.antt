-- ===== src/Model/Tests.antt =====
-- Flags and constraints at concrete numbers.
use openodin.Prelude.{
  ◌^◌, ◌<◌, arith, ℕ, ◌≡◌, ◌<◌, refl, true, none, some, List, [], ◌∷◌, String, ltb, ◌&&◌, ◌==◌,
  if◌then◌else◌, All,
}
use openodin.Prelude.Buffer.{Buffer}
use openodin.Model.Bits.{is_bit_set, set_bit, test_bit, is_bit_set-set_bit, is_bit_set-eq-test_bit}
use openodin.Model.Constraints.{Packed, FlagMapping, is_flag_locked, hash_constraints, flag_updates}
use openodin.Model.Constraints.Locked.{is_flag_locked_iff}
use openodin.Model.Constraints.Covers.{flag_in, flag_updates-show, hash_constraints-cong}

small_config : 134 < 2 ^ 48
small_config = omega arith

low_bit : 3 < 48
low_bit = omega arith

is_bit_set-set_bit_example :
    (set_bit 134 3 true < 2 ^ 48) × (is_bit_set (set_bit 134 3 true) 2 ≡ is_bit_set 134 2)
is_bit_set-set_bit_example = is_bit_set-set_bit 134 3 2 true small_config low_bit

bit_of_134 : is_bit_set 134 7 ≡ test_bit 134 7
bit_of_134 = is_bit_set-eq-test_bit 134 7

is_flag_locked_iff_example : is_flag_locked 64 6 ≡ (ltb 6 32 && is_bit_set 64 6)
is_flag_locked_iff_example = is_flag_locked_iff 64 6

-- A flag under bit 1 and one under bit 33.
abbrev mapping : List FlagMapping
mapping =
    record { bit = 1; config_type = "config"; config_index = 0 }
    ∷ record { bit = 33; config_type = "config"; config_index = 2 }
    ∷ []

abbrev config_one : String → ℕ
config_one name = 1

abbrev config_five : String → ℕ
config_five name = 5

same_updates : flag_updates 2 config_one mapping ≡ flag_updates 2 config_five mapping
unfolding flag_updates is_bit_set is_flag_locked
same_updates = refl

flag_updates-show_example :
    All
      (λ m. m.bit < 32 → is_bit_set 2 m.bit ≡ true → flag_in config_one m ≡ flag_in config_five m)
      mapping
flag_updates-show_example = flag_updates-show 2 config_one config_five mapping same_updates

abbrev seven : Buffer → Buffer
seven b = 7 ∷ b

abbrev packed_one : Packed
packed_one index = some (index ∷ [])

abbrev packed_two : Packed
packed_two index = if index == 50 then some (50 ∷ []) else none

abbrev fields : List (ℕ × ℕ)
fields = (1, 50) ∷ (0, 7) ∷ []

same_fields : All (λ (f : ℕ × ℕ). is_bit_set 2 f.0 ≡ true → packed_one f.1 ≡ packed_two f.1) fields
unfolding is_bit_set
same_fields = (λ h. refl, (λ h. absurd cc, tt))

same_flags :
    All
      (λ m. m.bit < 32 → is_bit_set 2 m.bit ≡ true → flag_in config_one m ≡ flag_in config_five m)
      mapping
unfolding is_bit_set
same_flags = (λ low h. refl, (λ low h. absurd cc, tt))

hash_constraints-cong_example :
    hash_constraints seven 2 packed_one fields mapping config_one
    ≡ hash_constraints seven 2 packed_two fields mapping config_five
hash_constraints-cong_example =
    hash_constraints-cong seven 2 packed_one packed_two fields mapping config_one config_five
      same_fields same_flags
