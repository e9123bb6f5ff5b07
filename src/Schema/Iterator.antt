-- ===== src/Schema/Iterator.antt =====
-- FieldIterator of datamodel/PackSchema.ts. Instead of its `pointer` the state has the bytes from
-- there on; `lastIndex` is `none` for -1.
pub mod Next
pub mod Again
pub mod Progress
use openodin.Prelude.{
  ℕ, zero, suc, ◌+◌, Bool, true, false, not, Option, none, some, List, [], ◌∷◌, ◌++◌, String, leb,
  ltb, ◌==◌, if◌then◌else◌, length, take, drop,
}
use openodin.Prelude.Buffer.{Buffer}
use openodin.Prelude.Result.{Result, ok, error, assert, ◌>>=◌, ◌>>◌}
use openodin.Schema.Bytes.{read_be}
use openodin.Schema.Types.{
  FieldType, int8, uint8, int16le, uint16le, int16be, uint16be, uint24le, uint24be, int32le,
  uint32le, int32be, uint32be, uint48le, uint48be, uint64le, uint64be, string, bytes, byte1, byte2,
  byte3, byte4, byte5, byte6, byte7, byte8, byte16, byte32, byte64, schema, code_of, field_length,
}

abbrev pub all_types : List FieldType
all_types =
    int8 ∷ uint8 ∷ int16le ∷ uint16le ∷ int16be ∷ uint16be ∷ uint24le ∷ uint24be ∷ int32le
    ∷ uint32le ∷ int32be ∷ uint32be ∷ uint48le ∷ uint48be ∷ uint64le ∷ uint64be ∷ string ∷ bytes
    ∷ byte1 ∷ byte2 ∷ byte3 ∷ byte4 ∷ byte5 ∷ byte6 ∷ byte7 ∷ byte8 ∷ byte16 ∷ byte32 ∷ byte64
    ∷ schema ∷ []

find_type : ℕ → List FieldType → Option FieldType
find_type code [] = none
find_type code (t ∷ types) =
    let later = find_type code types in if code_of t == code then some t else later

-- The type that a byte stands for; FIELD_LENGTH has no entry for other bytes.
pub from_code : ℕ → Option FieldType
from_code code = find_type code all_types

pub record UnpackedField : Type 0 where
  pub index : ℕ
  pub type : FieldType
  pub value : Buffer
  pub packed_field : Buffer

pub record Iterator : Type 0 where
  pub packed : Buffer
  pub rest : Buffer
  pub last_index : Option ℕ

unfoldable pub field_iterator : Buffer → Iterator
field_iterator packed = record { packed = packed; rest = packed; last_index = none }

unfoldable pub has_next : Iterator → Bool
has_next it = ltb 0 (length it.rest)

-- `index <= lastIndex`
abbrev pub not_after : ℕ → Option ℕ → Bool
not_after index none = false
not_after index (some last) = leb index last

-- `reset` sets the pointer back, and nothing else.
unfoldable pub reset : Iterator → Iterator
reset it = record it { rest = it.packed }

-- The end of `next`: `head` are the bytes of the field before its value.
take_value : Iterator → ℕ → FieldType → ℕ → Buffer → Buffer → Result (UnpackedField × Iterator)
take_value it index type n head after =
    if ltb (length after) n
    then error "Error in packed"
    else ok (
      record {
        index = index;
        type = type;
        value = take n after;
        packed_field = head ++ take n after;
      },
      record it { rest = drop n after; last_index = some index },
    )

-- `length = packed.readUInt16BE(pointer)` throws where two bytes are not there.
take_dynamic : Iterator → ℕ → FieldType → Buffer → Result (UnpackedField × Iterator)
take_dynamic it index type (a ∷ b ∷ after) =
    take_value it index type (read_be (a ∷ b ∷ [])) (index ∷ code_of type ∷ a ∷ b ∷ []) after
take_dynamic it index type _ = error "ERR_OUT_OF_RANGE"

take_typed : Iterator → ℕ → FieldType → Option ℕ → Buffer → Result (UnpackedField × Iterator)
take_typed it index type none after = take_dynamic it index type after
take_typed it index type (some n) after =
    take_value it index type n (index ∷ code_of type ∷ []) after

take_field : Iterator → ℕ → Option FieldType → Buffer → Result (UnpackedField × Iterator)
take_field it index none after = error "Unknown type in packed"
take_field it index (some type) after = take_typed it index type (field_length type) after

next_in : Iterator → Buffer → Result (UnpackedField × Iterator)
next_in it (index ∷ code ∷ c ∷ rest) =
    if not_after index it.last_index
    then error "Error in packed, index must always increase"
    else take_field it index (from_code code) (c ∷ rest)
next_in it _ = error "Error in packed, out of bytes"

unfoldable pub next : Iterator → Result (UnpackedField × Iterator)
unfolding next_in take_field take_typed take_dynamic take_value from_code find_type
next it = next_in it it.rest

-- A round of `get`: the field that `next` gave, if it is the one, or what the other rounds find.
found_or :
    ℕ
    → Result (UnpackedField × Iterator)
    → (Iterator → Result (Option UnpackedField))
    → Result (Option UnpackedField)
found_or search_index (error e) others = error e
found_or search_index (ok (field, it)) others =
    let rest = others it in if field.index == search_index then ok (some field) else rest

-- `get`: a new iterator runs up to the field. Each round takes a byte at least.
get_from : ℕ → Iterator → ℕ → Result (Option UnpackedField)
get_from zero it search_index = ok none
get_from (suc fuel) it search_index =
    let later = found_or search_index (next it) (λ it. get_from fuel it search_index) in
    if has_next it then later else ok none

unfoldable pub get : Buffer → ℕ → Result (Option UnpackedField)
unfolding get_from found_or
get packed search_index = get_from (length packed + 1) (field_iterator packed) search_index
