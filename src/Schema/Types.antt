-- ===== src/Schema/Types.antt =====
-- The types of datamodel/PackSchema.ts.
use openodin.Prelude.{ℕ, Bool, Option, none, some, String}
use openodin.Prelude.Int.{ℤ}
use openodin.Prelude.Buffer.{Buffer}

pub data FieldType : Type 0 where
  int8 uint8 int16le uint16le int16be uint16be uint24le uint24be : FieldType
  int32le uint32le int32be uint32be uint48le uint48be uint64le uint64be : FieldType
  string bytes : FieldType
  byte1 byte2 byte3 byte4 byte5 byte6 byte7 byte8 byte16 byte32 byte64 : FieldType
  schema : FieldType

-- The number of a type in the enumeration, which is its byte in packed data.
abbrev pub code_of : FieldType → ℕ
code_of int8 = 1
code_of uint8 = 2
code_of int16le = 3
code_of uint16le = 4
code_of int16be = 5
code_of uint16be = 6
code_of uint24le = 7
code_of uint24be = 8
code_of int32le = 9
code_of uint32le = 10
code_of int32be = 11
code_of uint32be = 12
code_of uint48le = 13
code_of uint48be = 14
code_of uint64le = 15
code_of uint64be = 16
code_of string = 20
code_of bytes = 21
code_of byte1 = 22
code_of byte2 = 23
code_of byte3 = 24
code_of byte4 = 25
code_of byte5 = 26
code_of byte6 = 27
code_of byte7 = 28
code_of byte8 = 29
code_of byte16 = 30
code_of byte32 = 31
code_of byte64 = 32
code_of schema = 33

-- FIELD_LENGTH, with `none` for -1, a dynamic length.
abbrev pub field_length : FieldType → Option ℕ
field_length int8 = some 1
field_length uint8 = some 1
field_length int16le = some 2
field_length uint16le = some 2
field_length int16be = some 2
field_length uint16be = some 2
field_length uint24le = some 3
field_length uint24be = some 3
field_length int32le = some 4
field_length uint32le = some 4
field_length int32be = some 4
field_length uint32be = some 4
field_length uint48le = some 6
field_length uint48be = some 6
field_length uint64le = some 8
field_length uint64be = some 8
field_length string = none
field_length bytes = none
field_length byte1 = some 1
field_length byte2 = some 2
field_length byte3 = some 3
field_length byte4 = some 4
field_length byte5 = some 5
field_length byte6 = some 6
field_length byte7 = some 7
field_length byte8 = some 8
field_length byte16 = some 16
field_length byte32 = some 32
field_length byte64 = some 64
field_length schema = none

-- A field of a schema. Its key is given with it; a nested schema is not (sub schemas are packed by
-- their own call, and are buffers here).
pub record PackedSchemaField : Type 0 where
  pub index : ℕ
  pub type : FieldType
  pub required : Bool
  pub max_size : Option ℕ
  pub static : Option Buffer
  pub static_prefix : Bool

-- The JavaScript values that fields take. Numbers are integers.
pub data Value : Type 0 where
  number : ℤ → Value
  bigint : ℤ → Value
  text : String → Value
  buffer : Buffer → Value
