-- ===== src/Schema/Field.antt =====
-- PackValue and UnpackValue of datamodel/PackSchema.ts on one field. The UTF-8 encoding of texts is
-- Node's, a parameter. A sub schema is packed by its own call and stands here as the buffer that it
-- gave; UnpackValue is modelled without `deepUnpack`.
pub mod Roundtrip
pub mod Framing
pub mod Whole
use openodin.Prelude.{
  ℕ, Bool, true, false, not, Option, none, some, List, [], ◌∷◌, ◌++◌, String, leb, ◌==◌, length,
  take,
}
use openodin.Prelude.Int.{ℤ}
use openodin.Prelude.Buffer.{Buffer, equals}
use openodin.Prelude.Result.{Result, ok, error, assert, ◌>>=◌, ◌>>◌}
use openodin.Schema.Bytes.{write_be}
use openodin.Schema.Types.{
  FieldType, uint64le, uint64be, string, bytes, byte1, byte2, byte3, byte4, byte5, byte6, byte7,
  byte8, byte16, byte32, byte64, schema, code_of, PackedSchemaField, Value, number, bigint, text,
  buffer,
}
use openodin.Schema.Number.{pack_number, unpack_number, pack_bigint, unpack_bigint}

-- `Buffer.from(text, "utf8")` and `toString("utf8")`.
pub record TextCodec : Type 0 where
  pub encode : String → Buffer
  pub decode : Buffer → String

-- The length bytes and the content of a field.
pub record FieldData : Type 0 where
  pub length_bytes : Buffer
  pub content : Buffer

-- `if (schema.maxSize !== undefined) assert(data2.length <= schema.maxSize)`
pub check_max_size : Option ℕ → Buffer → String → Result (Unit {0})
check_max_size none content message = ok tt
check_max_size (some most) content message = assert (leb (length content) most) message

-- Content of a dynamic length, with its length before it.
pub with_length : Buffer → String → Result FieldData
with_length content message = do
  assert (leb (length content) 65535) message
  ok (record { length_bytes = write_be 2 (length content); content = content })

pack_fixed : ℕ → Value → Result FieldData
pack_fixed n (buffer b) = do
  assert (length b == n) "buffer expected to be of the type's length"
  ok (record { length_bytes = []; content = b })
pack_fixed n v = error "Buffer expected"

pack_big : FieldType → Value → Result FieldData
pack_big type (bigint v) = do b ← pack_bigint type v; ok (record { length_bytes = []; content = b })
pack_big type v = error "expecting data type bigint"

pack_int : FieldType → Value → Result FieldData
pack_int type (number v) = do b ← pack_number type v; ok (record { length_bytes = []; content = b })
pack_int type v = error "expecting data type number"

pack_bytes : Option ℕ → Value → Result FieldData
pack_bytes max_size (buffer b) = do
  check_max_size max_size b "buffer too long"
  with_length b "buffer too long, max 65535 bytes"
pack_bytes max_size v = error "Buffer expected"

pack_sub_schema : Value → Result FieldData
pack_sub_schema (buffer b) = with_length b "buffer too long, max 65535 bytes"
pack_sub_schema v = error "could not pack with given schema(s)"

-- UnpackValue per type.
unpack_fixed : ℕ → Buffer → Result Value
unpack_fixed n value = assert (length value == n) "Assertion error" >> ok (buffer value)

unfoldable pub unpack_bytes : Option ℕ → Buffer → Result Value
unfolding check_max_size
unpack_bytes max_size value =
    check_max_size max_size value "Buffer length exceeds max length" >> ok (buffer value)

-- The check of a static value when it is read.
check_static : Option Buffer → Bool → Buffer → Result (Unit {0})
check_static none prefix value = ok tt
check_static (some static) true value =
    assert (equals (take (length static) value) static)
      "static value must be prefix to packed value"
check_static (some static) false value =
    assert (equals value static) "static value must exactly match packed value"

-- The value to pack when the field has a static one.
pub static_value : Option Buffer → Bool → Option Value → Result (Option Value)
static_value none prefix value = ok value
static_value (some static) true value = error "Cannot use schema with staticPrefix to pack"
static_value (some static) false none = ok (some (buffer static))
static_value (some static) false (some (buffer b)) = do
  assert (equals static b)
      "Static schema field must either be undefined or be set exactly to the given static value"
  ok (some (buffer b))
static_value (some static) false (some v) =
    error "Expected value of field with static config to be buffer"

module _ (utf8 : TextCodec) where
  pack_text : Option ℕ → Value → Result FieldData
  pack_text max_size (text s) = do
    check_max_size max_size (utf8.encode s) "string too long"
    with_length (utf8.encode s) "string too long, max 65535 bytes as utf8 encoded"
  pack_text max_size v = error "string expected"

  pub pack_typed : FieldType → Option ℕ → Value → Result FieldData
  pack_typed uint64le max_size v = pack_big uint64le v
  pack_typed uint64be max_size v = pack_big uint64be v
  pack_typed string max_size v = pack_text max_size v
  pack_typed bytes max_size v = pack_bytes max_size v
  pack_typed byte1 max_size v = pack_fixed 1 v
  pack_typed byte2 max_size v = pack_fixed 2 v
  pack_typed byte3 max_size v = pack_fixed 3 v
  pack_typed byte4 max_size v = pack_fixed 4 v
  pack_typed byte5 max_size v = pack_fixed 5 v
  pack_typed byte6 max_size v = pack_fixed 6 v
  pack_typed byte7 max_size v = pack_fixed 7 v
  pack_typed byte8 max_size v = pack_fixed 8 v
  pack_typed byte16 max_size v = pack_fixed 16 v
  pack_typed byte32 max_size v = pack_fixed 32 v
  pack_typed byte64 max_size v = pack_fixed 64 v
  pack_typed schema max_size v = pack_sub_schema v
  pack_typed type max_size v = pack_int type v

  -- The packed field: index, type, length bytes, content.
  pack_present : PackedSchemaField → Value → Result Buffer
  pack_present f v = do
    data2 ← pack_typed f.type f.max_size v
    assert (leb f.index 255) "ERR_OUT_OF_RANGE"
    ok (f.index ∷ code_of f.type ∷ (data2.length_bytes ++ data2.content))

  pack_optional : PackedSchemaField → Option Value → Result (Option Buffer)
  pack_optional f none = assert (not f.required) "Field is required" >> ok none
  pack_optional f (some v) = do packed ← pack_present f v; ok (some packed)

  unfoldable pub pack_value : PackedSchemaField → Option Value → Result (Option Buffer)
  unfolding static_value pack_optional pack_present pack_typed pack_text pack_bytes pack_fixed
      pack_big pack_int pack_sub_schema with_length check_max_size
  pack_value f value = do
    chosen ← static_value f.static f.static_prefix value
    pack_optional f chosen

  unpack_text : Option ℕ → Buffer → Result Value
  unpack_text max_size value =
      check_max_size max_size value "Buffer length exceeds max length"
      >> ok (text (utf8.decode value))

  pub unpack_typed : FieldType → Option ℕ → Buffer → Result Value
  unpack_typed uint64le max_size b = do v ← unpack_bigint uint64le b; ok (bigint v)
  unpack_typed uint64be max_size b = do v ← unpack_bigint uint64be b; ok (bigint v)
  unpack_typed string max_size b = unpack_text max_size b
  unpack_typed bytes max_size b = unpack_bytes max_size b
  unpack_typed byte1 max_size b = unpack_fixed 1 b
  unpack_typed byte2 max_size b = unpack_fixed 2 b
  unpack_typed byte3 max_size b = unpack_fixed 3 b
  unpack_typed byte4 max_size b = unpack_fixed 4 b
  unpack_typed byte5 max_size b = unpack_fixed 5 b
  unpack_typed byte6 max_size b = unpack_fixed 6 b
  unpack_typed byte7 max_size b = unpack_fixed 7 b
  unpack_typed byte8 max_size b = unpack_fixed 8 b
  unpack_typed byte16 max_size b = unpack_fixed 16 b
  unpack_typed byte32 max_size b = unpack_fixed 32 b
  unpack_typed byte64 max_size b = unpack_fixed 64 b
  unpack_typed schema max_size b = ok (buffer b)
  unpack_typed type max_size b = do v ← unpack_number type b; ok (number v)

  unfoldable pub unpack_value : Buffer → PackedSchemaField → Result Value
  unfolding check_static unpack_typed unpack_text unpack_fixed check_max_size
  unpack_value value f = do
    assert (leb (length value) 65535) "buffer to unpack too long, max 65535 bytes"
    check_static f.static f.static_prefix value
    unpack_typed f.type f.max_size value
