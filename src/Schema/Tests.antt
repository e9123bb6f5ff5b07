-- ===== src/Schema/Tests.antt =====
-- Fields and schemas at concrete values.
mod Codec
use text.Mathlib.Text.{◌==◌ as str_eq}
use openodin.Schema.Tests.Codec.{codec, decode-encode_text}
use openodin.Prelude.{
  ◌↔◌, length, ℕ, ◌≡◌, ◌≢◌, ◌<◌, ◌≤◌, ◌%◌, refl, true, false, Option, none, some, List, [], ◌∷◌,
  ◌++◌, String, arith, All, take, if◌then◌else◌,
}
use openodin.Prelude.Int.{ℤ, pos}
use openodin.Prelude.Buffer.{Buffer, equals}
use openodin.Prelude.Result.{ok, error}
use openodin.Schema.Bytes.{read_be, write_be, write_le, to_word}
use openodin.Schema.Types.{
  PackedSchemaField, Value, number, buffer, uint8, uint16be, uint24le, uint48be, uint64le, bytes,
  byte2,
}
use openodin.Schema.Number.{pack_number, unpack_number, pack_bigint, unpack_bigint}
use openodin.Schema.Number.Roundtrip.{
  unpack-pack_number, unpack-pack_bigint, pack_number-uint24le_wraps, uint48be-swaps,
}
use openodin.Schema.Field.{TextCodec, pack_value, unpack_value}
use openodin.Schema.Field.Roundtrip.{IsNarrow}
use openodin.Schema.Field.Whole.{IsPacked, unpack-pack_value}
use openodin.Schema.Iterator.{reset, Iterator, UnpackedField, field_iterator, next}
use openodin.Schema.Iterator.Next.{next-IsPacked}
use openodin.Schema.Iterator.Again.{first, next-reset}
use openodin.Schema.Pack.{unpack_from, Fields, pack_schema, unpack_schema, sort, indexes}
use openodin.Schema.Pack.Fuel.{unpack_schema_enough}
use openodin.Schema.Iterator.{field_iterator}
use openodin.Schema.Pack.Roundtrip.{IsNarrowEntry, entries, unpack-pack_schema}

small : pack_number uint16be (pos 513) ≡ ok (2 ∷ 1 ∷ [])
unfolding pack_number write_be write_le to_word
small = refl

big : pack_bigint uint64le (pos 5) ≡ ok (5 ∷ 0 ∷ 0 ∷ 0 ∷ 0 ∷ 0 ∷ 0 ∷ 0 ∷ [])
unfolding pack_bigint write_le
big = refl

abbrev wide : ℕ
wide = 16777217

wide_low : 0xffffff < wide
wide_low = omega arith

wide_high : wide ≤ 0xffffffff
wide_high = omega arith

pack_number-uint24le_wraps_example :
    (b : Buffer) × (pack_number uint24le (pos wide) ≡ ok b)
    × (unpack_number uint24le b ≡ ok (pos (wide % 0x1000000)))
pack_number-uint24le_wraps_example = pack_number-uint24le_wraps wide wide_low wide_high

abbrev one : ℕ
one = 1

one_packed : pack_number uint48be (pos 1) ≡ ok (0 ∷ 0 ∷ 0 ∷ 1 ∷ 0 ∷ 0 ∷ [])
unfolding pack_number write_be write_le
one_packed = refl

uint48be-swaps_example :
    (read_be (0 ∷ 0 ∷ 0 ∷ 1 ∷ 0 ∷ 0 ∷ []) ≡ 65536)
    × (((0 ∷ 0 ∷ 0 ∷ 1 ∷ 0 ∷ 0 ∷ []) ≡ write_be 6 1) ↔ (one ≡ 0))
uint48be-swaps_example = uint48be-swaps 1 one_packed

abbrev type_field : PackedSchemaField
type_field = record {
  index = 4;
  type = byte2;
  required = true;
  max_size = none;
  static = some (4 ∷ 1 ∷ []);
  static_prefix = false;
}

abbrev size_field : PackedSchemaField
size_field = record {
  index = 2;
  type = uint8;
  required = false;
  max_size = none;
  static = none;
  static_prefix = false;
}

abbrev fields : Fields
fields = ("modelType", type_field) ∷ ("size", size_field) ∷ []

abbrev props : String → Option Value
props key = if str_eq key "size" then some (number (pos 9)) else none

type_packed :
    pack_value codec type_field (some (buffer (4 ∷ 1 ∷ []))) ≡ ok (some (4 ∷ 23 ∷ 4 ∷ 1 ∷ []))
unfolding pack_value equals
type_packed = refl

unpack-pack_value_example : IsPacked codec type_field (buffer (4 ∷ 1 ∷ [])) (4 ∷ 23 ∷ 4 ∷ 1 ∷ [])
unpack-pack_value_example =
    unpack-pack_value codec decode-encode_text type_field (buffer (4 ∷ 1 ∷ [])) type_packed tt

abbrev it : Iterator
it = record {
  packed = 4 ∷ 23 ∷ 4 ∷ 1 ∷ 7 ∷ [];
  rest = 4 ∷ 23 ∷ 4 ∷ 1 ∷ 7 ∷ [];
  last_index = some 2;
}

is_packed : IsPacked codec type_field (buffer (4 ∷ 1 ∷ [])) (4 ∷ 23 ∷ 4 ∷ 1 ∷ [])
is_packed =
    unpack-pack_value codec decode-encode_text type_field (buffer (4 ∷ 1 ∷ [])) type_packed tt

next-IsPacked_example :
    (content : Buffer) × (next it
      ≡ ok (
        record { index = 4; type = byte2; value = content; packed_field = 4 ∷ 23 ∷ 4 ∷ 1 ∷ [] },
        record it { rest = 7 ∷ []; last_index = some 4 },
      ))
    × (unpack_value codec content type_field ≡ ok (buffer (4 ∷ 1 ∷ [])))
next-IsPacked_example = next-IsPacked codec it type_field (buffer (4 ∷ 1 ∷ [])) is_packed refl refl

schema_packed : pack_schema codec fields 127 props ≡ ok (2 ∷ 2 ∷ 9 ∷ 4 ∷ 23 ∷ 4 ∷ 1 ∷ [])
unfolding pack_schema pack_value equals pack_number write_le to_word
schema_packed = refl

any_byte2 : (w : Value) → IsNarrow byte2 w
any_byte2 (number v) = tt
any_byte2 w = tt

any_uint8 : (w : Value) → IsNarrow uint8 w
any_uint8 (number v) = tt
any_uint8 w = tt

narrow : All (IsNarrowEntry codec fields 127 props) fields
narrow = (λ w h. any_byte2 w, (λ w h. any_uint8 w, tt))

unpack-pack_schema_example :
    unpack_schema codec fields 127 (2 ∷ 2 ∷ 9 ∷ 4 ∷ 23 ∷ 4 ∷ 1 ∷ [])
    ≡ ok (entries codec fields 127 props (sort (indexes fields)))
unpack-pack_schema_example =
    unpack-pack_schema codec fields 127 props decode-encode_text narrow schema_packed

abbrev odd : Buffer
odd = 2 ∷ 2 ∷ 9 ∷ 4 ∷ []

odd_bytes : length odd < 40
odd_bytes = omega arith

unpack_schema_enough_example :
    unpack_from codec fields 127 40 (field_iterator odd) ≡ unpack_schema codec fields 127 odd
unpack_schema_enough_example = unpack_schema_enough codec fields 127 odd 40 odd_bytes

abbrev flag_bytes : Buffer
flag_bytes = 2 ∷ 2 ∷ 9 ∷ []

abbrev read_once : Iterator
read_once = record { packed = flag_bytes; rest = []; last_index = some 2 }

abbrev flag : UnpackedField
flag = record { index = 2; type = uint8; value = 9 ∷ []; packed_field = flag_bytes }

reads_flag : next (field_iterator flag_bytes) ≡ ok (flag, read_once)
unfolding next field_iterator
reads_flag = refl

next-reset_example : next (reset read_once) ≡ error "Error in packed, index must always increase"
next-reset_example = next-reset (first reads_flag)
