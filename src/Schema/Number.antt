-- ===== src/Schema/Number.antt =====
-- The integer branches of PackValue and UnpackValue in datamodel/PackSchema.ts: the assertion on the
-- value, the bytes that are written, and how they are read. Where the code splits the binary digits
-- of a number into two words, the words are its quotient and remainder.
pub mod Roundtrip
pub mod Length
use openodin.Prelude.{
  ℕ, ◌+◌, ◌*◌, ◌/◌, ◌%◌, ◌^◌, Bool, true, false, ◌&&◌, ◌||◌, ◌++◌, String, ◌==◌, length, take, drop,
}
use openodin.Prelude.Int.{ℤ, pos, negsuc, pos_part, leb_ℤ}
use openodin.Prelude.Buffer.{Buffer}
use openodin.Prelude.Result.{Result, ok, error, assert, ◌>>=◌, ◌>>◌}
use openodin.Schema.Bytes.{write_le, write_be, read_le, read_be, to_word, from_word}
use openodin.Schema.Types.{
  FieldType, int8, uint8, int16le, uint16le, int16be, uint16be, uint24le, uint24be, int32le,
  uint32le, int32be, uint32be, uint48le, uint48be, uint64le, uint64be,
}

abbrev pub in_range : ℤ → ℤ → ℤ → Bool
in_range low high value = leb_ℤ low value && leb_ℤ value high

-- The assertions on a number, per type. For UINT24LE the code joins the two tests by `||`, and
-- `writeUInt32LE` then throws outside of 32 bits. Other types take no number.
check_number : FieldType → ℤ → Result (Unit {0})
check_number int8 v = assert (in_range (negsuc 127) (pos 127) v) "8 bit integer out of bounds"
check_number uint8 v = assert (in_range (pos 0) (pos 0xff) v) "8 bit uint out of bounds"
check_number int16le v =
    assert (in_range (negsuc 32767) (pos 32767) v) "16 bit integer out of bounds"
check_number uint16le v = assert (in_range (pos 0) (pos 0xffff) v) "16 bit uint out of bounds"
check_number int16be v =
    assert (in_range (negsuc 32767) (pos 32767) v) "16 bit integer out of bounds"
check_number uint16be v = assert (in_range (pos 0) (pos 0xffff) v) "16 bit uint out of bounds"
check_number uint24le v = do
  assert (leb_ℤ (pos 0) v || leb_ℤ v (pos 0xffffff)) "24 bit uint out of bounds"
  assert (in_range (pos 0) (pos 0xffffffff) v) "ERR_OUT_OF_RANGE"
check_number uint24be v = assert (in_range (pos 0) (pos 0xffffff) v) "24 bit uint out of bounds"
check_number int32le v =
    assert (in_range (negsuc 2147483647) (pos 2147483647) v) "32 bit integer out of bounds"
check_number uint32le v = assert (in_range (pos 0) (pos 0xffffffff) v) "32 bit uint out of bounds"
check_number int32be v =
    assert (in_range (negsuc 2147483647) (pos 2147483647) v) "32 bit integer out of bounds"
check_number uint32be v = assert (in_range (pos 0) (pos 0xffffffff) v) "32 bit uint out of bounds"
check_number uint48le v =
    assert (in_range (pos 0) (pos 0xffffffffffff) v) "48 bit uint out of bounds"
check_number uint48be v =
    assert (in_range (pos 0) (pos 0xffffffffffff) v) "48 bit uint out of bounds"
check_number type v = error "not a type of numbers"

lsb32 : ℕ → ℕ
lsb32 n = n % 2 ^ 32

msb : ℕ → ℕ
msb n = n / 2 ^ 32

write_number : FieldType → ℤ → Buffer
write_number int8 v = write_le 1 (to_word 1 v)
write_number uint8 v = write_le 1 (to_word 1 v)
write_number int16le v = write_le 2 (to_word 2 v)
write_number uint16le v = write_le 2 (to_word 2 v)
write_number int16be v = write_be 2 (to_word 2 v)
write_number uint16be v = write_be 2 (to_word 2 v)
write_number uint24le v = take 3 (write_le 4 (to_word 4 v))
write_number uint24be v = drop 1 (write_be 4 (to_word 4 v))
write_number int32le v = write_le 4 (to_word 4 v)
write_number uint32le v = write_le 4 (to_word 4 v)
write_number int32be v = write_be 4 (to_word 4 v)
write_number uint32be v = write_be 4 (to_word 4 v)
write_number uint48le v = write_le 4 (lsb32 (pos_part v)) ++ write_le 2 (msb (pos_part v))
write_number uint48be v = write_be 4 (lsb32 (pos_part v)) ++ write_be 2 (msb (pos_part v))
write_number type v = write_le 0 0

unfoldable pub pack_number : FieldType → ℤ → Result Buffer
unfolding check_number write_number lsb32 msb
pack_number type v = check_number type v >> ok (write_number type v)

assert_length : ℕ → Buffer → Result (Unit {0})
assert_length n value = assert (length value == n) "Assertion error"

unfoldable pub unpack_number : FieldType → Buffer → Result ℤ
unfolding assert_length
unpack_number int8 b = assert_length 1 b >> ok (from_word 1 (read_le b))
unpack_number uint8 b = assert_length 1 b >> ok (pos (read_le b))
unpack_number int16le b = assert_length 2 b >> ok (from_word 2 (read_le b))
unpack_number uint16le b = assert_length 2 b >> ok (pos (read_le b))
unpack_number int16be b = assert_length 2 b >> ok (from_word 2 (read_be b))
unpack_number uint16be b = assert_length 2 b >> ok (pos (read_be b))
unpack_number uint24le b = assert_length 3 b >> ok (pos (read_le (take 3 b ++ write_le 1 0)))
unpack_number uint24be b = assert_length 3 b >> ok (pos (read_be (write_le 1 0 ++ take 3 b)))
unpack_number int32le b = assert_length 4 b >> ok (from_word 4 (read_le b))
unpack_number uint32le b = assert_length 4 b >> ok (pos (read_le b))
unpack_number int32be b = assert_length 4 b >> ok (from_word 4 (read_be b))
unpack_number uint32be b = assert_length 4 b >> ok (pos (read_be b))
unpack_number uint48le b =
    assert_length 6 b >> ok (pos (read_le (drop 4 b) * 2 ^ 32 + read_le (take 4 b)))
unpack_number uint48be b =
    assert_length 6 b >> ok (pos (read_be (drop 4 b) * 2 ^ 32 + read_be (take 4 b)))
unpack_number type b = error "not a type of numbers"

-- The two types of big integers.
check_bigint : ℤ → Result (Unit {0})
check_bigint v = assert (in_range (pos 0) (pos 0xffffffffffffffff) v) "64 bit uint out of bounds"

unfoldable pub pack_bigint : FieldType → ℤ → Result Buffer
unfolding check_bigint lsb32 msb
pack_bigint uint64le v =
    check_bigint v >> ok (write_le 4 (lsb32 (pos_part v)) ++ write_le 4 (msb (pos_part v)))
pack_bigint uint64be v =
    check_bigint v >> ok (write_be 4 (msb (pos_part v)) ++ write_be 4 (lsb32 (pos_part v)))
pack_bigint type v = error "not a type of big integers"

unfoldable pub unpack_bigint : FieldType → Buffer → Result ℤ
unfolding assert_length
unpack_bigint uint64le b =
    assert_length 8 b >> ok (pos (read_le (drop 4 b) * 2 ^ 32 + read_le (take 4 b)))
unpack_bigint uint64be b =
    assert_length 8 b >> ok (pos (read_be (take 4 b) * 2 ^ 32 + read_be (drop 4 b)))
unpack_bigint type b = error "not a type of big integers"
