-- ===== src/Schema/Field/Framing.antt =====
-- The bytes around the content of a packed field.
use openodin.Prelude.{
  ℕ, ◌≤◌, ◌≡◌, sym, ap, String, arith, leb, ◌==◌, ==→eq, length, or_zero, Option, some, none, [],
}
use openodin.Prelude.Buffer.{Buffer}
use openodin.Prelude.Result.{Result, ok, error, >>=-eq-ok, ◌>>=◌}
use openodin.Schema.Bytes.{write_be}
use openodin.Schema.Types.{
  FieldType, int8, uint64le, uint64be, string, bytes, byte1, byte2, byte3, byte4, byte5, byte6,
  byte7, byte8, byte16, byte32, byte64, schema, field_length, Value, number, bigint, text, buffer,
}
use openodin.Schema.Number.{pack_number, pack_bigint}
use openodin.Schema.Number.Length.{length-pack_number, length-pack_bigint}
use openodin.Schema.Field.{
  TextCodec, FieldData, pack_fixed, pack_big, pack_int, pack_bytes, pack_sub_schema, pack_text,
  pack_typed, with_length, check_max_size,
}
use openodin.Schema.Field.Roundtrip.{assert_ok, content_of, with_length_ok, max_size_again}

-- The content has the length of its type, or its length stands before it in two bytes.
abbrev pub IsFramed : Option ℕ → FieldData → Type 0
IsFramed (some n) d = (d.length_bytes ≡ []) × (length d.content ≡ n)
IsFramed none d = (d.length_bytes ≡ write_be 2 (length d.content)) × (length d.content ≤ 65535)

abbrev length_bytes_of : Result FieldData → Buffer
length_bytes_of (ok d) = d.length_bytes
length_bytes_of (error e) = []

dynamic : (b : Buffer) (m : String) {d : FieldData} → with_length b m ≡ ok d → IsFramed none d
unfolding with_length
dynamic b m h =
    let (short, e) = with_length_ok b m h in
    let (fits, built) = assert_ok (leb (length b) 65535) m h in
    (rw (← e) (sym (ap length_bytes_of built)), rw (← e) short)

static_length :
    {b : Buffer} {d : FieldData} (type : Option ℕ)
    → type ≡ some (length b)
    → ok (record { length_bytes = []; content = b }) ≡ ok d
    → IsFramed type d
static_length (some n) h e = (sym (ap length_bytes_of e), rw (← ap content_of e) cc)
static_length none h e = cc

max_size_then :
    (max_size : Option ℕ) (b : Buffer) (m m' : String) {d : FieldData}
    → (check_max_size max_size b m >>= λ _. with_length b m') ≡ ok d
    → IsFramed none d
max_size_then max_size b m m' h = dynamic b m' (max_size_again max_size b m m h).1

int-IsFramed :
    (type : FieldType) (v : Value) {d : FieldData}
    → pack_int type v ≡ ok d
    → IsFramed (field_length type) d
unfolding pack_int
int-IsFramed type (number n) h =
    let (b, packed, e) = >>=-eq-ok (pack_number type n) _ h in
    static_length (field_length type) (length-pack_number type n packed) e
int-IsFramed type (bigint n) h = cc
int-IsFramed type (text n) h = cc
int-IsFramed type (buffer n) h = cc

big-IsFramed :
    (type : FieldType) (v : Value) {d : FieldData}
    → pack_big type v ≡ ok d
    → IsFramed (field_length type) d
unfolding pack_big
big-IsFramed type (bigint n) h =
    let (b, packed, e) = >>=-eq-ok (pack_bigint type n) _ h in
    static_length (field_length type) (length-pack_bigint type n packed) e
big-IsFramed type (number n) h = cc
big-IsFramed type (text n) h = cc
big-IsFramed type (buffer n) h = cc

fixed-IsFramed : (n : ℕ) (v : Value) {d : FieldData} → pack_fixed n v ≡ ok d → IsFramed (some n) d
unfolding pack_fixed
fixed-IsFramed n (buffer b) h =
    let (same, e) = assert_ok (length b == n) _ h in
    static_length (some n) (ap some (sym (==→eq (length b) n same))) e
fixed-IsFramed n (number v) h = cc
fixed-IsFramed n (bigint v) h = cc
fixed-IsFramed n (text v) h = cc

bytes-IsFramed :
    (max_size : Option ℕ) (v : Value) {d : FieldData}
    → pack_bytes max_size v ≡ ok d
    → IsFramed none d
unfolding pack_bytes
bytes-IsFramed max_size (buffer b) h = max_size_then max_size b _ _ h
bytes-IsFramed max_size (number v) h = cc
bytes-IsFramed max_size (bigint v) h = cc
bytes-IsFramed max_size (text v) h = cc

schema-IsFramed : (v : Value) {d : FieldData} → pack_sub_schema v ≡ ok d → IsFramed none d
unfolding pack_sub_schema
schema-IsFramed (buffer b) h = dynamic b _ h
schema-IsFramed (number v) h = cc
schema-IsFramed (bigint v) h = cc
schema-IsFramed (text v) h = cc

module _ (utf8 : TextCodec) where
  text-IsFramed :
      (max_size : Option ℕ) (v : Value) {d : FieldData}
      → pack_text utf8 max_size v ≡ ok d
      → IsFramed none d
  unfolding pack_text
  text-IsFramed max_size (text s) h = max_size_then max_size (utf8.encode s) _ _ h
  text-IsFramed max_size (number v) h = cc
  text-IsFramed max_size (bigint v) h = cc
  text-IsFramed max_size (buffer v) h = cc

  pub pack_typed-IsFramed :
      (type : FieldType) (max_size : Option ℕ) (v : Value) {d : FieldData}
      → pack_typed utf8 type max_size v ≡ ok d
      → IsFramed (field_length type) d
  unfolding pack_typed
  pack_typed-IsFramed uint64le m v h = big-IsFramed uint64le v h
  pack_typed-IsFramed uint64be m v h = big-IsFramed uint64be v h
  pack_typed-IsFramed string m v h = text-IsFramed m v h
  pack_typed-IsFramed bytes m v h = bytes-IsFramed m v h
  pack_typed-IsFramed byte1 m v h = fixed-IsFramed 1 v h
  pack_typed-IsFramed byte2 m v h = fixed-IsFramed 2 v h
  pack_typed-IsFramed byte3 m v h = fixed-IsFramed 3 v h
  pack_typed-IsFramed byte4 m v h = fixed-IsFramed 4 v h
  pack_typed-IsFramed byte5 m v h = fixed-IsFramed 5 v h
  pack_typed-IsFramed byte6 m v h = fixed-IsFramed 6 v h
  pack_typed-IsFramed byte7 m v h = fixed-IsFramed 7 v h
  pack_typed-IsFramed byte8 m v h = fixed-IsFramed 8 v h
  pack_typed-IsFramed byte16 m v h = fixed-IsFramed 16 v h
  pack_typed-IsFramed byte32 m v h = fixed-IsFramed 32 v h
  pack_typed-IsFramed byte64 m v h = fixed-IsFramed 64 v h
  pack_typed-IsFramed schema m v h = schema-IsFramed v h
  pack_typed-IsFramed type m v h = int-IsFramed type v h

-- The content always fits the two bytes of a length.
pub IsFramed-short :
    (type : FieldType) (d : FieldData) → IsFramed (field_length type) d → length d.content ≤ 65535
IsFramed-short type d h = short (field_length type) h (widths type)
  where
    short : (n : Option ℕ) → IsFramed n d → or_zero n ≤ 64 → length d.content ≤ 65535
    short (some n) (e, f) le = omega arith
    short none (e, f) le = f

    widths : (type : FieldType) → or_zero (field_length type) ≤ 64
    widths int8 = omega arith
    widths type = omega arith
