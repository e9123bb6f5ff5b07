-- ===== src/Schema/Field/Roundtrip.antt =====
-- A field that PackValue packs is read back by UnpackValue.
use openodin.Prelude.{
  ℕ, ◌≤◌, ◌≡◌, refl, ap, Bool, true, false, String, leb, ◌==◌, leb→le, length, Option, some, none,
  [],
}
use openodin.Prelude.Buffer.{Buffer}
use openodin.Prelude.Result.{Result, ok, error, assert, >>=-eq-ok, ◌>>=◌}
use openodin.Schema.Types.{
  FieldType, uint64le, uint64be, string, bytes, byte1, byte2, byte3, byte4, byte5, byte6, byte7,
  byte8, byte16, byte32, byte64, schema, Value, number, bigint, text, buffer,
}
use openodin.Schema.Number.{pack_number, unpack_number, pack_bigint, unpack_bigint}
use openodin.Schema.Number.Roundtrip.{Is24Bit, unpack-pack_number, unpack-pack_bigint}
use openodin.Schema.Field.{
  TextCodec, FieldData, check_max_size, with_length, pack_fixed, pack_big, pack_int, pack_bytes,
  pack_sub_schema, pack_text, pack_typed, unpack_text, unpack_typed, unpack_fixed, unpack_bytes,
}

-- A UINT24LE is below 2^24.
abbrev pub IsNarrow : FieldType → Value → Type 0
IsNarrow type (number v) = Is24Bit type v
IsNarrow type _ = Unit

abbrev pub content_of : Result FieldData → Buffer
content_of (ok d) = d.content
content_of (error e) = []

pub assert_ok :
    {A : Type 0} (c : Bool) (message : String) {k : Result A} {b : A}
    → (assert c message >>= λ _. k) ≡ ok b
    → (c ≡ true) × (k ≡ ok b)
assert_ok true message h = (refl, h)
assert_ok false message h = cc

pub max_size_again :
    {A : Type 0} (max_size : Option ℕ) (b : Buffer) (m m' : String) {k : Result A} {r : A}
    → (check_max_size max_size b m >>= λ _. k) ≡ ok r
    → (check_max_size max_size b m' ≡ ok tt) × (k ≡ ok r)
unfolding check_max_size
max_size_again none b m m' h = (refl, h)
max_size_again (some most) b m m' h =
    let (fits, rest) = assert_ok (leb (length b) most) m h in (ap (λ c. assert c m') fits, rest)

pub with_length_ok :
    (b : Buffer) (m : String) {d : FieldData}
    → with_length b m ≡ ok d
    → (length b ≤ 65535) × (b ≡ d.content)
unfolding with_length
with_length_ok b m h =
    let (fits, rest) = assert_ok (leb (length b) 65535) m h in
    (leb→le (length b) 65535 fits, ap content_of rest)

int :
    (type : FieldType) (v : Value) {d : FieldData}
    → pack_int type v ≡ ok d
    → IsNarrow type v
    → (unpack_number type d.content >>= λ n. ok (number n)) ≡ ok v
unfolding pack_int
int type (number n) h k =
    let (b, packed, e) = >>=-eq-ok (pack_number type n) _ h in
    rw (← ap content_of e, unpack-pack_number type n packed k) refl
int type (bigint n) h k = cc
int type (text n) h k = cc
int type (buffer n) h k = cc

big :
    (type : FieldType) (v : Value) {d : FieldData}
    → pack_big type v ≡ ok d
    → (unpack_bigint type d.content >>= λ n. ok (bigint n)) ≡ ok v
unfolding pack_big
big type (bigint n) h =
    let (b, packed, e) = >>=-eq-ok (pack_bigint type n) _ h in
    rw (← ap content_of e, unpack-pack_bigint type n packed) refl
big type (number n) h = cc
big type (text n) h = cc
big type (buffer n) h = cc

fixed :
    (n : ℕ) (v : Value) {d : FieldData} → pack_fixed n v ≡ ok d → unpack_fixed n d.content ≡ ok v
unfolding pack_fixed unpack_fixed
fixed n (buffer b) h =
    let (same, e) = assert_ok (length b == n) _ h in rw (← ap content_of e, same) refl
fixed n (number v) h = cc
fixed n (bigint v) h = cc
fixed n (text v) h = cc

bytes_back :
    (max_size : Option ℕ) (v : Value) {d : FieldData}
    → pack_bytes max_size v ≡ ok d
    → unpack_bytes max_size d.content ≡ ok v
unfolding pack_bytes unpack_bytes
bytes_back max_size (buffer b) h =
    let (fits, packed) = max_size_again max_size b _ "Buffer length exceeds max length" h in
    let (short, e) = with_length_ok b _ packed in rw (← e, fits) refl
bytes_back n (number v) h = cc
bytes_back n (bigint v) h = cc
bytes_back n (text v) h = cc

sub_schema : (v : Value) {d : FieldData} → pack_sub_schema v ≡ ok d → ok (buffer d.content) ≡ ok v
unfolding pack_sub_schema
sub_schema (buffer b) h = let (short, e) = with_length_ok b _ h in rw (← e) refl
sub_schema (number v) h = cc
sub_schema (bigint v) h = cc
sub_schema (text v) h = cc

module _ (utf8 : TextCodec) (decode-encode : (s : String) → utf8.decode (utf8.encode s) ≡ s) where
  text_back :
      (max_size : Option ℕ) (v : Value) {d : FieldData}
      → pack_text utf8 max_size v ≡ ok d
      → unpack_text utf8 max_size d.content ≡ ok v
  unfolding pack_text unpack_text
  text_back max_size (text s) h =
      let (fits, packed) =
        max_size_again max_size (utf8.encode s) _ "Buffer length exceeds max length" h in
      let (short, e) = with_length_ok (utf8.encode s) _ packed in
      rw (← e, fits, decode-encode s) refl
  text_back n (number v) h = cc
  text_back n (bigint v) h = cc
  text_back n (buffer v) h = cc

  pub typed :
      (type : FieldType) (max_size : Option ℕ) (v : Value) {d : FieldData}
      → pack_typed utf8 type max_size v ≡ ok d
      → IsNarrow type v
      → unpack_typed utf8 type max_size d.content ≡ ok v
  unfolding pack_typed unpack_typed
  typed uint64le m v h k = big uint64le v h
  typed uint64be m v h k = big uint64be v h
  typed string m v h k = text_back m v h
  typed bytes m v h k = bytes_back m v h
  typed byte1 m v h k = fixed 1 v h
  typed byte2 m v h k = fixed 2 v h
  typed byte3 m v h k = fixed 3 v h
  typed byte4 m v h k = fixed 4 v h
  typed byte5 m v h k = fixed 5 v h
  typed byte6 m v h k = fixed 6 v h
  typed byte7 m v h k = fixed 7 v h
  typed byte8 m v h k = fixed 8 v h
  typed byte16 m v h k = fixed 16 v h
  typed byte32 m v h k = fixed 32 v h
  typed byte64 m v h k = fixed 64 v h
  typed schema m v h k = sub_schema v h
  typed type m v h k = int type v h k
