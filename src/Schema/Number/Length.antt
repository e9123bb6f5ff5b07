-- ===== src/Schema/Number/Length.antt =====
-- What a number is packed to has the length of its type.
use openodin.Prelude.{◌≡◌, refl, ap, [], some, length}
use openodin.Prelude.Int.{ℤ}
use openodin.Prelude.Result.{Result, ok, error, >>=-eq-ok}
use openodin.Prelude.Buffer.{Buffer}
use openodin.Schema.Types.{
  FieldType, int8, uint8, int16le, uint16le, int16be, uint16be, uint24le, uint24be, int32le,
  uint32le, int32be, uint32be, uint48le, uint48be, uint64le, uint64be, field_length,
}
use openodin.Schema.Bytes.{write_le, write_be}
use openodin.Schema.Number.{pack_number, check_number, write_number, pack_bigint, check_bigint}

length-write_number :
    (type : FieldType) (v : ℤ)
    → check_number type v ≡ ok tt
    → field_length type ≡ some (length (write_number type v))
unfolding check_number write_number write_le write_be
length-write_number int8 v h = refl
length-write_number int16le v h = refl
length-write_number int16be v h = refl
length-write_number int32le v h = refl
length-write_number int32be v h = refl
length-write_number uint8 v h = refl
length-write_number uint16le v h = refl
length-write_number uint16be v h = refl
length-write_number uint32le v h = refl
length-write_number uint32be v h = refl
length-write_number uint24le v h = refl
length-write_number uint24be v h = refl
length-write_number uint48le v h = refl
length-write_number uint48be v h = refl
length-write_number _ v h = cc

abbrev buffer_of : Result Buffer → Buffer
buffer_of (ok b) = b
buffer_of (error e) = []

pub length-pack_number :
    (type : FieldType) (v : ℤ) {b : Buffer}
    → pack_number type v ≡ ok b
    → field_length type ≡ some (length b)
unfolding pack_number
length-pack_number type v h =
    let (u, checked, e) = >>=-eq-ok (check_number type v) _ h in
    rw (← ap buffer_of e, length-write_number type v checked) refl

pub length-pack_bigint :
    (type : FieldType) (v : ℤ) {b : Buffer}
    → pack_bigint type v ≡ ok b
    → field_length type ≡ some (length b)
unfolding pack_bigint write_le write_be
length-pack_bigint uint64le v h =
    let (u, checked, e) = >>=-eq-ok (check_bigint v) _ h in rw (← ap buffer_of e) refl
length-pack_bigint uint64be v h =
    let (u, checked, e) = >>=-eq-ok (check_bigint v) _ h in rw (← ap buffer_of e) refl
length-pack_bigint _ v h = cc
