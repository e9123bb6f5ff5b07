-- ===== src/Schema/Number/Roundtrip.antt =====
-- What is packed as an integer is read back.
use openodin.Prelude.{
  ◌/◌, ◌↔◌, sym, [], ◌∷◌, ℕ, ◌+◌, ◌*◌, ◌%◌, ◌^◌, ◌≤◌, ◌<◌, ◌≡◌, refl, ap, ◌∙◌, Bool, true, false,
  ◌++◌, String, arith, length, take,
}
use openodin.Prelude.Int.{ℤ, pos, negsuc, ◌≤ℤ◌}
use openodin.Prelude.Buffer.{Buffer}
use openodin.Prelude.Result.{Result, ok, error, assert, ◌>>◌}
use openodin.Schema.Bytes.{
  write_le, write_be, read_le, read_be, to_word, from_word, length-write_le, length-write_be,
  read-write_le, read-write_be,
}
use openodin.Schema.Types.{
  FieldType, int8, uint8, int16le, uint16le, int16be, uint16be, uint24le, uint24be, int32le,
  uint32le, int32be, uint32be, uint48le, uint48be, uint64le, uint64be,
}
use openodin.Schema.Number.{
  pack_number, unpack_number, check_number, in_range, write_number, assert_length, lsb32, msb,
  pack_bigint, unpack_bigint, check_bigint,
}

assert_ok :
    {A : Type 0} (c : Bool) (message : String) (a b : A)
    → (assert c message >> ok a) ≡ ok b
    → (c ≡ true) × (a ≡ b)
assert_ok true m a b h = (refl, ground arith)
assert_ok false m a b h = cc

-- The integers that `w` bytes hold in two's complement.
abbrev IsSigned : ℕ → ℤ → Type 0
IsSigned w (pos n) = 2 * n < 256 ^ w
IsSigned w (negsuc n) = 2 * (n + 1) ≤ 256 ^ w

to_word-lt : (w : ℕ) (v : ℤ) → IsSigned w v → to_word w v < 256 ^ w
unfolding to_word
to_word-lt w (pos n) h = omega arith
to_word-lt w (negsuc n) h = omega arith

from-to_word : (w : ℕ) (v : ℤ) → IsSigned w v → from_word w (to_word w v) ≡ v
unfolding from_word to_word
from-to_word w (pos n) h = ground arith
from-to_word w (negsuc n) h = ground arith

module _ (w : ℕ) where
  assert_length_ok :
      {A : Type 0} (b : Buffer) (a : A) → length b ≡ w → (assert_length w b >> ok a) ≡ ok a
  unfolding assert_length
  assert_length_ok b a e = rw e (ground arith)

  unsigned_le :
      (n : ℕ)
      → n < 256 ^ w
      → (assert_length w (write_le w n) >> ok (pos (read_le (write_le w n)))) ≡ ok (pos n)
  unsigned_le n h =
      assert_length_ok (write_le w n) _ (length-write_le w n)
      ∙ ap (λ m. ok (pos m)) (read-write_le w n h)

  unsigned_be :
      (n : ℕ)
      → n < 256 ^ w
      → (assert_length w (write_be w n) >> ok (pos (read_be (write_be w n)))) ≡ ok (pos n)
  unsigned_be n h =
      assert_length_ok (write_be w n) _ (length-write_be w n)
      ∙ ap (λ m. ok (pos m)) (read-write_be w n h)

  signed_le :
      (v : ℤ)
      → IsSigned w v
      → (assert_length w (write_le w (to_word w v))
          >> ok (from_word w (read_le (write_le w (to_word w v)))))
        ≡ ok v
  signed_le v h =
      assert_length_ok (write_le w (to_word w v)) _ (length-write_le w (to_word w v))
      ∙ ap (λ m. ok (from_word w m)) (read-write_le w (to_word w v) (to_word-lt w v h))
      ∙ ap ok (from-to_word w v h)

  signed_be :
      (v : ℤ)
      → IsSigned w v
      → (assert_length w (write_be w (to_word w v))
          >> ok (from_word w (read_be (write_be w (to_word w v)))))
        ≡ ok v
  signed_be v h =
      assert_length_ok (write_be w (to_word w v)) _ (length-write_be w (to_word w v))
      ∙ ap (λ m. ok (from_word w m)) (read-write_be w (to_word w v) (to_word-lt w v h))
      ∙ ap ok (from-to_word w v h)

-- A value that the assertions on its type let through, and for UINT24LE one of 24 bits.
abbrev pub Is24Bit : FieldType → ℤ → Type 0
Is24Bit uint24le v = v ≤ℤ pos 0xffffff
Is24Bit _ v = Unit

uint24le_read :
    (n : ℕ) → n < 2 ^ 24 → unpack_number uint24le (write_number uint24le (pos n)) ≡ ok (pos n)
unfolding unpack_number write_number assert_length to_word write_le write_be read_le read_be lsb32
    msb
uint24le_read n h = ap (λ m. ok (pos m)) (omega arith)

uint24be_read :
    (n : ℕ) → n < 2 ^ 24 → unpack_number uint24be (write_number uint24be (pos n)) ≡ ok (pos n)
unfolding unpack_number write_number assert_length to_word write_le write_be read_le read_be lsb32
    msb
uint24be_read n h = ap (λ m. ok (pos m)) (omega arith)

uint48le_read :
    (n : ℕ) → n < 2 ^ 48 → unpack_number uint48le (write_number uint48le (pos n)) ≡ ok (pos n)
unfolding unpack_number write_number assert_length to_word write_le write_be read_le read_be lsb32
    msb
uint48le_read n h = ap (λ m. ok (pos m)) (omega arith)

uint48be_read :
    (n : ℕ) → n < 2 ^ 48 → unpack_number uint48be (write_number uint48be (pos n)) ≡ ok (pos n)
unfolding unpack_number write_number assert_length to_word write_le write_be read_le read_be lsb32
    msb
uint48be_read n h = ap (λ m. ok (pos m)) (omega arith)

read_written :
    (type : FieldType) (v : ℤ)
    → check_number type v ≡ ok tt
    → Is24Bit type v
    → unpack_number type (write_number type v) ≡ ok v
unfolding check_number unpack_number write_number to_word
read_written int8 (pos n) h k = signed_le 1 (pos n) (ground arith)
read_written int8 (negsuc n) h k = signed_le 1 (negsuc n) (ground arith)
read_written int16le (pos n) h k = signed_le 2 (pos n) (ground arith)
read_written int16le (negsuc n) h k = signed_le 2 (negsuc n) (ground arith)
read_written int16be (pos n) h k = signed_be 2 (pos n) (ground arith)
read_written int16be (negsuc n) h k = signed_be 2 (negsuc n) (ground arith)
read_written int32le (pos n) h k = signed_le 4 (pos n) (ground arith)
read_written int32le (negsuc n) h k = signed_le 4 (negsuc n) (ground arith)
read_written int32be (pos n) h k = signed_be 4 (pos n) (ground arith)
read_written int32be (negsuc n) h k = signed_be 4 (negsuc n) (ground arith)
read_written uint8 (pos n) h k = unsigned_le 1 n (ground arith)
read_written uint8 (negsuc n) h k = absurd (ground arith)
read_written uint16le (pos n) h k = unsigned_le 2 n (ground arith)
read_written uint16le (negsuc n) h k = absurd (ground arith)
read_written uint16be (pos n) h k = unsigned_be 2 n (ground arith)
read_written uint16be (negsuc n) h k = absurd (ground arith)
read_written uint32le (pos n) h k = unsigned_le 4 n (ground arith)
read_written uint32le (negsuc n) h k = absurd (ground arith)
read_written uint32be (pos n) h k = unsigned_be 4 n (ground arith)
read_written uint32be (negsuc n) h k = absurd (ground arith)
read_written uint24le (pos n) h k = uint24le_read n (ground arith)
read_written uint24le (negsuc n) h k = absurd (ground arith)
read_written uint24be (pos n) h k = uint24be_read n (ground arith)
read_written uint24be (negsuc n) h k = absurd (ground arith)
read_written uint48le (pos n) h k = uint48le_read n (ground arith)
read_written uint48le (negsuc n) h k = absurd (ground arith)
read_written uint48be (pos n) h k = uint48be_read n (ground arith)
read_written uint48be (negsuc n) h k = absurd (ground arith)
read_written _ v h k = cc

uint64-lt : (n : ℕ) → check_bigint (pos n) ≡ ok tt → n < 2 ^ 64
unfolding check_bigint
uint64-lt n h = ground arith

uint64-nonneg : (n : ℕ) → check_bigint (negsuc n) ≡ ok tt → ⊥
unfolding check_bigint
uint64-nonneg n h = ground arith

uint64le_read :
    (n : ℕ)
    → n < 2 ^ 64
    → unpack_bigint uint64le (write_le 4 (lsb32 n) ++ write_le 4 (msb n)) ≡ ok (pos n)
unfolding unpack_bigint assert_length write_le read_le lsb32 msb
uint64le_read n h = ap (λ m. ok (pos m)) (omega arith)

uint64be_read :
    (n : ℕ)
    → n < 2 ^ 64
    → unpack_bigint uint64be (write_be 4 (msb n) ++ write_be 4 (lsb32 n)) ≡ ok (pos n)
unfolding unpack_bigint assert_length write_be write_le read_be read_le lsb32 msb
uint64be_read n h = ap (λ m. ok (pos m)) (omega arith)

then_ok :
    {A : Type 0} (m : Result (Unit {0})) (a : A) {b : A}
    → (m >> ok a) ≡ ok b
    → (m ≡ ok tt) × (a ≡ b)
then_ok (ok tt) a h = (refl, ground arith)
then_ok (error e) a h = cc

-- A number that PackValue accepts is what UnpackValue reads from its bytes. A UINT24LE is required to
-- be below 2^24, which the assertion on it does not check.
pub unpack-pack_number :
    (type : FieldType) (v : ℤ) {b : Buffer}
    → pack_number type v ≡ ok b
    → Is24Bit type v
    → unpack_number type b ≡ ok v
unfolding pack_number
unpack-pack_number type v h k =
    let (checked, written) = then_ok (check_number type v) (write_number type v) h in
    rw (← written) (read_written type v checked k)

-- A UINT24LE of 25 to 32 bits is accepted, and other than what is then read.
pub pack_number-uint24le_wraps :
    (n : ℕ)
    → 0xffffff < n
    → n ≤ 0xffffffff
    → (b : Buffer) × (pack_number uint24le (pos n) ≡ ok b)
      × (unpack_number uint24le b ≡ ok (pos (n % 0x1000000)))
unfolding pack_number check_number write_number unpack_number assert_length to_word write_le read_le
pack_number-uint24le_wraps n low high =
    (take 3 (write_le 4 n), ground arith, ap (λ m. ok (pos m)) (omega arith))

-- Big integers are read back too.
pub unpack-pack_bigint :
    (type : FieldType) (v : ℤ) {b : Buffer}
    → pack_bigint type v ≡ ok b
    → unpack_bigint type b ≡ ok v
unfolding pack_bigint
unpack-pack_bigint uint64le (pos n) h =
    let (checked, written) = then_ok (check_bigint (pos n)) _ h in
    rw (← written) (uint64le_read n (uint64-lt n checked))
unpack-pack_bigint uint64be (pos n) h =
    let (checked, written) = then_ok (check_bigint (pos n)) _ h in
    rw (← written) (uint64be_read n (uint64-lt n checked))
unpack-pack_bigint uint64le (negsuc n) h =
    absurd (uint64-nonneg n (then_ok (check_bigint (negsuc n)) _ h).0)
unpack-pack_bigint uint64be (negsuc n) h =
    absurd (uint64-nonneg n (then_ok (check_bigint (negsuc n)) _ h).0)
unpack-pack_bigint _ v h = cc

-- A word of four bytes and one of two are a number of six bytes.
write_be-concat :
    (low high : ℕ)
    → low < 2 ^ 32
    → high < 2 ^ 16
    → (write_be 4 low ++ write_be 2 high) ≡ write_be 6 (low * 2 ^ 16 + high)
unfolding write_be write_le
write_be-concat low high h k =
    six (omega arith) (omega arith) (omega arith) (omega arith) (omega arith) (omega arith)
  where
    six :
        {a b c d e f a' b' c' d' e' f' : ℕ}
        → a ≡ a'
        → b ≡ b'
        → c ≡ c'
        → d ≡ d'
        → e ≡ e'
        → f ≡ f'
        → (a ∷ b ∷ c ∷ d ∷ e ∷ f ∷ []) ≡ (a' ∷ b' ∷ c' ∷ d' ∷ e' ∷ f' ∷ [])
    six p q r s t u = cc

-- The bytes of a UINT48BE are the lower 32 bits and then the upper 16, as a number of six bytes in
-- big-endian order; these are the bytes of the packed number itself only when its three words of 16
-- bits are equal.
pub uint48be-swaps :
    (n : ℕ) {b : Buffer}
    → pack_number uint48be (pos n) ≡ ok b
    → (read_be b ≡ n % 2 ^ 32 * 2 ^ 16 + n / 2 ^ 32)
      × ((b ≡ write_be 6 n) ↔ (n % 0x000100010001 ≡ 0))
unfolding pack_number check_number write_number lsb32 msb
uint48be-swaps n {b} h =
    let (checked, written) =
      assert_ok (in_range (pos 0) (pos 0xffffffffffff) (pos n)) "48 bit uint out of bounds"
        (write_be 4 (n % 2 ^ 32) ++ write_be 2 (n / 2 ^ 32)) b h in
    let small : n < 2 ^ 48 = ground arith in
    let bytes : b ≡ write_be 6 (n % 2 ^ 32 * 2 ^ 16 + n / 2 ^ 32) =
      sym written ∙ write_be-concat (n % 2 ^ 32) (n / 2 ^ 32) (omega arith) (omega arith) in
    let swapped : read_be b ≡ n % 2 ^ 32 * 2 ^ 16 + n / 2 ^ 32 =
      ap read_be bytes ∙ read-write_be 6 (n % 2 ^ 32 * 2 ^ 16 + n / 2 ^ 32) (omega arith) in
    (
      swapped,
      (
        λ e.
            let same = ap read_be e ∙ read-write_be 6 n (omega arith) in
            omega (arith, same, swapped),
        λ e. bytes ∙ ap (write_be 6) (omega arith),
      ),
    )
