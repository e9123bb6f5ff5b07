-- ===== src/Model/Bits.antt =====
-- IS_BIT_SET and SET_BIT of datamodel/BaseModel.ts, which work on the binary digits of a number.
-- They support integers of up to 48 bits; `parseInt` is exact below 2 ^ 53, and the numbers here are
-- exact everywhere. Lists of digits are in the order that the code has after `reverse()`, the lowest digit first.
use native.Mathlib.Nat.{pow-le-pow_right}
use openodin.Prelude.{
  length, ◌<◌, ◌^◌, ℕ, zero, suc, ◌+◌, ◌*◌, ◌/◌, ◌%◌, ◌≤◌, ◌≡◌, refl, sym, ap, ◌∙◌, Bool, true,
  false, List, [], ◌∷◌, arith, ◌==◌, if◌then◌else◌, Bool-cases, inl, inr,
}

digits_from : ℕ → ℕ → List Bool
digits_from zero n = []
digits_from (suc f) n =
    let rest = digits_from f (n / 2) in if n == 0 then [] else (n % 2 == 1) ∷ rest

-- `config.toString(2)` reversed. Every round halves a positive number, so `n` rounds are enough; the
-- digit of 0 is left to `pad`, whose width is never 0 here.
digits : ℕ → List Bool
digits n = digits_from n n

-- `padStart(width, "0")`, seen from the lowest digit.
pad : ℕ → List Bool → List Bool
pad zero bin = bin
pad (suc width) [] = false ∷ pad width []
pad (suc width) (b ∷ bin) = b ∷ pad width bin

-- `bin[index] === "1"`, false out of range.
digit : List Bool → ℕ → Bool
digit [] index = false
digit (b ∷ bin) zero = b
digit (b ∷ bin) (suc index) = digit bin index

-- `bin[index] = …` within the padded width.
write : List Bool → ℕ → Bool → List Bool
write [] index b = []
write (x ∷ bin) zero b = b ∷ bin
write (x ∷ bin) (suc index) b = x ∷ write bin index b

-- `parseInt(bin.reverse().join(""), 2)`
parse : List Bool → ℕ
parse [] = 0
parse (b ∷ bin) = (if b then 1 else 0) + 2 * parse bin

unfoldable pub is_bit_set : ℕ → ℕ → Bool
unfolding digit pad digits digits_from
is_bit_set config index = digit (pad (suc index) (digits config)) index

unfoldable pub set_bit : ℕ → ℕ → Bool → ℕ
unfolding parse write pad digits digits_from
set_bit config index is_set = parse (write (pad (suc index) (digits config)) index is_set)

-- Bit `index` of a number, by halving.
unfoldable pub test_bit : ℕ → ℕ → Bool
test_bit n zero = n % 2 == 1
test_bit n (suc index) = test_bit (n / 2) index

test_bit-zero : (j : ℕ) → test_bit 0 j ≡ false
unfolding test_bit
test_bit-zero zero = refl
test_bit-zero (suc j) = test_bit-zero j

digit-digits_from : (f n j : ℕ) → n ≤ f → digit (digits_from f n) j ≡ test_bit n j
unfolding digits_from digit test_bit
digit-digits_from zero n j h = let e : n ≡ 0 = omega arith in rw e (sym (test_bit-zero j))
digit-digits_from (suc f) n j h = elim (Bool-cases (n == 0)) [
  | inl none_left ↦ rw none_left (let e : n ≡ 0 = ground arith in rw e (sym (test_bit-zero j)))
  | inr more ↦ rw more (digit_cons (λ k. digit-digits_from f (n / 2) k (ground arith)) j)
]
  where
    digit_cons :
        ((k : ℕ) → digit (digits_from f (n / 2)) k ≡ test_bit (n / 2) k)
        → (j : ℕ) → digit ((n % 2 == 1) ∷ digits_from f (n / 2)) j ≡ test_bit n j
    digit_cons ih zero = refl
    digit_cons ih (suc k) = ih k

digit-pad : (w : ℕ) (bin : List Bool) (j : ℕ) → digit (pad w bin) j ≡ digit bin j
unfolding pad digit
digit-pad zero bin j = refl
digit-pad (suc w) [] zero = refl
digit-pad (suc w) [] (suc j) = digit-pad w [] j
digit-pad (suc w) (b ∷ bin) zero = refl
digit-pad (suc w) (b ∷ bin) (suc j) = digit-pad w bin j

-- Writing within the padded width changes that digit and no other.
digit-write :
    (i j : ℕ) (bin : List Bool) (b : Bool)
    → digit (write (pad (suc i) bin) i b) j ≡ (if i == j then b else digit bin j)
unfolding write pad digit
digit-write zero zero [] b = refl
digit-write zero zero (x ∷ bin) b = refl
digit-write zero (suc j) [] b = ground arith
digit-write zero (suc j) (x ∷ bin) b = ground arith
digit-write (suc i) zero [] b = ground arith
digit-write (suc i) zero (x ∷ bin) b = ground arith
digit-write (suc i) (suc j) [] b = ground (arith, digit-write i j [] b)
digit-write (suc i) (suc j) (x ∷ bin) b = ground (arith, digit-write i j bin b)

test_bit-parse : (bin : List Bool) (j : ℕ) → test_bit (parse bin) j ≡ digit bin j
unfolding test_bit parse digit
test_bit-parse [] j = test_bit-zero j
test_bit-parse (b ∷ bin) zero = ground arith
test_bit-parse (b ∷ bin) (suc j) =
    let e : parse (b ∷ bin) / 2 ≡ parse bin = ground arith in
    ap (λ n. test_bit n j) e ∙ test_bit-parse bin j

-- Reading the padded binary text is reading the bit of the number.
pub is_bit_set-eq-test_bit : (config index : ℕ) → is_bit_set config index ≡ test_bit config index
unfolding is_bit_set
is_bit_set-eq-test_bit config index =
    digit-pad (suc index) (digits config) index
    ∙ digit-digits_from config config index (omega arith)

-- The bit that is written reads as it was set, and every other bit as before.
pub written_bit :
    (config i j : ℕ) (b : Bool)
    → is_bit_set (set_bit config i b) j ≡ (if i == j then b else is_bit_set config j)
unfolding set_bit
written_bit config i j b =
    is_bit_set-eq-test_bit (parse (write (pad (suc i) (digits config)) i b)) j
    ∙ test_bit-parse (write (pad (suc i) (digits config)) i b) j
    ∙ rw digit-write (
        ap (λ old. if i == j then b else old)
          (digit-digits_from config config j (omega arith) ∙ sym (is_bit_set-eq-test_bit config j)))

length-write : (bin : List Bool) (i : ℕ) (b : Bool) → length (write bin i b) ≡ length bin
unfolding write
length-write [] i b = refl
length-write (x ∷ bin) zero b = refl
length-write (x ∷ bin) (suc i) b = omega (arith, length-write bin i b)

length-pad : (w : ℕ) (bin : List Bool) (k : ℕ) → w ≤ k → length bin ≤ k → length (pad w bin) ≤ k
unfolding pad
length-pad zero bin k w h = h
length-pad (suc w) bin zero le h = absurd (omega arith)
length-pad (suc w) [] (suc k) le h = omega (arith, length-pad w [] k (omega arith) (omega arith))
length-pad (suc w) (x ∷ bin) (suc k) le h =
    omega (arith, length-pad w bin k (omega arith) (omega arith))

length-digits_from : (f n k : ℕ) → n < 2 ^ k → length (digits_from f n) ≤ k
unfolding digits_from
length-digits_from zero n k h = omega arith
length-digits_from (suc f) n zero h = let e : n ≡ 0 = ground arith in rw e (omega arith)
length-digits_from (suc f) n (suc k) h = elim (Bool-cases (n == 0)) [
  | inl e ↦ rw e (omega arith)
  | inr e ↦ rw e (let deeper = length-digits_from f (n / 2) k (ground arith) in omega arith)
]

parse-lt : (bin : List Bool) → parse bin < 2 ^ length bin
unfolding parse
parse-lt [] = ground arith
parse-lt (true ∷ bin) = let h = parse-lt bin in ground arith
parse-lt (false ∷ bin) = let h = parse-lt bin in ground arith

-- On an integer of 48 bits and one of its bits, SET_BIT gives an integer of 48 bits, of which the
-- given bit reads as it was set and every other bit as before.
pub is_bit_set-set_bit :
    (config i j : ℕ) (b : Bool)
    → config < 2 ^ 48
    → i < 48
    → (set_bit config i b < 2 ^ 48)
      × (is_bit_set (set_bit config i b) j ≡ (if i == j then b else is_bit_set config j))
unfolding set_bit digits
is_bit_set-set_bit config i j b h k = (bound, written_bit config i j b)
  where
    bin : List Bool
    bin = write (pad (suc i) (digits config)) i b

    short : length bin ≤ 48
    short = omega (
      arith,
      length-write (pad (suc i) (digits config)) i b,
      length-pad (suc i) (digits config) 48 (omega arith) (length-digits_from config config 48 h),
    )

    bound : parse bin < 2 ^ 48
    bound =
        let grows : 2 ^ length bin ≤ 2 ^ 48 = pow-le-pow_right (omega arith) short in
        let below = parse-lt bin in omega arith

-- The program's uses: flags of a node read from its config number 0b10000110.
is_bit_set_runs :
    (is_bit_set 134 2 ≡ true) × (is_bit_set 134 3 ≡ false) × (set_bit 134 3 true ≡ 142)
unfolding is_bit_set set_bit
is_bit_set_runs = (refl, refl, refl)
