-- ===== src/Schema/Bytes.antt =====
-- The reads and writes of Node's `Buffer`: unsigned integers of a number of bytes, in both orders,
-- and signed ones in two's complement.
use mathlib.Core.List.{reverse, reverse-reverse, reverse-append}
use native.Mathlib.Nat.{pow-suc}
use openodin.Prelude.{
  ℕ, zero, suc, ◌+◌, ◌-◌, ◌*◌, ◌/◌, ◌%◌, ◌^◌, ◌<◌, ◌≡◌, refl, ap, ◌∙◌, [], ◌∷◌, arith, ltb,
  if◌then◌else◌, length, length-append, All,
}
use openodin.Prelude.Int.{ℤ, pos, negsuc}
use openodin.Prelude.Buffer.{Buffer}

-- The lowest byte first.
unfoldable pub write_le : ℕ → ℕ → Buffer
write_le zero n = []
write_le (suc w) n = (n % 256) ∷ write_le w (n / 256)

unfoldable pub write_be : ℕ → ℕ → Buffer
unfolding write_le
write_be w n = reverse (write_le w n)

unfoldable pub read_le : Buffer → ℕ
read_le [] = 0
read_le (b ∷ bs) = b + 256 * read_le bs

unfoldable pub read_be : Buffer → ℕ
unfolding read_le
read_be bs = read_le (reverse bs)

-- The word of `w` bytes that stands for a signed integer, and back.
unfoldable pub to_word : ℕ → ℤ → ℕ
to_word w (pos n) = n
to_word w (negsuc n) = 256 ^ w - 1 - n

unfoldable pub from_word : ℕ → ℕ → ℤ
from_word w n = if ltb (2 * n) (256 ^ w) then pos n else negsuc (256 ^ w - 1 - n)

pub length-write_le : (w n : ℕ) → length (write_le w n) ≡ w
unfolding write_le
length-write_le zero n = refl
length-write_le (suc w) n = ap suc (length-write_le w (n / 256))

length-reverse : (xs : Buffer) → length (reverse xs) ≡ length xs
length-reverse [] = refl
length-reverse (x ∷ xs) =
    ap length (reverse-append (x ∷ []) xs)
    ∙ length-append (reverse xs) (x ∷ [])
    ∙ omega (arith, length-reverse xs)

pub length-write_be : (w n : ℕ) → length (write_be w n) ≡ w
unfolding write_be
length-write_be w n = length-reverse (write_le w n) ∙ length-write_le w n

pub read-write_le : (w n : ℕ) → n < 256 ^ w → read_le (write_le w n) ≡ n
unfolding read_le write_le
read-write_le zero n h = omega arith
read-write_le (suc w) n h =
    let p : 256 ^ suc w ≡ 256 ^ w * 256 = pow-suc 256 w in
    omega (arith, read-write_le w (n / 256) (omega arith))

pub read-write_be : (w n : ℕ) → n < 256 ^ w → read_be (write_be w n) ≡ n
unfolding read_be write_be
read-write_be w n h = rw reverse-reverse (read-write_le w n h)

-- Reads are bounded when the bytes are bytes.
abbrev pub IsBytes : Buffer → Type 0
IsBytes = All (λ b. b < 256)

pub write_le-IsBytes : (w n : ℕ) → IsBytes (write_le w n)
unfolding write_le
write_le-IsBytes zero n = tt
write_le-IsBytes (suc w) n = (omega arith, write_le-IsBytes w (n / 256))
