-- ===== src/Model/Constraints/Locked.antt =====
-- Which flags a certificate locks.
use Prim.Native.Nat.{digits, bit_and-bitwise, min}
use openodin.Prelude.{
  ℕ, zero, suc, ◌+◌, ◌*◌, ◌/◌, ◌%◌, ◌^◌, ◌≤◌, ◌<◌, ◌≡◌, refl, ap, sym, Bool, true, false, not, ◌&&◌,
  arith, ◌==◌, ltb, ltb→lt, ◌-◌, if◌then◌else◌, Bool-cases, inl, inr,
}
use native.Mathlib.Nat.{
  pow-suc, mod-lt, mod-eq_of_lt, add-mul-mod_self_right, div-add-mod', pow-le-pow_right, le_trans,
}
use openodin.Model.Bits.{is_bit_set, test_bit, is_bit_set-eq-test_bit}
use openodin.Model.Constraints.{is_flag_locked}

pow_pos : (b : ℕ) → 0 < 2 ^ b
pow_pos zero = omega arith
pow_pos (suc b) = omega (arith, pow_pos b, pow-suc 2 b)

digits-zero : (n x : ℕ) → digits (λ y. zero) min n 0 x ≡ 0
digits-zero zero x = refl
digits-zero (suc n) x = refl

-- `&` with a power of two keeps that bit alone.
and_pow :
    (b n p a : ℕ)
    → p ≡ 2 ^ b
    → p ≤ n
    → digits (λ y. zero) min n p a ≡ (if test_bit a b then 2 ^ b else 0)
unfolding test_bit
and_pow b n zero a e h = absurd (grind (arith, pow_pos b))
and_pow zero zero (suc q) a e h = absurd (omega arith)
and_pow zero (suc n) (suc q) a e h =
    let z : q ≡ 0 = omega arith in rw z (ground (arith, digits-zero n (a / 2)))
and_pow (suc b) zero (suc q) a e h = absurd (omega arith)
and_pow (suc b) (suc n) (suc q) a e h =
    let double : 2 ^ suc b ≡ 2 ^ b * 2 = pow-suc 2 b in
    let ih = and_pow b n (suc q / 2) (a / 2) (omega arith) (omega arith) in ground (arith, ih)

half_mod : (n m : ℕ) → 0 < m → n % (m * 2) / 2 ≡ n / 2 % m
half_mod n m h =
    let q = n / (m * 2) in
    let r = n % (m * 2) in
    let split : n ≡ q * (m * 2) + r = sym (div-add-mod' n (m * 2)) in
    let low : r < m * 2 = mod-lt n (omega arith) in
    let e : n / 2 ≡ r / 2 + q * m = omega arith in
    rw e (rw add-mul-mod_self_right (sym (mod-eq_of_lt (omega arith))))

parity_mod : (n m : ℕ) → 0 < m → n % (m * 2) % 2 ≡ n % 2
parity_mod n m h = omega (arith, div-add-mod' n (m * 2))

test_bit-mod : (k j n : ℕ) → j < k → test_bit (n % 2 ^ k) j ≡ test_bit n j
unfolding test_bit
test_bit-mod zero j n h = absurd (omega arith)
test_bit-mod (suc k) zero n h = ap (λ t. t == 1) (rw pow-suc (parity_mod n (2 ^ k) (pow_pos k)))
test_bit-mod (suc k) (suc j) n h =
    rw pow-suc (rw (half_mod n (2 ^ k) (pow_pos k)) (test_bit-mod k j (n / 2) (omega arith)))

high_pow_mod : (d : ℕ) → 2 ^ (d + 32) % 2 ^ 32 ≡ 0
high_pow_mod zero = refl
high_pow_mod (suc d) =
    let e : suc d + 32 ≡ suc (d + 32) = omega arith in
    rw (e, pow-suc) (omega (arith, high_pow_mod d))

low_pow_mod : (b : ℕ) → b < 32 → 2 ^ b % 2 ^ 32 ≡ 2 ^ b
low_pow_mod b h = mod-eq_of_lt (
    le_trans (omega (arith, pow-suc 2 b, pow_pos b))
      (pow-le-pow_right {n = 2} (omega arith) {i = suc b} {j = 32} h))

bit_or_zero : (t : Bool) (p : ℕ) → 0 < p → not ((if t then p else 0) == 0) ≡ t
bit_or_zero true p h = ground arith
bit_or_zero false p h = refl

-- A flag is locked if its bit is set in the locked config and is one of the lower 32.
pub is_flag_locked_iff :
    (locked_config bit : ℕ)
    → is_flag_locked locked_config bit ≡ (ltb bit 32 && is_bit_set locked_config bit)
unfolding is_flag_locked
is_flag_locked_iff locked_config bit = elim (Bool-cases (ltb bit 32)) [
  | inl low ↦
      let lt : bit < 32 = ltb→lt bit 32 low in
      let p = 2 ^ bit in
      let masked = and_pow bit p p (locked_config % 2 ^ 32) refl (omega arith) in
      rw (low, low_pow_mod bit lt, bit_and-bitwise, masked, test_bit-mod 32 bit locked_config lt)
        (rw is_bit_set-eq-test_bit
          (bit_or_zero (test_bit locked_config bit) (2 ^ bit) (pow_pos bit)))
  | inr high ↦
      let e : bit ≡ (bit - 32) + 32 = ground arith in
      let z : 2 ^ bit % 2 ^ 32 ≡ 0 = rw e (high_pow_mod (bit - 32)) in
      rw (high, z) (rw bit_and-bitwise)
]
