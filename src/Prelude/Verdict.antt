-- ===== src/Prelude/Verdict.antt =====
-- The outcome of the validation functions: `[true, ""]`, `[false, reason]`, or a failed assertion.
use Prim.Native.String
use Prim.Native.String.{String}
use mathlib.Core.Path.{◌≡◌, refl}
use mathlib.Core.Logic.{◌↔◌}
use mathlib.Core.Bool.{Bool, true, false, not}
use Prim.Native.Nat.{◌+◌}
use openodin.Prelude.Tests.{leb→le}
use openodin.Prelude.Int.{ℤ, pos_part, neg_part, leb_ℤ, ◌≤ℤ◌}
use openodin.Prelude.Buffer.{Buffer, equals, equals→eq}

pub data Verdict : Type 0 where
  accepted : Verdict
  refused : String → Verdict
  thrown : String → Verdict

infixl 5 ◌>>◌
-- A refusal is returned at once, and an error leaves all callers.
abbrev pub ◌>>◌ : Verdict → Verdict → Verdict
accepted >> k = k
refused reason >> k = refused reason
thrown error >> k = thrown error

-- `if (test) { return [false, reason]; }`
abbrev pub refuse_if : Bool → String → Verdict
refuse_if true reason = refused reason
refuse_if false reason = accepted

-- `return [false, \`prefix ${reason}\`]` for a refusal by a callee.
abbrev pub wrap : String → Verdict → Verdict
wrap prefix accepted = accepted
wrap prefix (refused reason) = refused (String.◌++◌ prefix reason)
wrap prefix (thrown error) = thrown error

-- `if (test) { ... }` around further checks.
abbrev pub when : Bool → Verdict → Verdict
when true checks = checks
when false checks = accepted

pub >>-eq-accepted : (a b : Verdict) → ((a >> b) ≡ accepted) ↔ ((a ≡ accepted) × (b ≡ accepted))
>>-eq-accepted accepted b = (λ h. (refl, h), λ h. h.1)
>>-eq-accepted (refused reason) b = (λ h. cc, λ h. cc)
>>-eq-accepted (thrown error) b = (λ h. cc, λ h. cc)

pub refuse_if-eq-accepted : (t : Bool) (s : String) → (refuse_if t s ≡ accepted) ↔ (t ≡ false)
refuse_if-eq-accepted true s = (λ h. cc, λ h. cc)
refuse_if-eq-accepted false s = (λ h. refl, λ h. refl)

pub when-eq-accepted : (t : Bool) (b : Verdict) → (when t b ≡ accepted) ↔ (t ≡ true → b ≡ accepted)
when-eq-accepted true b = (λ h _. h, λ h. h refl)
when-eq-accepted false b = (λ h e. cc, λ h. refl)

-- The two halves of an accepted sequence, and the test that an accepted guard failed.
pub both_accepted : (a b : Verdict) → (a >> b) ≡ accepted → (a ≡ accepted) × (b ≡ accepted)
both_accepted a b h = (>>-eq-accepted a b).0 h

pub not_refused : (t : Bool) (s : String) → refuse_if t s ≡ accepted → t ≡ false
not_refused t s h = (refuse_if-eq-accepted t s).0 h

-- A guard `if (!t)` that let the value pass.
pub passes : (t : Bool) (s : String) → refuse_if (not t) s ≡ accepted → t ≡ true
passes true s h = refl
passes false s h = cc

-- A guard `if (b < a)` or `if (!a.equals(b))` that let the value pass.
pub passes_le : (a b : ℤ) (s : String) → refuse_if (not (leb_ℤ a b)) s ≡ accepted → a ≤ℤ b
passes_le a b s h = leb→le (pos_part a + neg_part b) (pos_part b + neg_part a) (passes _ s h)

pub passes_equals : (a b : Buffer) (s : String) → refuse_if (not (equals a b)) s ≡ accepted → a ≡ b
passes_equals a b s h = equals→eq a b (passes (equals a b) s h)

pub wrap-eq-accepted : (s : String) (v : Verdict) → wrap s v ≡ accepted → v ≡ accepted
wrap-eq-accepted s accepted h = refl
wrap-eq-accepted s (refused reason) h = cc
wrap-eq-accepted s (thrown error) h = cc

-- Reads a verdict of `accepted` as the conjunction of its checks.
pub ruleset verdicts = (>>-eq-accepted, refuse_if-eq-accepted, when-eq-accepted)
