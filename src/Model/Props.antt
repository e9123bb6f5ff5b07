-- ===== src/Model/Props.antt =====
-- BaseModelProps of datamodel/types.ts and `BaseModel.validate` of datamodel/BaseModel.ts. Times are
-- JavaScript integers, which may be negative before validation.
use openodin.Prelude.{ℕ, Bool, true, false, Option, none, some, not, ◌==◌, length}
use openodin.Prelude.Int.{ℤ, pos, leb_ℤ}
use openodin.Prelude.Buffer.{Buffer}
use openodin.Prelude.Verdict.{Verdict, accepted, refused, refuse_if, ◌>>◌}

pub record BaseModelProps : Type 0 where
  pub model_type : Option Buffer
  pub id1 : Option Buffer
  pub owner : Option Buffer
  pub creation_time : Option ℤ
  pub expire_time : Option ℤ

-- `!x || x.length !== n`
abbrev pub lacks_length : ℕ → Option Buffer → Bool
lacks_length n none = true
lacks_length n (some b) = not (length b == n)

-- `x?.length`, as a condition: there are bytes.
abbrev pub has_bytes : Option Buffer → Bool
has_bytes none = false
has_bytes (some b) = not (length b == 0)

check_time : ℤ → Option ℤ → Verdict
check_time expire_time none = accepted
check_time expire_time (some time) = refuse_if (leb_ℤ expire_time time) "model has expired"

check_expire : ℤ → Option ℤ → Option ℤ → Verdict
unfolding check_time
check_expire creation_time none time = accepted
check_expire creation_time (some expire_time) time = do
  refuse_if (leb_ℤ expire_time creation_time)
      "creationTime (if set) must be lesser than expireTime (if set)"
  check_time expire_time time

check_creation : Option ℤ → Option ℤ → Option ℤ → Verdict
unfolding check_expire
check_creation none expire_time time = refused "creationTime must be set"
check_creation (some creation_time) expire_time time = do
  check_expire creation_time expire_time time
  refuse_if (not (leb_ℤ (pos 0) creation_time)) "creationTime (if set) must be 0 or greater"

-- `deepValidate` has no effect at this level.
unfoldable pub validate_model : BaseModelProps → Option ℤ → Verdict
unfolding check_creation
validate_model props time = do
  refuse_if (lacks_length 3 props.model_type) "modelType expected to be set to 3 bytes"
  refuse_if (not (has_bytes props.owner)) "owner expected to be set"
  check_creation props.creation_time props.expire_time time
