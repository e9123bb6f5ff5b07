-- ===== src/Friend/Validate.antt =====
-- `BaseFriendCert.validate` of datamodel/level2/basefriendcert/BaseFriendCert.ts, on the `signCert` of
-- a friend certificate and those that issued it.
pub mod Granted
use openodin.Prelude.{ℕ, Bool, true, false, not, ◌||◌, Option, List, [], ◌∷◌, ◌==◌, is_set, or_zero}
use openodin.Prelude.Int.{ℤ}
use openodin.Prelude.Buffer.{Buffer}
use openodin.Prelude.Verdict.{Verdict, accepted, refuse_if, when, wrap, ◌>>◌}
use openodin.Cert.Props.{SignCertProps, SignCert, loads, load}
use openodin.Cert.Validate.{
  validate_base_cert, validate_sign_cert, check_type, check_owner, check_born, check_limit,
}
use openodin.Friend.Props.{FriendCertProps}

-- The checks against the props of the loaded `signCert`.
match_friend_cert : FriendCertProps → SignCertProps → Verdict
match_friend_cert p q = do
  check_owner q.owner p.owner
  check_type q.target_type p.model_type
  refuse_if (not (is_set q.creation_time) || not (is_set q.expire_time))
      "Missing creationTime/expireTime in cert"
  refuse_if (not (is_set p.creation_time)) "creationTime must be set in cert"
  refuse_if (not (is_set p.expire_time)) "expireTime must be set in cert"
  check_born q.creation_time q.expire_time p.creation_time
  check_limit "cert must have licenseMaxExpireTime set if signCert has targetMaxExpireTime set"
      "cert cannot have larger licenseMaxExpireTime than signCert targetMaxExpireTime"
      q.target_max_expire_time p.license_max_expire_time
  check_limit "expireTime must be set in cert"
      "cert cannot expire after signCerts targetMaxExpireTime" q.target_max_expire_time
      p.expire_time
  refuse_if (not (or_zero q.countdown == 0))
      "signCerts countdown value if set must be 0 when signing node"
  refuse_if (is_set q.constraints) "signCert constraints must not be set"

check_friend_props : FriendCertProps → Verdict
check_friend_props p = do
  refuse_if (not (is_set p.friend_level)) "Expected friendLevel to be set"
  refuse_if (not (is_set p.salt)) "Expected salt to be set"

module _ (blake2b : Buffer → Buffer) where
  unfoldable pub validate_friend_cert : Bool → Option ℤ → FriendCertProps → List SignCert → Verdict
  unfolding match_friend_cert check_friend_props
  validate_friend_cert deep time p [] = do validate_base_cert p.model time; check_friend_props p
  validate_friend_cert deep time p (c ∷ issuers) = do
    validate_base_cert p.model time
    check_friend_props p
    when deep do
      loads c
      wrap "Could not validate signCert: " (validate_sign_cert blake2b deep time (load c) issuers)
      match_friend_cert p (load c).props
