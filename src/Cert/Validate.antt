-- ===== src/Cert/Validate.antt =====
-- `validate` of BaseCert, BaseSignCert and SignCert in datamodel/level1/basecert,
-- datamodel/level2/basesigncert and datamodel/level3/signcert.
pub mod Chain
use text.Mathlib.Text.{◌==◌ as str_eq}
use openodin.Prelude.{
  ℕ, suc, ◌<◌, Bool, true, false, not, ◌||◌, ◌&&◌, Option, none, some, List, [], ◌∷◌, String, leb,
  ltb, ◌==◌, if◌then◌else◌, length, is_set, or_zero,
}
use openodin.Prelude.Int.{ℤ, leb_ℤ}
use openodin.Prelude.Buffer.{Buffer, equals}
use openodin.Prelude.Verdict.{Verdict, accepted, refused, thrown, refuse_if, when, wrap, ◌>>◌}
use openodin.Model.Props.{BaseModelProps, validate_model}
use openodin.Model.Constraints.{hash_constraints, Packed}
use openodin.Cert.Props.{
  SignCertProps, SignCert, base_loads, load_base, loads, load, fields_mapping, flags_mapping,
}

-- BaseCert.validate
unfoldable pub validate_base_cert : BaseModelProps → Option ℤ → Verdict
validate_base_cert p time = do
  refuse_if (not (is_set p.creation_time)) "creationTime must be set in cert"
  refuse_if (not (is_set p.expire_time)) "expireTime must be set in cert"
  validate_model p time

-- The checks of equal buffers, and of the issuer's times, with the early returns of their lines.
unfoldable pub check_type : Option Buffer → Option Buffer → Verdict
check_type none model_type = accepted
check_type (some target_type) none = refused "Expected modelType to be set"
check_type (some target_type) (some model_type) =
    refuse_if (not (equals target_type model_type))
      "cert targetType must match the top cert's modelType"

unfoldable pub check_owner : Option Buffer → Option Buffer → Verdict
check_owner none owner = refused "Expected cert owner to be set"
check_owner (some cert_owner) none = refused "Expected cert owner to be set"
check_owner (some cert_owner) (some owner) =
    refuse_if (not (equals owner cert_owner))
      "top cert owner public key must match cert owner public key"

unfoldable pub check_born : Option ℤ → Option ℤ → Option ℤ → Verdict
check_born (some cert_creation_time) (some cert_expire_time) (some creation_time) = do
  refuse_if (not (leb_ℤ cert_creation_time creation_time))
      "cert cannot be created before the signCerts creationTime"
  refuse_if (not (leb_ℤ creation_time cert_expire_time))
      "cert cannot be created after the signCerts expireTime"
check_born (some cert_creation_time) (some cert_expire_time) none =
    refused "creationTime must be set in cert"
check_born none cert_expire_time creation_time = refused "Missing creationTime/expireTime in cert"
check_born (some cert_creation_time) none creation_time =
    refused "Missing creationTime/expireTime in cert"

-- `if (limit !== undefined) { … }`: the value must be set, or `missing`, and not exceed the limit.
unfoldable pub check_limit : String → String → Option ℤ → Option ℤ → Verdict
check_limit missing exceeded none value = accepted
check_limit missing exceeded (some limit) none = refused missing
check_limit missing exceeded (some limit) (some value) =
    refuse_if (not (leb_ℤ value limit)) exceeded

-- BaseSignCert.validate on the certificate `q` that issued `p`.
check_base_issuer : SignCertProps → SignCertProps → Verdict
unfolding check_type check_owner check_born check_limit
check_base_issuer p q = do
  check_type q.target_type p.model_type
  check_owner q.owner p.owner
  refuse_if (not (is_set q.creation_time) || not (is_set q.expire_time))
      "Missing creationTime/expireTime in cert"
  refuse_if (not (is_set p.creation_time)) "creationTime must be set in cert"
  refuse_if (not (is_set p.expire_time)) "expireTime must be set in cert"
  check_born q.creation_time q.expire_time p.creation_time
  check_limit "cert must have targetMaxExpireTime set if signCert has"
      "cert cannot have larger targetMaxExpireTime than signCert has" q.target_max_expire_time
      p.target_max_expire_time
  check_limit "expireTime must be set in cert"
      "cert cannot expire after signCerts targetMaxExpireTime" q.target_max_expire_time
      p.expire_time

-- BaseSignCert.validate.
validate_base_sign_cert : Bool → Option ℤ → SignCertProps → List SignCert → Verdict
unfolding validate_base_cert check_base_issuer
validate_base_sign_cert deep time p [] = do
  validate_base_cert p.model time
  refuse_if (not (is_set p.target_type)) "targetType must be set in cert"
validate_base_sign_cert deep time p (c ∷ issuers) = do
  validate_base_cert p.model time
  refuse_if (not (is_set p.target_type)) "targetType must be set in cert"
  when deep do
    base_loads c
    wrap "Could not validate signCert: " (validate_base_sign_cert deep time (load_base c) issuers)
    check_base_issuer p (load_base c)

check_threshold : ℕ → Option ℕ → Verdict
check_threshold keys threshold =
    if ltb 1 keys
    then (refuse_if (or_zero threshold == 0)
          "Expected multisigThreshold to have been set as there are multiple targetPublicKeys"
        >> refuse_if (ltb 3 (or_zero threshold))
            "Expected multisigThreshold to be less or equal than three"
        >> refuse_if (ltb keys (or_zero threshold))
            "Expected multisigThreshold to be less or equal targetPublicKeys.length")
    else refuse_if (is_set threshold)
        "Expected multisigThreshold to not have been set as there is a single targetPublicKeys element"

check_target_public_keys : Option (List Buffer) → Option ℕ → Verdict
unfolding check_threshold
check_target_public_keys none threshold = refused "Expected targetPublicKeys to have been set"
check_target_public_keys (some keys) threshold = do
  refuse_if (length keys == 0) "Expected targetPublicKeys to have been set"
  refuse_if (ltb 5 (length keys)) "Expected targetPublicKeys.length to be maximum five"
  check_threshold (length keys) threshold

-- The config numbers that `hashConstraints` of SignCert passes on.
abbrev pub sign_cert_configs : SignCertProps → String → ℕ
sign_cert_configs p name = if str_eq name "basesigncert" then or_zero p.base_sign_cert_config else 0

module _ (blake2b : Buffer → Buffer) where
  -- SignCert.hashConstraints on packed data.
  unfoldable pub sign_cert_constraints : ℕ → Packed → SignCertProps → Buffer
  sign_cert_constraints locked_config packed p =
      hash_constraints blake2b locked_config packed fields_mapping flags_mapping
        (sign_cert_configs p)

  check_constraints : Option Buffer → ℕ → Option Packed → SignCertProps → Verdict
  check_constraints none locked_config packed p = refused "signCert constraints must be set"
  check_constraints (some constraints) locked_config none p =
      thrown "Expected to been packed before calling hashConstraints"
  check_constraints (some constraints) locked_config (some packed) p =
      refuse_if (not (equals constraints (sign_cert_constraints locked_config packed p)))
        "cert constraints do not match expected signCert constraints"

  check_issuer : SignCert → SignCertProps → Verdict
  unfolding check_constraints
  check_issuer c q = do
    refuse_if (leb (or_zero q.countdown) (or_zero c.props.countdown))
        "signCerts countdown must be greater than 0 and greater then certs countdown (if set)"
    check_constraints q.constraints (or_zero q.locked_config) c.packed c.props

  -- SignCert.validate.
  unfoldable pub validate_sign_cert : Bool → Option ℤ → SignCert → List SignCert → Verdict
  unfolding validate_base_sign_cert check_target_public_keys check_issuer
  validate_sign_cert deep time c [] = do
    validate_base_sign_cert deep time c.props []
    check_target_public_keys c.props.target_public_keys c.props.multisig_threshold
  validate_sign_cert deep time c (d ∷ issuers) = do
    validate_base_sign_cert deep time c.props (d ∷ issuers)
    check_target_public_keys c.props.target_public_keys c.props.multisig_threshold
    when deep do
      loads d
      wrap "Could not validate signCert: " (validate_sign_cert deep time (load d) issuers)
      check_issuer c (load d).props
