-- ===== src/Node/Signed.antt =====
-- `BaseNode.matchSignCert` and the last block of `BaseNode.validate`, on the certificate of a node.
-- `hashConstraints` is the method of the deriving class: a parameter.
pub mod Authority
use openodin.Prelude.{
  ℕ, Bool, true, false, not, ◌||◌, Option, none, some, List, [], ◌∷◌, String, ◌==◌, is_set, or_zero,
  any,
}
use openodin.Prelude.Int.{ℤ, leb_ℤ}
use openodin.Prelude.Buffer.{Buffer, equals}
use openodin.Prelude.Verdict.{Verdict, accepted, refused, refuse_if, when, wrap, ◌>>◌}
use openodin.Cert.Props.{SignCertProps, SignCert, loads, load}
use openodin.Cert.Validate.{validate_sign_cert}
use openodin.Node.Props.{BaseNodeProps}
use openodin.Node.Validate.{validate_node}

match_owner : Option Buffer → Option Buffer → Verdict
match_owner none owner = refused "Expected cert owner to be set"
match_owner (some cert_owner) none = refused "Expected node owner to be set"
match_owner (some cert_owner) (some owner) =
    refuse_if (not (equals owner cert_owner))
      "cert owner public key must match node owner public key"

match_type : Option Buffer → Option Buffer → Verdict
match_type none model_type = accepted
match_type (some target_type) none = refused "Expected modelType to be set"
match_type (some target_type) (some model_type) =
    refuse_if (not (equals target_type model_type)) "cert targetType must match the nodes modelType"

match_creation : Option ℤ → Option ℤ → Option ℤ → Verdict
match_creation (some cert_creation_time) (some cert_expire_time) (some creation_time) = do
  refuse_if (not (leb_ℤ cert_creation_time creation_time))
      "Node cannot be created before the certificates creation time"
  refuse_if (not (leb_ℤ creation_time cert_expire_time))
      "Node cannot be created after the certificates expire time"
match_creation (some cert_creation_time) (some cert_expire_time) none =
    refused "Missing node creation time"
match_creation (some cert_creation_time) none creation_time = refused "Missing time values in cert"
match_creation none cert_expire_time creation_time = refused "Missing time values in cert"

match_expire : Option ℤ → Option ℤ → Verdict
match_expire none expire_time = accepted
match_expire (some limit) none =
    refused "expireTime must be set when signCert targetMaxExpireTime is set"
match_expire (some limit) (some expire_time) =
    refuse_if (not (leb_ℤ expire_time limit))
      "cert cannot expire after signCerts targetMaxExpireTime"

match_constraints : Option Buffer → Buffer → Verdict
match_constraints none node_constraints = accepted
match_constraints (some constraints) node_constraints =
    refuse_if (not (equals constraints node_constraints))
      "signCert constraints do not match hashed node constraints"

-- `targetPublicKeys ?? []` and `multisigThreshold ?? 1`
or_empty : Option (List Buffer) → List Buffer
or_empty none = []
or_empty (some keys) = keys

or_one : Option ℕ → ℕ
or_one none = 1
or_one (some n) = n

match_signer : Option Buffer → SignCertProps → Verdict
unfolding or_empty or_one
match_signer none q = accepted
match_signer (some signer_public_key) q = do
  refuse_if (not (any (λ key. equals key signer_public_key) (or_empty q.target_public_keys)))
      "Missing singerPublicKey in targetPublicKeys"
  refuse_if (not (or_one q.multisig_threshold == 1)) "Expected signCert not to be multisig"

module _ (hash_constraints : ℕ → Buffer) where
  unfoldable pub match_sign_cert : BaseNodeProps → SignCertProps → Option Buffer → Verdict
  unfolding match_owner match_type match_creation match_expire match_constraints match_signer
  match_sign_cert p q signer_public_key = do
    match_owner q.owner p.owner
    match_type q.target_type p.model_type
    match_creation q.creation_time q.expire_time p.creation_time
    match_expire q.target_max_expire_time p.expire_time
    refuse_if (not (or_zero q.countdown == 0))
        "signCerts countdown value if set must be 0 when signing node"
    match_constraints q.constraints (hash_constraints (or_zero q.locked_config))
    match_signer signer_public_key q

  -- `validate(true, time)` of a node; its certificates are the one that it holds and the issuers.
  unfoldable pub validate_deep :
      (Buffer → Buffer) → BaseNodeProps → List SignCert → Option ℤ → Verdict
  validate_deep blake2b p [] time = validate_node p time
  validate_deep blake2b p (c ∷ issuers) time = do
    validate_node p time
    loads c
    wrap "Could not validate signCert: " (validate_sign_cert blake2b true time (load c) issuers)
    wrap "Could not match signCert: " (match_sign_cert p (load c).props none)
