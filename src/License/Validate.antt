-- ===== src/License/Validate.antt =====
-- `validate` of datamodel/level2/baselicensenode/BaseLicenseNode.ts and of
-- datamodel/level3/licensenode/LicenseNode.ts.
pub mod Stack
pub mod Friends
use openodin.Prelude.{
  ℕ, Bool, true, false, not, ◌||◌, ◌&&◌, Option, none, some, List, String, leb, ◌==◌, is_set,
  or_zero, if◌then◌else◌,
}
use openodin.Prelude.Int.{ℤ, pos, leb_ℤ}
use openodin.Prelude.Buffer.{Buffer, equals}
use openodin.Prelude.Verdict.{Verdict, accepted, refused, thrown, refuse_if, when, ◌>>◌}
use openodin.Prelude.Result.{Result, ok, error, ◌>>=◌}
use openodin.Model.Props.{has_bytes}
use openodin.Cert.Props.{SignCert}
use openodin.Node.Validate.{validate_node, truthy}
use openodin.Node.Signed.{validate_deep}
use openodin.Friend.Props.{FriendCertProps}
use openodin.Friend.Hash.{hash_friend_constraints, same_number}
use openodin.License.Props.{BaseLicenseNodeProps, LicenseNodeProps, Loaded}
use openodin.License.Flags.{BaseLicenseNodeFlags, load_license_flags}

-- `time ?? 0`
abbrev pub or_zero_time : Option ℤ → ℤ
or_zero_time none = pos 0
or_zero_time (some time) = time

-- A call that may throw, and the checks of its value.
abbrev pub on_value : {A : Type 0} → Result A → (A → Verdict) → Verdict
on_value (ok value) checks = checks value
on_value (error message) checks = thrown message

-- `if (this.props.embedded) { const instance = this.loadEmbedded(); … }`
abbrev pub with_loaded : {A : Type 0} → Loaded A → (A → Verdict) → Verdict
with_loaded none checks = accepted
with_loaded (some loading) checks = on_value loading checks

unfoldable pub check_license_flags : BaseLicenseNodeFlags → Verdict
check_license_flags f = do
  refuse_if (truthy f.is_licensed) "License nodes cannot be licensed them selves"
  refuse_if (truthy f.is_public) "License nodes cannot be public"
  refuse_if (not (truthy f.is_leaf)) "License nodes are required to be leaf nodes"
  refuse_if (not (truthy f.is_unique)) "License nodes are required to be flagged as unique"
  refuse_if (truthy f.allow_embed_move) "License nodes are cannot be flagged as allowEmbedMove"

unfoldable pub check_holder : Option Buffer → Option Buffer → Verdict
check_holder none owner = refused "Expected targetPublicKey to be set"
check_holder (some target_public_key) none = refused "Expected owner to be set"
check_holder (some target_public_key) (some owner) =
    refuse_if (not (equals owner target_public_key))
      "owner of license must be same as targetPublicKey of embedded license"

unfoldable pub check_ref : Option Buffer → Option Buffer → Verdict
check_ref none embedded_ref_id = refused "Expected refId to bet set"
check_ref (some ref_id) none = refused "Expected embedded refId to bet set"
check_ref (some ref_id) (some embedded_ref_id) =
    refuse_if (not (equals ref_id embedded_ref_id)) "Expected refId to be equal embedded refId"

-- `a !== b` on flags.
abbrev pub differs : Option Bool → Option Bool → Bool
differs none none = false
differs (some a) (some b) = if a then not b else b
differs _ _ = true

-- A license on the one that it embeds.
unfoldable pub check_embedded : BaseLicenseNodeProps → BaseLicenseNodeProps → Verdict
unfolding check_holder check_ref truthy
check_embedded p e = do
  check_holder e.target_public_key p.owner
  check_ref p.ref_id e.ref_id
  refuse_if (leb (or_zero e.extensions) (or_zero p.extensions))
      "Expected extension to be lesser than embedded extensions"
  refuse_if (not (leb_ℤ (or_zero_time e.creation_time) (or_zero_time p.creation_time)))
      "Expected creationTime to be equal or greater than embedded creationTime"
  refuse_if (not (leb_ℤ (or_zero_time p.expire_time) (or_zero_time e.expire_time)))
      "Expected expireTime to be equal or lesser than embedded expireTime"
  refuse_if
      (differs (load_license_flags p).disallow_retro_licensing
        (load_license_flags e).disallow_retro_licensing)
      "Expected disallowRetroLicensing to match in license and embedded license"
  refuse_if
      (differs (load_license_flags p).restrictive_mode_writer
        (load_license_flags e).restrictive_mode_writer)
      "Expected restrictiveModeWriter to match in license and embedded license"
  refuse_if
      (differs (load_license_flags p).restrictive_mode_manager
        (load_license_flags e).restrictive_mode_manager)
      "Expected restrictiveModeManager to match in license and embedded license"
  refuse_if
      (truthy (load_license_flags p).allow_target_send_privately
        && not (truthy (load_license_flags e).allow_target_send_privately))
      "allowTargetSendPrivately must also be set in original license if set in extended"

abbrev base_of : Loaded LicenseNodeProps → Loaded BaseLicenseNodeProps
base_of none = none
base_of (some (ok e)) = some (ok e.base)
base_of (some (error message)) = some (error message)

unfoldable pub check_both_friends : LicenseNodeProps → Bool → Verdict
check_both_friends p has_embedded = when (is_set p.friend_cert1 || is_set p.friend_cert2) do
  refuse_if (not (is_set p.friend_cert1) || not (is_set p.friend_cert2))
      "Both friendCerts must be set, if any set"
  refuse_if (not has_embedded) "friendCerts are not expected to be set as embedded is not set"

load_friend : {A : Type 0} → String → Loaded A → Result A
load_friend message none = error message
load_friend message (some loading) = loading

unfoldable pub check_friend_constraints : Option Buffer → Option Buffer → Verdict
check_friend_constraints none constraints2 = refused "Expected constraints to be set on friendCert1"
check_friend_constraints (some constraints1) none =
    refused "Expected constraints to be set on friendCert2"
check_friend_constraints (some constraints1) (some constraints2) =
    refuse_if (not (equals constraints1 constraints2))
      "Expected constraints to be equal on friendCerts"

unfoldable pub check_license_expire : Option ℤ → Option ℤ → Verdict
check_license_expire none expire_time = accepted
check_license_expire (some limit) none =
    refused "License expireTime must be set if friendCert's licenseMaxExpireTime is set"
check_license_expire (some limit) (some expire_time) =
    refuse_if (not (leb_ℤ expire_time limit))
      "License expireTime cannot be greater than friendCert's licenseMaxExpireTime"

module _ (blake2b : Buffer → Buffer) where
  -- A hash is a buffer, and so never refused by the test of it.
  unfoldable pub check_friends :
      LicenseNodeProps → LicenseNodeProps → FriendCertProps → FriendCertProps → Verdict
  unfolding check_friend_constraints check_license_expire
  check_friends p e a b = do
    refuse_if (not (is_set e.friend_level)) "Expected embedded license friendLevel to be set"
    refuse_if (not (same_number e.friend_level a.friend_level))
        "Expected embedded license friendLevel to equal to friendCert's friendLevel"
    check_friend_constraints a.constraints b.constraints
    on_value (hash_friend_constraints blake2b a b none) (λ hash. accepted)
    on_value (hash_friend_constraints blake2b b a none) (λ hash. accepted)
    refuse_if (not (leb_ℤ (or_zero_time a.creation_time) (or_zero_time p.creation_time)))
        "License creationTime cannot be lesser than the friendCert's creationTime"
    refuse_if (not (leb_ℤ (or_zero_time p.creation_time) (or_zero_time a.expire_time)))
        "License creationTime cannot be greater then friendCert's expireTime"
    check_license_expire a.license_max_expire_time p.expire_time

  -- The checks on the friend certificates, when the embedded license is loaded.
  unfoldable pub check_friend_certs : LicenseNodeProps → LicenseNodeProps → Verdict
  unfolding load_friend check_friends
  check_friend_certs p e =
      if is_set p.friend_cert1 || is_set p.friend_cert2
      then on_value (load_friend "Expected friendCert1 to have been set" p.friend_cert1) (λ a.
        on_value (load_friend "Expected friendCert2 to have been set" p.friend_cert2)
          (λ b. check_friends p e a b))
      else refuse_if (is_set e.friend_level)
          "Expected friendCerts to have been set as friendLevel is set"

  module _ (hash_constraints : ℕ → Buffer) where
    unfoldable pub validate_base_license :
        Bool
        → Option ℤ
        → BaseLicenseNodeProps
        → List SignCert
        → Loaded BaseLicenseNodeProps
        → Verdict
    unfolding check_license_flags check_embedded
    validate_base_license deep time p certs embedded = do
      if deep
          then validate_deep hash_constraints blake2b p.node certs time
          else validate_node p.node time
      check_license_flags (load_license_flags p)
      when (has_bytes p.terms)
          (refuse_if (is_set embedded) "Only first license in stack can have terms set")
      when deep (with_loaded embedded (check_embedded p))

    unfoldable pub validate_license :
        Bool → Option ℤ → LicenseNodeProps → List SignCert → Loaded LicenseNodeProps → Verdict
    unfolding validate_base_license check_both_friends check_friend_certs
    validate_license deep time p certs embedded = do
      validate_base_license deep time p.base certs (base_of embedded)
      check_both_friends p (is_set embedded)
      when deep (with_loaded embedded (check_friend_certs p))
