-- ===== src/License/Embed.antt =====
-- `LicenseNode.embed` of datamodel/level3/licensenode/LicenseNode.ts.
pub mod Passes
use mathlib.Core.Option.{some_inj}
use openodin.Prelude.{
  ℕ, ◌-◌, ◌<◌, ◌≡◌, ◌≢◌, refl, subst, ap, Bool, true, false, not, ◌&&◌, Option, none, some, List,
  [], ◌∷◌, if◌then◌else◌, Bool-cases, inl, inr, leb, is_set, or_zero, arith, String, ◌==◌,
}
use openodin.Prelude.Int.{ℤ, pos, negsuc, leb_ℤ, ◌≤ℤ◌}
use openodin.Prelude.Buffer.{Buffer, equals, equals_refl}
use openodin.Prelude.Verdict.{Verdict, accepted, refuse_if, when, ◌>>◌, both_accepted}
use openodin.Prelude.Result.{Result, ok, error}
use openodin.Model.Props.{has_bytes}
use openodin.Cert.Props.{SignCert}
use openodin.Node.Props.{BaseNodeProps}
use openodin.Node.Flags as NodeFlags
use openodin.Node.Validate.{truthy}
use openodin.License.Props.{BaseLicenseNodeProps, LicenseNodeProps, Loaded}
use openodin.License.Flags.{
  BaseLicenseNodeFlags, load_license_flags, store_license_flags, merge_license,
  load_license_flags-store_license_flags,
}
use openodin.License.Validate.{
  or_zero_time, check_embedded, check_holder, check_ref, differs, validate_license,
  validate_base_license,
}

-- The `modelType` that `setProps` sets.
abbrev license_node_type : Buffer
license_node_type = 1 ∷ 2 ∷ 1 ∷ []

-- `Math.max(a, b)`
unfoldable pub max_time : ℤ → ℤ → ℤ
max_time a b = if leb_ℤ a b then b else a

-- The props of the embedding license before the two flags are reset.
unfoldable pub extended_props : LicenseNodeProps → Buffer → ℤ → ℕ → LicenseNodeProps
extended_props p target_public_key creation_time extensions = record {
  base = record {
    node = record {
      model = record {
        model_type = some license_node_type;
        id1 = none;
        owner = p.target_public_key;
        creation_time = some creation_time;
        expire_time = p.expire_time;
      };
      id2 = none;
      parent_id = p.parent_id;
      base_node_config = p.base_node_config;
      base_node_transient_config = none;
      ref_id = p.ref_id;
      license_min_distance = none;
      license_max_distance = none;
      difficulty = none;
      difficulty_nonce = none;
      child_min_difficulty = none;
    };
    base_license_node_config = p.base_license_node_config;
    target_public_key = some target_public_key;
    terms = p.terms;
    extensions = some extensions;
    jump_peer_public_key = none;
    parent_path_hash = none;
    max_distance = none;
  };
  friend_level = none;
  friend_cert1 = none;
  friend_cert2 = none;
}

-- `flags2`, with the flags reset that are not inherited.
unfoldable pub reset_flags : BaseLicenseNodeFlags → BaseLicenseNodeFlags
reset_flags flags = record flags {
  node = record (flags.node) { has_rights_by_association = some false };
  allow_target_send_privately = some false;
}

unfoldable pub has_expired : Option ℤ → ℤ → Bool
has_expired none creation_time = false
has_expired (some expire_time) creation_time = leb_ℤ expire_time creation_time

unfoldable pub extend : LicenseNodeProps → Buffer → ℤ → LicenseNodeProps
unfolding extended_props reset_flags
extend p target_public_key creation_time =
    let props = extended_props p target_public_key creation_time (or_zero p.extensions - 1) in
    record props {
      base = store_license_flags (reset_flags (load_license_flags props.base)) props.base;
    }

unfoldable pub embed_at : LicenseNodeProps → Buffer → ℤ → Result (Option LicenseNodeProps)
unfolding extend has_expired
embed_at p target_public_key creation_time =
    if has_expired p.expire_time creation_time
    then ok none
    else if or_zero p.extensions == 0
    then error "Expected extensions to be equal or greater then 0"
    else ok (some (extend p target_public_key creation_time))

-- The time is `creationTime ?? Date.now()`.
unfoldable pub embed : LicenseNodeProps → Buffer → ℤ → Result (Option LicenseNodeProps)
unfolding embed_at max_time truthy
embed p target_public_key time =
    if not (truthy (load_license_flags p.base).allow_embed)
    then ok none
    else embed_at p target_public_key (max_time time (or_zero_time p.creation_time))
