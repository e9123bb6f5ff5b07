-- ===== src/Node/Validate.antt =====
-- `BaseNode.validate` of datamodel/level1/basenode/BaseNode.ts without its last block, which is in
-- Node/Signed.
pub mod Rules
use openodin.Prelude.{
  ℕ, Bool, true, false, not, ◌||◌, ◌&&◌, Option, none, some, ltb, ◌==◌, is_set, or_zero,
}
use openodin.Prelude.Int.{ℤ}
use openodin.Prelude.Verdict.{Verdict, accepted, refused, refuse_if, when, ◌>>◌}
use openodin.Model.Props.{validate_model, has_bytes}
use openodin.Node.Props.{BaseNodeProps, BaseNodeFlags, max_license_distance}
use openodin.Node.Flags.{load_flags}

-- A flag as a condition.
unfoldable pub truthy : Option Bool → Bool
truthy none = false
truthy (some flag) = flag

check_parent : BaseNodeProps → Verdict
check_parent p = do
  refuse_if (not (has_bytes p.parent_id)) "Missing parentId"
  refuse_if (has_bytes p.difficulty_nonce && or_zero p.difficulty == 0)
      "Node cannot have difficultyNonce without difficulty set"

-- Both operands of the second test are `licenseMinDistance`, as in the code.
check_licensed : BaseNodeFlags → BaseNodeProps → Verdict
check_licensed f p = do
  refuse_if (truthy f.is_public && truthy f.is_licensed)
      "Node cannot be licensed and public at the same time"
  when (not (truthy f.is_licensed)) (
      refuse_if (is_set p.license_min_distance || is_set p.license_min_distance)
        "License min and max distance cannot be set if node is not licensed")

check_association : BaseNodeFlags → BaseNodeProps → Verdict
check_association f p = when (truthy f.has_rights_by_association) do
  refuse_if (truthy f.is_licensed || truthy f.is_public)
      "A rightsByAssociation node must be private"
  refuse_if (not (has_bytes p.ref_id))
      "A rightsByAssociation node must have its refId set to the id1 of the node it is associating with"
  refuse_if (truthy f.allow_embed) "A rightsByAssociation node cannot have allowEmbed set"

check_distances : Option ℕ → Option ℕ → Verdict
check_distances none none = accepted
check_distances none (some most) =
    refused "licenseMinDistance and licenseMaxDistance must both be set if set"
check_distances (some least) none =
    refused "licenseMinDistance and licenseMaxDistance must both be set if set"
check_distances (some least) (some most) = do
  refuse_if (ltb most least) "License min distance cannot be greater than max distance"
  refuse_if (ltb max_license_distance most) "License max distance cannot be greater than 4"

check_embed : BaseNodeFlags → BaseNodeProps → Verdict
check_embed f p = do
  refuse_if (truthy f.allow_embed_move && not (truthy f.allow_embed))
      "Allow embed move cannot be set if not allow embed is set"
  refuse_if (truthy f.allow_embed_move && ltb 0 (or_zero p.license_min_distance))
      "Allow embed move cannot be set if licenseMinDistance > 0"

check_leaf : BaseNodeFlags → BaseNodeProps → Verdict
check_leaf f p = when (truthy f.is_leaf) do
  refuse_if (truthy f.is_begin_restrictive_write_mode || truthy f.is_end_restrictive_write_mode)
      "A leaf node cannot have beginRestrictiveWriterMode or endRestrictiveWriterMode set"
  refuse_if (truthy f.only_own_children) "A leaf node cannot have the onlyOwnChildren flag set"
  refuse_if (truthy f.disallow_public_children)
      "A leaf node cannot have the disallowPublicChildren flag set"
  refuse_if (is_set p.child_min_difficulty) "A leaf node cannot have childMinDifficulty set"

unfoldable pub validate_node : BaseNodeProps → Option ℤ → Verdict
unfolding truthy check_parent check_licensed check_association check_distances check_embed
    check_leaf
validate_node p time = do
  validate_model p.model time
  check_parent p
  check_licensed (load_flags p) p
  check_association (load_flags p) p
  check_distances p.license_min_distance p.license_max_distance
  check_embed (load_flags p) p
  check_leaf (load_flags p) p

-- `usesParentLicense`
unfoldable pub uses_parent_license : BaseNodeProps → Bool
unfolding truthy
uses_parent_license p = truthy (load_flags p).is_licensed && ltb 0 (or_zero p.license_max_distance)
