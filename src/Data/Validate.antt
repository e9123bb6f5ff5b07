-- ===== src/Data/Validate.antt =====
-- `validate` of datamodel/level2/basedatanode/BaseDataNode.ts and of
-- datamodel/level3/datanode/DataNode.ts.
pub mod Copied
pub mod Embedded
use openodin.Prelude.{
  ℕ, Bool, true, false, not, ◌||◌, ◌&&◌, Option, none, some, List, [], ◌∷◌, is_set, if◌then◌else◌,
}
use openodin.Prelude.Int.{ℤ}
use openodin.Prelude.Buffer.{Buffer, equals}
use openodin.Prelude.Verdict.{Verdict, accepted, refused, thrown, refuse_if, when, wrap, ◌>>◌}
use openodin.Prelude.Result.{Result, ok, error}
use openodin.Cert.Props.{SignCertProps, SignCert, loads, load}
use openodin.Cert.Validate.{validate_sign_cert}
use openodin.Node.Props.{BaseNodeProps}
use openodin.Node.Flags as NodeFlags
use openodin.Node.Validate.{validate_node, truthy}
use openodin.Node.Signed.{match_sign_cert, validate_deep}
use openodin.Data.Props.{SignatureObject, BaseDataNodeProps, DataNodeProps}
use openodin.Data.Flags.{BaseDataNodeFlags, load_data_flags}
use openodin.Data.Copy.{has_copied, same_id, get_copied_node}

-- A node, the certificate that it holds with its issuers, and `hashConstraints` of the packed node.
pub record DataNode : Type 0 where
  pub props : DataNodeProps
  pub certs : List SignCert
  pub hash_constraints : ℕ → Buffer

unfoldable pub check_data_props : BaseDataNodeProps → BaseDataNodeFlags → Verdict
check_data_props p f = do
  when (is_set p.blob_hash || is_set p.blob_length) (
      refuse_if (not (is_set p.blob_hash) || not (is_set p.blob_length))
        "blobHash and blobLength must both be set, if set")
  refuse_if (truthy f.is_annotation_edit && truthy f.is_annotation_reaction)
      "Annotation edit and annotation reaction cannot be set together"
  when (truthy f.is_destroy) (
      refuse_if (truthy f.is_annotation_edit || truthy f.is_annotation_reaction)
        "Data nodes flagged as isDestroy cannot be annotation nodes")

-- `!flags.isPublic && !flags.isLicensed`
abbrev pub is_private : BaseNodeProps → Bool
is_private p =
    not (truthy (NodeFlags.load_flags p).is_public)
    && not (truthy (NodeFlags.load_flags p).is_licensed)

-- `a && b && !a.equals(b)`
abbrev pub are_unlike : Option Buffer → Option Buffer → Bool
are_unlike (some a) (some b) = not (equals a b)
are_unlike _ _ = false

-- The checks against an embedded node that is private, and against one that may not be moved.
unfoldable pub check_privacy : BaseNodeProps → BaseNodeProps → Verdict
check_privacy p e = do
  refuse_if
      (truthy (NodeFlags.load_flags p).is_public || truthy (NodeFlags.load_flags p).is_licensed)
      "Embedding node must also be private when embedded node is private"
  refuse_if (are_unlike e.owner p.owner)
      "Owner of embedding node must be same as the embedded node, since it is private"

unfoldable pub check_place : BaseNodeProps → BaseNodeProps → Verdict
check_place p e =
    refuse_if (are_unlike p.parent_id e.parent_id)
      "Embedded node does not have allowEmbedMove set, which is needed since parentIds are not the same"

-- The checks of a node against the embedded one, which is accepted.
unfoldable pub check_embedding : BaseNodeProps → BaseNodeProps → Verdict
check_embedding p e = do
  refuse_if (not (truthy (NodeFlags.load_flags e).allow_embed))
      "Embedded node does not allow embedding"
  when (is_private e) (check_privacy p e)
  when (not (truthy (NodeFlags.load_flags e).allow_embed_move)) (check_place p e)

-- `matchSignCert` of a node that is not packed, whose `hashConstraints` throws. It is called last.
unfoldable pub match_unpacked : BaseNodeProps → SignCertProps → Verdict
match_unpacked p q = do
  match_sign_cert (λ locked_config. []) p (record q { constraints = none }) none
  if is_set q.constraints
      then thrown "Expected to been packed before calling hashConstraints"
      else accepted

module _ (blake2b : Buffer → Buffer) (deep : Bool) (time : Option ℤ) where
  unfoldable pub validate_unpacked : BaseNodeProps → List SignCert → Verdict
  unfolding match_unpacked
  validate_unpacked p [] = validate_node p time
  validate_unpacked p (c ∷ issuers) = do
    validate_node p time
    loads c
    wrap "Could not validate signCert: " (validate_sign_cert blake2b true time (load c) issuers)
    wrap "Could not match signCert: " (match_unpacked p (load c).props)

  -- `super.validate(deepValidate, time)` of `DataNode.validate`.
  unfoldable pub validate_base_data_node : DataNode → Verdict
  unfolding check_data_props
  validate_base_data_node n = do
    if deep
        then validate_deep n.hash_constraints blake2b n.props.node n.certs time
        else validate_node n.props.node time
    check_data_props n.props.base (load_data_flags n.props.base)

  -- The same of the original that is got back from a copy, and is not packed.
  unfoldable pub validate_base_original : DataNodeProps → List SignCert → Verdict
  unfolding check_data_props validate_unpacked
  validate_base_original q certs = do
    if deep then validate_unpacked q.node certs else validate_node q.node time
    check_data_props q.base (load_data_flags q.base)

  module _ (unpack_copied : Buffer → Result (List SignatureObject)) where
    -- The validation of the original in a copy, when one is got back.
    unfoldable pub check_original :
        DataNode → (DataNodeProps → Verdict) → Result (Option DataNodeProps) → Verdict
    unfolding same_id validate_base_original
    check_original n check_embedded (error message) = thrown message
    check_original n check_embedded (ok none) = refused "The node does not validate as a copy"
    check_original n check_embedded (ok (some q)) = do
      refuse_if (same_id q.parent_id n.props.parent_id) "Copied node cannot have same parentId"
      validate_base_original q n.certs
      when deep (check_embedded q)

    -- `validate`, with the checks on what is embedded, which hold the original to them as well.
    unfoldable pub validate_with : DataNode → (DataNodeProps → Verdict) → Verdict
    unfolding validate_base_data_node check_original has_copied
    validate_with n check_embedded = do
      validate_base_data_node n
      when (has_copied n.props.copied_signatures)
          (check_original n check_embedded (get_copied_node unpack_copied n.props))
      when (has_copied n.props.copied_signatures)
          (refuse_if (not (is_set n.props.id2)) "A copy node must have id2 set")
      when deep (check_embedded n.props)

    -- `validate` of a node that embeds the first of the others, which embeds the next.
    unfoldable pub validate_data_node : DataNode → List (Result DataNode) → Verdict
    unfolding validate_with check_embedding
    validate_data_node n [] = validate_with n (λ p. accepted)
    validate_data_node n (error message ∷ rest) = validate_with n (λ p. thrown message)
    validate_data_node n (ok e ∷ rest) =
        let validated = validate_data_node e rest in
        validate_with n (λ p.
          wrap "Could not validate embedded: " validated >> check_embedding p.node e.props.node)
