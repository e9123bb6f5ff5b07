-- ===== src/Data/Tests.antt =====
-- A data node signed twice, copied under another parent with a later creation time, and nodes that
-- embed each other.
use openodin.Prelude.{ℕ, ◌≡◌, refl, true, none, some, List, [], ◌∷◌}
use openodin.Prelude.Int.{pos}
use openodin.Prelude.Buffer.{Buffer, equals}
use openodin.Prelude.Result.{Result, ok, error}
use openodin.Data.Props.{SignatureObject, packed, loaded, DataNodeProps}
use openodin.Prelude.Verdict.{accepted}
use openodin.Data.Validate.{DataNode, validate_data_node}
use openodin.Data.Validate.Copied.{IsCopy, validate_data_node-IsCopy}
use openodin.Data.Validate.Embedded.{AllEmbed, KeepsPrivate, validate_data_node-KeepsPrivate}
use openodin.Data.Copy.{has_copied, time_or, get_copied_node, copy}
use openodin.Data.Copy.Restores.{IsDecoded, is_signed, get_copied_node-copy}

abbrev signature : ℕ → SignatureObject
signature index = record { index = index; type = 1; signature = index ∷ [] }

-- A packed signature is the byte of its index.
abbrev unpack : Buffer → Result SignatureObject
unpack (index ∷ []) = ok (signature index)
unpack _ = error "Could not unpack"

abbrev unpack_copied : Buffer → Result (List SignatureObject)
unpack_copied bytes = error "Could not unpack"

abbrev data_node : DataNodeProps
data_node = record {
  base = record {
    node = record {
      model = record {
        model_type = some (0 ∷ 1 ∷ 1 ∷ []);
        id1 = some (8 ∷ []);
        owner = some (1 ∷ []);
        creation_time = some (pos 10);
        expire_time = none;
      };
      id2 = none;
      parent_id = some (9 ∷ []);
      base_node_config = none;
      base_node_transient_config = none;
      ref_id = none;
      license_min_distance = none;
      license_max_distance = none;
      difficulty = none;
      difficulty_nonce = none;
      child_min_difficulty = none;
    };
    content_type = none;
    data_field = some (1 ∷ 2 ∷ []);
    data2 = none;
    blob_hash = none;
    blob_length = none;
    base_data_node_config = none;
    annotations = none;
  };
  signature1 = some (loaded (signature 0));
  signature2 = some (packed (1 ∷ []));
  signature3 = none;
  copied_signatures = none;
  copied_parent_id = none;
  copied_creation_time = none;
}

-- Under the same parent there is no copy.
same_parent :
    copy unpack data_node (9 ∷ []) none ≡ error "parentId of copy node cannot be same as original"
unfolding copy equals
same_parent = refl

earlier :
    copy unpack data_node (7 ∷ []) (some (pos 9))
    ≡ error "copy node's creationTime must be same or greater"
unfolding copy equals
earlier = refl

get_copied_node-copy_example :
    (q : DataNodeProps) × (copy unpack data_node (7 ∷ []) (some (pos 12)) ≡ ok q)
    × (q.id2 ≡ some (8 ∷ []))
    × (q.parent_id ≡ some (7 ∷ []))
    × (get_copied_node unpack_copied q
        ≡ ok (
            some (record data_node {
              signature1 = some (loaded (signature 0));
              signature2 = some (loaded (signature 1));
            })))
unfolding has_copied equals time_or IsDecoded is_signed openodin.Data.Copy.load
get_copied_node-copy_example =
    get_copied_node-copy unpack unpack_copied data_node (9 ∷ []) (7 ∷ []) (pos 10) (some (pos 12))
      (some (loaded (signature 0))) (some (loaded (signature 1))) none refl refl refl refl refl refl
      refl refl (signature 0, refl, refl) (signature 1, refl, refl) refl

abbrev count : Buffer → Buffer
count b = []

abbrev held : DataNodeProps → DataNode
held props = record { props = props; certs = []; hash_constraints = λ locked_config. [] }

abbrev copy_of : DataNodeProps → DataNodeProps
copy_of p = record p {
  base = record (p.base) { node = record (p.node) { id2 = p.id1; parent_id = some (7 ∷ []) } };
  signature1 = none;
  signature2 = none;
  copied_signatures = some (loaded (signature 0 ∷ signature 1 ∷ []));
  copied_parent_id = p.parent_id;
}

copy_accepted :
    validate_data_node count true (some (pos 15)) unpack_copied (held (copy_of data_node)) []
    ≡ accepted
unfolding validate_data_node openodin.Node.Signed.validate_deep openodin.Node.Validate.validate_node
    openodin.Model.Props.validate_model openodin.Node.Flags.load_flags
    openodin.Model.Bits.is_bit_set openodin.Data.Flags.load_data_flags get_copied_node equals
copy_accepted = refl

validate_data_node-IsCopy_example :
    IsCopy count true (some (pos 15)) unpack_copied (held (copy_of data_node))
unfolding has_copied
validate_data_node-IsCopy_example =
    validate_data_node-IsCopy count true (some (pos 15)) unpack_copied (held (copy_of data_node)) []
      refl copy_accepted

-- Config 8 has the bit allowEmbed: private nodes of one owner.
abbrev embeddable : DataNode
embeddable = held (record data_node {
  base = record (data_node.base) { node = record (data_node.node) { base_node_config = some 8 } };
})

stack_accepted :
    validate_data_node count true
      (some (pos 15))
      unpack_copied
      embeddable
      (ok embeddable ∷ ok embeddable ∷ [])
    ≡ accepted
unfolding validate_data_node openodin.Node.Signed.validate_deep openodin.Node.Validate.validate_node
    openodin.Model.Props.validate_model openodin.Node.Flags.load_flags
    openodin.Model.Bits.is_bit_set openodin.Data.Flags.load_data_flags
    openodin.Data.Validate.check_privacy equals openodin.Data.Validate.check_place
stack_accepted = refl

validate_data_node-KeepsPrivate_example :
    AllEmbed embeddable.props.node (ok embeddable ∷ ok embeddable ∷ [])
    × KeepsPrivate embeddable.props.node (ok embeddable ∷ ok embeddable ∷ [])
validate_data_node-KeepsPrivate_example =
    validate_data_node-KeepsPrivate count (some (pos 15)) unpack_copied embeddable
      (ok embeddable ∷ ok embeddable ∷ []) stack_accepted
