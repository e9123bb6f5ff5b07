-- ===== src/Data/Copy.antt =====
-- `Copy`, `GetCopiedNode` and `LoadCopiedSignatures` of datamodel/level3/datanode/DataNode.ts and
-- `LoadSignature` of datamodel/BaseModel.ts. The decoding of a packed signature, and of packed
-- signatures, by the schema is an argument.
pub mod Restores
use openodin.Prelude.{
  ℕ, suc, Bool, true, false, not, ◌||◌, Option, none, some, List, [], ◌∷◌, if◌then◌else◌, is_set,
  length, get_elem?, ◌==◌,
}
use openodin.Prelude.Int.{ℤ, pos, negsuc, leb_ℤ}
use openodin.Prelude.Buffer.{Buffer, equals}
use openodin.Prelude.Result.{Result, ok, assert, ◌>>=◌, ◌>>◌}
use openodin.Data.Props.{SignatureObject, BufferOr, packed, loaded, DataNodeProps}

-- `time ?? otherwise`
unfoldable pub time_or : ℤ → Option ℤ → ℤ
time_or otherwise none = otherwise
time_or otherwise (some time) = time

-- `copiedSignatures?.length`, as a condition: of the bytes or of the list.
unfoldable pub has_copied : Option (BufferOr (List SignatureObject)) → Bool
has_copied none = false
has_copied (some (packed bytes)) = not (length bytes == 0)
has_copied (some (loaded signatures)) = not (length signatures == 0)

-- `b && a?.equals(b)`
unfoldable pub same_id : Option Buffer → Option Buffer → Bool
same_id (some a) (some b) = equals a b
same_id _ _ = false

abbrev pub as_loaded : Option SignatureObject → Option (BufferOr SignatureObject)
as_loaded none = none
as_loaded (some signature) = some (loaded signature)

-- `signatures[i]`
unfoldable pub signature_at : List SignatureObject → ℕ → Option (BufferOr SignatureObject)
signature_at signatures i = as_loaded (get_elem? signatures i)

unfoldable pub load : {A : Type 0} → (Buffer → Result A) → BufferOr A → Result A
load unpack (packed bytes) = unpack bytes
load unpack (loaded value) = ok value

-- The original of a copy whose signatures are loaded, as the source sets it before its checks.
unfoldable pub original : DataNodeProps → List SignatureObject → DataNodeProps
original p signatures = record p {
  base = record (p.base) {
    node = record (p.node) {
      model = record (p.model) {
        id1 = p.id2;
        creation_time =
            if is_set p.copied_creation_time then p.copied_creation_time else p.creation_time;
      };
      id2 = none;
      parent_id = p.copied_parent_id;
    };
  };
  signature1 = signature_at signatures 0;
  signature2 = signature_at signatures 1;
  signature3 = signature_at signatures 2;
  copied_signatures = none;
  copied_parent_id = none;
  copied_creation_time = none;
}

-- `props.copiedCreationTime > (props.creationTime ?? 0)`
unfoldable pub is_older : Option ℤ → Option ℤ → Bool
unfolding time_or
is_older none creation_time = false
is_older (some copied_time) creation_time = not (leb_ℤ copied_time (time_or (pos 0) creation_time))

unfoldable pub load_copied :
    (Buffer → Result (List SignatureObject))
    → Option (BufferOr (List SignatureObject))
    → Result (List SignatureObject)
unfolding load
load_copied unpack none = ok []
load_copied unpack (some signatures) = load unpack signatures

unfoldable pub get_copied_node :
    (Buffer → Result (List SignatureObject)) → DataNodeProps → Result (Option DataNodeProps)
unfolding has_copied load_copied original is_older same_id
get_copied_node unpack p = do
  assert (has_copied p.copied_signatures) "Expected copiedSignatures"
  signatures ← load_copied unpack p.copied_signatures
  ok (
      if is_older p.copied_creation_time p.creation_time || same_id p.parent_id p.copied_parent_id
      then none
      else some (original p signatures))

-- One `if (props.signature1)` of `Copy`, before the signatures that follow.
unfoldable pub push_signature :
    (Buffer → Result SignatureObject)
    → Option (BufferOr SignatureObject)
    → Result (List SignatureObject)
    → Result (List SignatureObject)
unfolding load
push_signature unpack none rest = rest
push_signature unpack (some signature) rest = do
  value ← load unpack signature
  values ← rest
  ok (value ∷ values)

unfoldable pub loaded_signatures :
    (Buffer → Result SignatureObject) → DataNodeProps → Result (List SignatureObject)
unfolding push_signature
loaded_signatures unpack p =
    push_signature unpack p.signature1
      (push_signature unpack p.signature2 (push_signature unpack p.signature3 (ok [])))

-- The copy, as the source sets it: without a time of its own it keeps the times of the original.
unfoldable pub copied : DataNodeProps → Buffer → Option ℤ → List SignatureObject → DataNodeProps
copied p parent_id creation_time signatures = record p {
  base = record (p.base) {
    node = record (p.node) {
      model = record (p.model) {
        creation_time = if is_set creation_time then creation_time else p.creation_time;
      };
      id2 = p.id1;
      parent_id = some parent_id;
    };
  };
  signature1 = none;
  signature2 = none;
  signature3 = none;
  copied_signatures = some (loaded signatures);
  copied_parent_id = p.parent_id;
  copied_creation_time = if is_set creation_time then p.creation_time else p.copied_creation_time;
}

unfoldable pub copy :
    (Buffer → Result SignatureObject) → DataNodeProps → Buffer → Option ℤ → Result DataNodeProps
unfolding has_copied same_id loaded_signatures copied time_or
copy unpack p parent_id creation_time = do
  assert (not (has_copied p.copied_signatures)) "Cannot copy a copied node"
  assert (not (is_set p.id2)) "Cannot copy node with id2 set"
  assert (is_set p.parent_id) "Expected parentId to have been set"
  assert (not (same_id p.parent_id (some parent_id)))
      "parentId of copy node cannot be same as original"
  signatures ← loaded_signatures unpack p
  let props = copied p parent_id creation_time signatures
  assert (leb_ℤ (time_or (pos 0) p.creation_time) (time_or (negsuc 0) props.creation_time))
      "copy node's creationTime must be same or greater"
  ok props
