-- ===== src/Data/Props.antt =====
-- The types of datamodel/level2/basedatanode/types.ts and datamodel/level3/datanode/types.ts, with
-- the signatures of datamodel/types.ts. Texts stand as their UTF-8 bytes. The prop `embedded` is left
-- out: a copy carries it over without reading it.
use openodin.Prelude.{ℕ, Option, List}
use openodin.Prelude.Int.{ℤ}
use openodin.Prelude.Buffer.{Buffer}
use openodin.Node.Props.{BaseNodeProps}

pub record SignatureObject : Type 0 where
  pub index : ℕ
  pub type : ℕ
  pub signature : Buffer

-- `Buffer | A`
pub data BufferOr (A : Type 0) : Type 0 where
  packed : Buffer → BufferOr A
  loaded : A → BufferOr A

pub record BaseDataNodeProps : Type 0 where
  pub node : BaseNodeProps
  pub open node use *
  pub content_type : Option Buffer
  pub data_field : Option Buffer
  pub data2 : Option ℕ
  pub blob_hash : Option Buffer
  pub blob_length : Option ℕ
  pub base_data_node_config : Option ℕ
  pub annotations : Option Buffer

pub record DataNodeProps : Type 0 where
  pub base : BaseDataNodeProps
  pub open base use *
  pub signature1 : Option (BufferOr SignatureObject)
  pub signature2 : Option (BufferOr SignatureObject)
  pub signature3 : Option (BufferOr SignatureObject)
  pub copied_signatures : Option (BufferOr (List SignatureObject))
  pub copied_parent_id : Option Buffer
  pub copied_creation_time : Option ℤ
