-- ===== src/Node/Props.antt =====
-- The types of datamodel/level1/basenode/types.ts. Fields that are packed as
-- unsigned integers are naturals. The `signCert` of a node stands beside its props, as the list of
-- the certificate and those that issued it (Cert/Props).
use openodin.Prelude.{ℕ, Bool, Option}
use openodin.Prelude.Buffer.{Buffer}
use openodin.Model.Props.{BaseModelProps}

pub data BaseNodeConfig : Type 0 where
  is_leaf is_public is_licensed allow_embed allow_embed_move is_unique : BaseNodeConfig
  is_begin_restrictive_writer_mode is_end_restrictive_writer_mode : BaseNodeConfig
  is_indestructible has_rights_by_association disallow_parent_licensing : BaseNodeConfig
  only_own_children disallow_public_children bubble_trigger : BaseNodeConfig

-- The number of each bit in the enumeration.
abbrev pub bit_of : BaseNodeConfig → ℕ
bit_of is_leaf = 0
bit_of is_public = 1
bit_of is_licensed = 2
bit_of allow_embed = 3
bit_of allow_embed_move = 4
bit_of is_unique = 5
bit_of is_begin_restrictive_writer_mode = 6
bit_of is_end_restrictive_writer_mode = 7
bit_of is_indestructible = 8
bit_of has_rights_by_association = 9
bit_of disallow_parent_licensing = 10
bit_of only_own_children = 11
bit_of disallow_public_children = 12
bit_of bubble_trigger = 13

-- The only bit of `BaseNodeTransientConfig`.
abbrev pub is_inactive_bit : ℕ
is_inactive_bit = 0

abbrev pub max_license_distance : ℕ
max_license_distance = 4

pub record BaseNodeProps : Type 0 where
  pub model : BaseModelProps
  pub open model use *
  pub id2 : Option Buffer
  pub parent_id : Option Buffer
  pub base_node_config : Option ℕ
  pub base_node_transient_config : Option ℕ
  pub ref_id : Option Buffer
  pub license_min_distance : Option ℕ
  pub license_max_distance : Option ℕ
  pub difficulty : Option ℕ
  pub difficulty_nonce : Option Buffer
  pub child_min_difficulty : Option ℕ

pub record BaseNodeFlags : Type 0 where
  pub is_leaf : Option Bool
  pub is_public : Option Bool
  pub is_licensed : Option Bool
  pub allow_embed : Option Bool
  pub allow_embed_move : Option Bool
  pub is_unique : Option Bool
  pub is_begin_restrictive_write_mode : Option Bool
  pub is_end_restrictive_write_mode : Option Bool
  pub is_indestructible : Option Bool
  pub has_rights_by_association : Option Bool
  pub disallow_parent_licensing : Option Bool
  pub only_own_children : Option Bool
  pub disallow_public_children : Option Bool
  pub bubble_trigger : Option Bool
  pub is_inactive : Option Bool
