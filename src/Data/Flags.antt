-- ===== src/Data/Flags.antt =====
-- BaseDataNodeConfig, BaseDataNodeFlags and `loadFlags` of datamodel/level2/basedatanode.
use openodin.Prelude.{ℕ, Bool, Option, some, or_zero}
use openodin.Model.Bits.{is_bit_set}
use openodin.Node.Props.{BaseNodeFlags}
use openodin.Node.Flags as NodeFlags
use openodin.Data.Props.{BaseDataNodeProps}

pub data BaseDataNodeConfig : Type 0 where
  is_destroy is_annotations_edit is_annotations_reaction : BaseDataNodeConfig

abbrev pub data_bit_of : BaseDataNodeConfig → ℕ
data_bit_of is_destroy = 0
data_bit_of is_annotations_edit = 1
data_bit_of is_annotations_reaction = 2

pub record BaseDataNodeFlags : Type 0 where
  pub node : BaseNodeFlags
  pub open node use *
  pub is_destroy : Option Bool
  pub is_annotation_edit : Option Bool
  pub is_annotation_reaction : Option Bool

load_base_data_node_config_flags : ℕ → BaseNodeFlags → BaseDataNodeFlags
load_base_data_node_config_flags config flags = record {
  node = flags;
  is_destroy = some (is_bit_set config (data_bit_of is_destroy));
  is_annotation_edit = some (is_bit_set config (data_bit_of is_annotations_edit));
  is_annotation_reaction = some (is_bit_set config (data_bit_of is_annotations_reaction));
}

unfoldable pub load_data_flags : BaseDataNodeProps → BaseDataNodeFlags
unfolding load_base_data_node_config_flags
load_data_flags p =
    load_base_data_node_config_flags (or_zero p.base_data_node_config) (NodeFlags.load_flags p.node)
