-- ===== src/Node/Flags.antt =====
-- The flags of a node and the two numbers that hold them: `loadFlags` and `storeFlags` of
-- datamodel/level1/basenode/BaseNode.ts.
pub mod Roundtrip
use openodin.Prelude.{ℕ, Bool, Option, none, some, or_zero}
use openodin.Model.Bits.{is_bit_set, set_bit}
use openodin.Node.Props.{
  BaseNodeProps, BaseNodeFlags, bit_of, is_leaf, is_public, is_licensed, allow_embed,
  allow_embed_move, is_unique, is_begin_restrictive_writer_mode, is_end_restrictive_writer_mode,
  is_indestructible, has_rights_by_association, disallow_parent_licensing, only_own_children,
  disallow_public_children, bubble_trigger, is_inactive_bit,
}

abbrev pub no_flags : BaseNodeFlags
no_flags = record {
  is_leaf = none;
  is_public = none;
  is_licensed = none;
  allow_embed = none;
  allow_embed_move = none;
  is_unique = none;
  is_begin_restrictive_write_mode = none;
  is_end_restrictive_write_mode = none;
  is_indestructible = none;
  has_rights_by_association = none;
  disallow_parent_licensing = none;
  only_own_children = none;
  disallow_public_children = none;
  bubble_trigger = none;
  is_inactive = none;
}

load_config_flags : ℕ → BaseNodeFlags → BaseNodeFlags
load_config_flags config flags = record flags {
  is_leaf = some (is_bit_set config (bit_of is_leaf));
  is_public = some (is_bit_set config (bit_of is_public));
  is_licensed = some (is_bit_set config (bit_of is_licensed));
  allow_embed = some (is_bit_set config (bit_of allow_embed));
  allow_embed_move = some (is_bit_set config (bit_of allow_embed_move));
  is_unique = some (is_bit_set config (bit_of is_unique));
  is_begin_restrictive_write_mode =
      some (is_bit_set config (bit_of is_begin_restrictive_writer_mode));
  is_end_restrictive_write_mode = some (is_bit_set config (bit_of is_end_restrictive_writer_mode));
  is_indestructible = some (is_bit_set config (bit_of is_indestructible));
  has_rights_by_association = some (is_bit_set config (bit_of has_rights_by_association));
  disallow_parent_licensing = some (is_bit_set config (bit_of disallow_parent_licensing));
  only_own_children = some (is_bit_set config (bit_of only_own_children));
  disallow_public_children = some (is_bit_set config (bit_of disallow_public_children));
  bubble_trigger = some (is_bit_set config (bit_of bubble_trigger));
}

load_transient_config_flags : ℕ → BaseNodeFlags → BaseNodeFlags
load_transient_config_flags config flags = record flags {
  is_inactive = some (is_bit_set config is_inactive_bit);
}

-- `super.loadFlags()` gives an object without flags.
unfoldable pub load_flags : BaseNodeProps → BaseNodeFlags
unfolding load_config_flags load_transient_config_flags
load_flags props =
    load_transient_config_flags (or_zero props.base_node_transient_config)
      (load_config_flags (or_zero props.base_node_config) no_flags)

-- `if (flag !== undefined) { config = SET_BIT(config, bit, flag); }`
unfoldable pub store_flag : ℕ → Option Bool → ℕ → ℕ
store_flag bit none config = config
store_flag bit (some flag) config = set_bit config bit flag

flags_to_config : BaseNodeFlags → ℕ → ℕ
unfolding store_flag
flags_to_config flags config =
    let c0 = store_flag (bit_of is_leaf) flags.is_leaf config in
    let c1 = store_flag (bit_of is_public) flags.is_public c0 in
    let c2 = store_flag (bit_of is_licensed) flags.is_licensed c1 in
    let c3 = store_flag (bit_of allow_embed) flags.allow_embed c2 in
    let c4 = store_flag (bit_of allow_embed_move) flags.allow_embed_move c3 in
    let c5 = store_flag (bit_of is_unique) flags.is_unique c4 in
    let c6 =
      store_flag (bit_of is_begin_restrictive_writer_mode) flags.is_begin_restrictive_write_mode
        c5 in
    let c7 =
      store_flag (bit_of is_end_restrictive_writer_mode) flags.is_end_restrictive_write_mode c6 in
    let c8 = store_flag (bit_of is_indestructible) flags.is_indestructible c7 in
    let c9 = store_flag (bit_of has_rights_by_association) flags.has_rights_by_association c8 in
    let c10 = store_flag (bit_of disallow_parent_licensing) flags.disallow_parent_licensing c9 in
    let c11 = store_flag (bit_of only_own_children) flags.only_own_children c10 in
    let c12 = store_flag (bit_of disallow_public_children) flags.disallow_public_children c11 in
    store_flag (bit_of bubble_trigger) flags.bubble_trigger c12

flags_to_transient_config : BaseNodeFlags → ℕ → ℕ
unfolding store_flag
flags_to_transient_config flags config = store_flag is_inactive_bit flags.is_inactive config

unfoldable pub store_flags : BaseNodeFlags → BaseNodeProps → BaseNodeProps
unfolding flags_to_config flags_to_transient_config
store_flags flags props = record props {
  base_node_config = some (flags_to_config flags (or_zero props.base_node_config));
  base_node_transient_config =
      some (flags_to_transient_config flags (or_zero props.base_node_transient_config));
}
