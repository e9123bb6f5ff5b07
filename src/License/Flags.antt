-- ===== src/License/Flags.antt =====
-- `loadFlags` and `storeFlags` of datamodel/level2/baselicensenode/BaseLicenseNode.ts.
use openodin.Prelude.{ℕ, ◌≡◌, Bool, Option, some, or_zero}
use openodin.Model.Bits.{is_bit_set}
use openodin.Node.Props.{BaseNodeFlags}
use openodin.Node.Flags as NodeFlags
use openodin.Node.Flags.{store_flag}
use openodin.Node.Flags.Roundtrip.{
  merge, merged, load_flags-store_flags, is_bit_set-store_flag, some-override,
}
use openodin.License.Props.{
  BaseLicenseNodeProps, license_bit_of, allow_target_send_privately, disallow_retro_licensing,
  restrictive_mode_writer, restrictive_mode_manager,
}

pub record BaseLicenseNodeFlags : Type 0 where
  pub node : BaseNodeFlags
  pub open node use *
  pub allow_target_send_privately : Option Bool
  pub disallow_retro_licensing : Option Bool
  pub restrictive_mode_writer : Option Bool
  pub restrictive_mode_manager : Option Bool

load_base_license_node_config_flags : ℕ → BaseNodeFlags → BaseLicenseNodeFlags
load_base_license_node_config_flags config flags = record {
  node = flags;
  allow_target_send_privately =
      some (is_bit_set config (license_bit_of allow_target_send_privately));
  disallow_retro_licensing = some (is_bit_set config (license_bit_of disallow_retro_licensing));
  restrictive_mode_writer = some (is_bit_set config (license_bit_of restrictive_mode_writer));
  restrictive_mode_manager = some (is_bit_set config (license_bit_of restrictive_mode_manager));
}

unfoldable pub load_license_flags : BaseLicenseNodeProps → BaseLicenseNodeFlags
unfolding load_base_license_node_config_flags
load_license_flags p =
    load_base_license_node_config_flags (or_zero p.base_license_node_config)
      (NodeFlags.load_flags p.node)

base_license_node_flags_to_config : BaseLicenseNodeFlags → ℕ → ℕ
base_license_node_flags_to_config flags config =
    let c0 =
      store_flag (license_bit_of allow_target_send_privately) flags.allow_target_send_privately
        config in
    let c1 =
      store_flag (license_bit_of disallow_retro_licensing) flags.disallow_retro_licensing c0 in
    let c2 = store_flag (license_bit_of restrictive_mode_writer) flags.restrictive_mode_writer c1 in
    store_flag (license_bit_of restrictive_mode_manager) flags.restrictive_mode_manager c2

unfoldable pub store_license_flags :
    BaseLicenseNodeFlags → BaseLicenseNodeProps → BaseLicenseNodeProps
unfolding base_license_node_flags_to_config
store_license_flags flags p = record p {
  node = NodeFlags.store_flags flags.node p.node;
  base_license_node_config =
      some (base_license_node_flags_to_config flags (or_zero p.base_license_node_config));
}

-- The flags with the defined ones of the first put over those of the second.
abbrev pub merge_license : BaseLicenseNodeFlags → BaseLicenseNodeFlags → BaseLicenseNodeFlags
merge_license flags old = record {
  node = merge flags.node old.node;
  allow_target_send_privately =
      merged flags.allow_target_send_privately old.allow_target_send_privately;
  disallow_retro_licensing = merged flags.disallow_retro_licensing old.disallow_retro_licensing;
  restrictive_mode_writer = merged flags.restrictive_mode_writer old.restrictive_mode_writer;
  restrictive_mode_manager = merged flags.restrictive_mode_manager old.restrictive_mode_manager;
}

-- The flags of a license, those of BaseNode included, that are stored are loaded again; those left
-- undefined keep their stored value.
pub load_license_flags-store_license_flags :
    (flags : BaseLicenseNodeFlags) (p : BaseLicenseNodeProps)
    → load_license_flags (store_license_flags flags p) ≡ merge_license flags (load_license_flags p)
unfolding load_license_flags store_license_flags
load_license_flags-store_license_flags flags p =
    simp (load_flags-store_flags, is_bit_set-store_flag, some-override)
