-- ===== src/Node/Flags/Roundtrip.antt =====
-- `storeFlags` and then `loadFlags`.
use openodin.Prelude.{ℕ, ◌≡◌, refl, Bool, Option, none, some, arith, ◌==◌, if◌then◌else◌}
use openodin.Model.Bits.{is_bit_set, written_bit}
use openodin.Node.Props.{BaseNodeProps, BaseNodeFlags}
use openodin.Node.Flags.{
  load_flags, store_flags, store_flag, flags_to_config, flags_to_transient_config,
}

-- The flag that is set, or else the old one.
abbrev pub override : Option Bool → Bool → Bool
override none old = old
override (some flag) old = flag

pub is_bit_set-store_flag :
    (bit : ℕ) (o : Option Bool) (config j : ℕ)
    → is_bit_set (store_flag bit o config) j
      ≡ (if bit == j then override o (is_bit_set config j) else is_bit_set config j)
unfolding store_flag
is_bit_set-store_flag bit none config j = ground arith
is_bit_set-store_flag bit (some flag) config j = written_bit config bit j flag

abbrev pub merged : Option Bool → Option Bool → Option Bool
merged none old = old
merged (some flag) old = some flag

-- The flags with the defined ones of `flags` put over those of `old`.
abbrev pub merge : BaseNodeFlags → BaseNodeFlags → BaseNodeFlags
merge flags old = record {
  is_leaf = merged flags.is_leaf old.is_leaf;
  is_public = merged flags.is_public old.is_public;
  is_licensed = merged flags.is_licensed old.is_licensed;
  allow_embed = merged flags.allow_embed old.allow_embed;
  allow_embed_move = merged flags.allow_embed_move old.allow_embed_move;
  is_unique = merged flags.is_unique old.is_unique;
  is_begin_restrictive_write_mode =
      merged flags.is_begin_restrictive_write_mode old.is_begin_restrictive_write_mode;
  is_end_restrictive_write_mode =
      merged flags.is_end_restrictive_write_mode old.is_end_restrictive_write_mode;
  is_indestructible = merged flags.is_indestructible old.is_indestructible;
  has_rights_by_association = merged flags.has_rights_by_association old.has_rights_by_association;
  disallow_parent_licensing = merged flags.disallow_parent_licensing old.disallow_parent_licensing;
  only_own_children = merged flags.only_own_children old.only_own_children;
  disallow_public_children = merged flags.disallow_public_children old.disallow_public_children;
  bubble_trigger = merged flags.bubble_trigger old.bubble_trigger;
  is_inactive = merged flags.is_inactive old.is_inactive;
}

pub some-override : (o : Option Bool) (old : Bool) → some (override o old) ≡ merged o (some old)
some-override none old = refl
some-override (some flag) old = refl

-- Flags that are stored are loaded again; those left undefined keep their stored value.
pub load_flags-store_flags :
    (flags : BaseNodeFlags) (props : BaseNodeProps)
    → load_flags (store_flags flags props) ≡ merge flags (load_flags props)
unfolding load_flags store_flags flags_to_config flags_to_transient_config
load_flags-store_flags flags props = simp (is_bit_set-store_flag, some-override)
