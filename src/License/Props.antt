-- ===== src/License/Props.antt =====
-- The types of datamodel/level2/baselicensenode/types.ts and datamodel/level3/licensenode/types.ts.
-- Texts stand as their UTF-8 bytes. What a license holds embedded is an argument of the functions
-- that load it: nothing, or what `loadEmbedded` gives, an error if it cannot be decoded.
use openodin.Prelude.{ℕ, Option}
use openodin.Prelude.Buffer.{Buffer}
use openodin.Prelude.Result.{Result}
use openodin.Node.Props.{BaseNodeProps}
use openodin.Friend.Props.{FriendCertProps}

pub data BaseLicenseNodeConfig : Type 0 where
  allow_target_send_privately disallow_retro_licensing : BaseLicenseNodeConfig
  restrictive_mode_writer restrictive_mode_manager : BaseLicenseNodeConfig

abbrev pub license_bit_of : BaseLicenseNodeConfig → ℕ
license_bit_of allow_target_send_privately = 0
license_bit_of disallow_retro_licensing = 1
license_bit_of restrictive_mode_writer = 2
license_bit_of restrictive_mode_manager = 3

pub record BaseLicenseNodeProps : Type 0 where
  pub node : BaseNodeProps
  pub open node use *
  pub base_license_node_config : Option ℕ
  pub target_public_key : Option Buffer
  pub terms : Option Buffer
  pub extensions : Option ℕ
  pub jump_peer_public_key : Option Buffer
  pub parent_path_hash : Option Buffer
  pub max_distance : Option ℕ

-- `Option (Result …)` is a prop that is loaded: unset, or the outcome of decoding it.
abbrev pub Loaded : Type 0 → Type 0
Loaded A = Option (Result A)

pub record LicenseNodeProps : Type 0 where
  pub base : BaseLicenseNodeProps
  pub open base use *
  pub friend_level : Option ℕ
  pub friend_cert1 : Loaded FriendCertProps
  pub friend_cert2 : Loaded FriendCertProps
