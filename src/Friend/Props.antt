-- ===== src/Friend/Props.antt =====
-- FriendCertProps of datamodel/level3/friendcert/types.ts with what it inherits, and the flag of
-- FriendCert. Texts stand as their UTF-8 bytes. The `signCert` of a certificate is not a field: it
-- is an argument of the functions that read it.
use openodin.Prelude.{ℕ, Bool, Option, or_zero}
use openodin.Prelude.Int.{ℤ}
use openodin.Prelude.Buffer.{Buffer}
use openodin.Model.Props.{BaseModelProps}
use openodin.Model.Bits.{is_bit_set}

pub record FriendCertProps : Type 0 where
  pub model : BaseModelProps
  pub open model use *
  pub constraints : Option Buffer
  pub license_max_expire_time : Option ℤ
  pub salt : Option Buffer
  pub friend_level : Option ℕ
  pub region : Option Buffer
  pub jurisdiction : Option Buffer
  pub friend_cert_config : Option ℕ

-- The only bit of `FriendCertConfig`.
abbrev pub hash_extender_public_key_bit : ℕ
hash_extender_public_key_bit = 0

-- `loadFlags().hashExtenderPublicKey`
abbrev pub hashes_extender_public_key : FriendCertProps → Bool
hashes_extender_public_key p =
    is_bit_set (or_zero p.friend_cert_config) hash_extender_public_key_bit
