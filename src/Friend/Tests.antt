-- ===== src/Friend/Tests.antt =====
-- Two friends, and the certificate that one of them signs under.
use openodin.Prelude.{ℕ, ◌≡◌, refl, true, none, some, [], ◌∷◌, length}
use openodin.Prelude.Int.{pos}
use openodin.Prelude.Buffer.{Buffer, equals}
use openodin.Prelude.Compare.{compare_bytes}
use openodin.Prelude.Verdict.{accepted}
use openodin.Prelude.Result.{ok}
use openodin.Model.Props.{validate_model}
use openodin.Model.HashList.{hash_list}
use openodin.Cert.Props.{SignCert, sign_cert_type, loads, load}
use openodin.Cert.Validate.{validate_sign_cert}
use openodin.Cert.Validate.Chain.{IsChain, root, Within}
use openodin.Friend.Props.{FriendCertProps}
use openodin.Friend.Hash.{hash_friend_constraints}
use openodin.Friend.Mirror.{hash_friend_constraints-mirror}
use openodin.Friend.Validate.{validate_friend_cert}
use openodin.Friend.Validate.Granted.{IsFriendOf, validate_friend_cert-IsFriendOf}

abbrev friend : ℕ → ℕ → FriendCertProps
friend owner salt = record {
  model = record {
    model_type = some (2 ∷ 2 ∷ 1 ∷ []);
    id1 = none;
    owner = some (owner ∷ []);
    creation_time = some (pos 10);
    expire_time = some (pos 20);
  };
  constraints = some (7 ∷ []);
  license_max_expire_time = some (pos 40);
  salt = some (salt ∷ []);
  friend_level = some 1;
  region = none;
  jurisdiction = none;
  friend_cert_config = none;
}

-- A hash of the number of bytes.
abbrev count : Buffer → Buffer
count b = length b ∷ []

hashed : hash_friend_constraints count (friend 1 5) (friend 2 6) none ≡ ok (36 ∷ [])
unfolding hash_friend_constraints equals openodin.Model.Bits.is_bit_set hash_list compare_bytes
    openodin.Schema.Bytes.write_be openodin.Schema.Bytes.to_word
hashed = refl

hash_friend_constraints-mirror_example :
    hash_friend_constraints count (friend 2 6) (friend 1 5) none ≡ ok (36 ∷ [])
hash_friend_constraints-mirror_example =
    hash_friend_constraints-mirror count (friend 1 5) (friend 2 6) none refl hashed

abbrev cert : SignCert
cert = record {
  props = record {
    model = record {
      model_type = some sign_cert_type;
      id1 = none;
      owner = some (1 ∷ []);
      creation_time = some (pos 5);
      expire_time = some (pos 100);
    };
    constraints = none;
    target_max_expire_time = some (pos 50);
    target_type = some (2 ∷ 2 ∷ 1 ∷ []);
    base_sign_cert_config = none;
    countdown = none;
    locked_config = some 3;
    target_public_keys = some ((2 ∷ []) ∷ []);
    multisig_threshold = none;
  };
  packed = none;
}

friend_accepted :
    validate_friend_cert count true (some (pos 15)) (friend 1 5) (cert ∷ []) ≡ accepted
unfolding validate_friend_cert openodin.Cert.Validate.validate_base_cert validate_model loads
    validate_sign_cert load equals
friend_accepted = refl

validate_friend_cert-IsFriendOf_example :
    IsFriendOf (friend 1 5) (load cert).props
    × IsChain count (load cert) []
    × ((friend 1 5).owner ≡ (root (load cert) []).props.owner)
    × Within (root (load cert) []).props.target_max_expire_time (friend 1 5).expire_time
    × Within (root (load cert) []).props.target_max_expire_time (friend 1 5).license_max_expire_time
validate_friend_cert-IsFriendOf_example =
    validate_friend_cert-IsFriendOf count (some (pos 15)) (friend 1 5) cert [] friend_accepted
