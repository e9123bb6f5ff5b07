-- ===== src/Node/Tests.antt =====
-- A node and the certificate that it was signed under.
use openodin.Prelude.{ℕ, ◌≡◌, ◌≤◌, ◌↔◌, refl, true, false, none, some, [], ◌∷◌, length, or_zero}
use openodin.Prelude.Int.{pos}
use openodin.Prelude.Buffer.{Buffer, equals}
use openodin.Prelude.Verdict.{accepted}
use openodin.Model.Props.{validate_model}
use openodin.Model.Bits.{is_bit_set}
use openodin.Cert.Props.{SignCert, sign_cert_type, loads, load}
use openodin.Cert.Validate.{validate_sign_cert}
use openodin.Cert.Validate.Chain.{IsChain, root, Within}
use openodin.Node.Props.{BaseNodeProps, BaseNodeFlags}
use openodin.Node.Flags.{no_flags, load_flags, store_flags}
use openodin.Node.Flags.Roundtrip.{merge, load_flags-store_flags}
use openodin.Node.Validate.{validate_node, truthy}
use openodin.Node.Validate.Rules.{FollowsRules, validate_node_iff}
use openodin.Node.Signed.{validate_deep, match_sign_cert}
use openodin.Node.Signed.Authority.{IsSignedBy, validate_deep-IsSignedBy}

-- A licensed node: config 4 has the bit `isLicensed` set.
abbrev node : BaseNodeProps
node = record {
  model = record {
    model_type = some (4 ∷ 0 ∷ 1 ∷ []);
    id1 = none;
    owner = some (1 ∷ []);
    creation_time = some (pos 10);
    expire_time = some (pos 20);
  };
  id2 = none;
  parent_id = some (9 ∷ []);
  base_node_config = some 4;
  base_node_transient_config = none;
  ref_id = none;
  license_min_distance = some 0;
  license_max_distance = some 1;
  difficulty = none;
  difficulty_nonce = none;
  child_min_difficulty = none;
}

abbrev cert : SignCert
cert = record {
  props = record {
    model = record {
      model_type = some sign_cert_type;
      id1 = none;
      owner = some (1 ∷ []);
      creation_time = some (pos 5);
      expire_time = some (pos 100);
    };
    constraints = some (3 ∷ []);
    target_max_expire_time = some (pos 50);
    target_type = some (4 ∷ 0 ∷ 1 ∷ []);
    base_sign_cert_config = none;
    countdown = none;
    locked_config = some 3;
    target_public_keys = some ((2 ∷ []) ∷ []);
    multisig_threshold = none;
  };
  packed = none;
}

abbrev hash : Buffer → Buffer
hash b = b

abbrev constraints_of : ℕ → Buffer
constraints_of locked_config = locked_config ∷ []

validate_node_iff_example :
    (validate_node node (some (pos 15)) ≡ accepted)
    ↔ ((validate_model node.model (some (pos 15)) ≡ accepted) × FollowsRules (load_flags node) node)
validate_node_iff_example = validate_node_iff node (some (pos 15))

abbrev some_flags : BaseNodeFlags
some_flags = record no_flags { is_public = some true; is_licensed = some false }

load_flags-store_flags_example :
    load_flags (store_flags some_flags node) ≡ merge some_flags (load_flags node)
load_flags-store_flags_example = load_flags-store_flags some_flags node

node_accepted : validate_deep constraints_of hash node (cert ∷ []) (some (pos 15)) ≡ accepted
unfolding validate_deep validate_node validate_model truthy load_flags is_bit_set loads load equals
    validate_sign_cert match_sign_cert
node_accepted = refl

validate_deep-IsSignedBy_example :
    (validate_node node (some (pos 15)) ≡ accepted)
    × IsSignedBy hash constraints_of node (load cert).props
    × IsChain hash (load cert) []
    × (node.owner ≡ (root (load cert) []).props.owner)
    × (length {A = SignCert} [] ≤ or_zero (root (load cert) []).props.countdown)
    × Within (root (load cert) []).props.target_max_expire_time node.expire_time
validate_deep-IsSignedBy_example =
    validate_deep-IsSignedBy hash constraints_of node cert [] (some (pos 15)) node_accepted
