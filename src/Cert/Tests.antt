-- ===== src/Cert/Tests.antt =====
-- A certificate and the one that issued it.
use openodin.Prelude.{◌≡◌, ◌+◌, ◌≤◌, refl, true, none, some, [], ◌∷◌, length, or_zero}
use openodin.Prelude.Int.{pos}
use openodin.Prelude.Buffer.{Buffer, equals}
use openodin.Model.Props.{validate_model}
use openodin.Model.Bits.{is_bit_set}
use openodin.Prelude.Verdict.{accepted}
use openodin.Model.Constraints.{
  Packed, hash_constraints, hash_specific_fields, is_flag_locked, locked_fields, flag_updates,
}
use openodin.Cert.Props.{
  SignCertProps, SignCert, sign_cert_type, base_loads, load_base, loads, load,
}
use openodin.Cert.Validate.{sign_cert_constraints, validate_sign_cert}
use openodin.Cert.Validate.Chain.{
  IsChain, root, Within, validate_sign_cert-IsChain, accepted-Within-root,
}

abbrev pub hash : Buffer → Buffer
hash b = b

abbrev packed : Packed
packed index = some (index ∷ [])

abbrev child_props : SignCertProps
child_props = record {
  model = record {
    model_type = some sign_cert_type;
    id1 = none;
    owner = some (1 ∷ []);
    creation_time = some (pos 10);
    expire_time = some (pos 20);
  };
  constraints = none;
  target_max_expire_time = some (pos 40);
  target_type = some (4 ∷ 0 ∷ 1 ∷ []);
  base_sign_cert_config = none;
  countdown = none;
  locked_config = none;
  target_public_keys = some ((2 ∷ []) ∷ []);
  multisig_threshold = none;
}

abbrev pub child : SignCert
child = record { props = child_props; packed = some packed }

abbrev pub parent : SignCert
parent = record {
  props = record {
    model = record {
      model_type = some sign_cert_type;
      id1 = none;
      owner = some (1 ∷ []);
      creation_time = some (pos 5);
      expire_time = some (pos 100);
    };
    constraints = some (sign_cert_constraints hash 1 packed child_props);
    target_max_expire_time = some (pos 50);
    target_type = some sign_cert_type;
    base_sign_cert_config = none;
    countdown = some 1;
    locked_config = some 1;
    target_public_keys = some ((1 ∷ []) ∷ []);
    multisig_threshold = none;
  };
  packed = none;
}

pub child_accepted : validate_sign_cert hash true (some (pos 15)) child (parent ∷ []) ≡ accepted
unfolding validate_sign_cert validate_model base_loads load_base equals loads load
    sign_cert_constraints hash_constraints hash_specific_fields is_bit_set is_flag_locked
    locked_fields flag_updates
child_accepted = refl

validate_sign_cert-IsChain_example : IsChain hash child (parent ∷ [])
validate_sign_cert-IsChain_example =
    validate_sign_cert-IsChain hash (some (pos 15)) child (parent ∷ []) child_accepted

accepted-Within-root_example :
    (child.props.owner ≡ (root child (parent ∷ [])).props.owner)
    × (or_zero child.props.countdown + length (parent ∷ [])
        ≤ or_zero (root child (parent ∷ [])).props.countdown)
    × Within (root child (parent ∷ [])).props.target_max_expire_time child.props.expire_time
    × Within
        (root child (parent ∷ [])).props.target_max_expire_time
        child.props.target_max_expire_time
accepted-Within-root_example =
    accepted-Within-root hash (some (pos 15)) child parent [] child_accepted
