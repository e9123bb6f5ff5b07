-- ===== src/License/Tests.antt =====
-- A license for a node, and one that extends it for another.
use openodin.Prelude.{
  is_set, ℕ, ◌+◌, ◌≤◌, ◌≡◌, ◌↔◌, refl, Bool, true, false, Option, none, some, List, [], ◌∷◌, All,
  inl, length, or_zero,
}
use openodin.Prelude.Int.{ℤ, pos, ◌≤ℤ◌}
use openodin.Prelude.Buffer.{Buffer, equals}
use openodin.Prelude.Verdict.{accepted}
use openodin.Prelude.Result.{ok}
use openodin.Model.Props.{has_bytes}
use openodin.Cert.Props.{SignCert}
use openodin.Node.Props.{BaseNodeProps}
use openodin.Friend.Props.{FriendCertProps}
use openodin.License.Props.{BaseLicenseNodeProps, LicenseNodeProps}
use openodin.License.Flags.{load_license_flags}
use openodin.License.Validate.{or_zero_time, check_embedded, validate_license}
use openodin.License.Validate.Stack.{Extends, validate_license-Extends, first_license, stack_bound}
use openodin.License.Validate.Friends.{with_friends, constrained, any_constraints_pass}
use openodin.License.Send.{
  MayHold, can_send_privately, can_receive_privately, can_send_privately_iff,
}
use openodin.License.Hashes.{
  is_write_license, get_root_owner, get_license_hashes, get_licensing_hashes, has_hash,
  license_hashes_match,
}
use openodin.License.Embed.{embed, extend}
use openodin.License.Embed.Passes.{embed-passes}

-- Config 41 has the bits isLeaf, allowEmbed and isUnique.
abbrev license : ℕ → ℕ → ℕ → ℕ → Option ℕ → LicenseNodeProps
license owner target time extensions friend_level = record {
  base = record {
    node = record {
      model = record {
        model_type = some (1 ∷ 2 ∷ 1 ∷ []);
        id1 = none;
        owner = some (owner ∷ []);
        creation_time = some (pos time);
        expire_time = some (pos 30);
      };
      id2 = none;
      parent_id = some (9 ∷ []);
      base_node_config = some 41;
      base_node_transient_config = none;
      ref_id = some (8 ∷ []);
      license_min_distance = none;
      license_max_distance = none;
      difficulty = none;
      difficulty_nonce = none;
      child_min_difficulty = none;
    };
    base_license_node_config = none;
    target_public_key = some (target ∷ []);
    terms = none;
    extensions = some extensions;
    jump_peer_public_key = none;
    parent_path_hash = none;
    max_distance = none;
  };
  friend_level = friend_level;
  friend_cert1 = none;
  friend_cert2 = none;
}

-- From 1 to 2, and extended from 2 to 3.
abbrev first : LicenseNodeProps
first = license 1 2 10 4 none

abbrev second : LicenseNodeProps
second = license 2 3 12 1 none

abbrev count : Buffer → Buffer
count b = length b ∷ []

abbrev constraints_of : ℕ → Buffer
constraints_of locked_config = locked_config ∷ []

second_accepted :
    validate_license count constraints_of true (some (pos 15)) second [] (some (ok first))
    ≡ accepted
unfolding validate_license openodin.Node.Signed.validate_deep openodin.Node.Validate.validate_node
    openodin.Model.Props.validate_model openodin.Node.Flags.load_flags
    openodin.Model.Bits.is_bit_set load_license_flags equals
second_accepted = refl

validate_license-Extends_example : Extends second.base first.base × (has_bytes second.terms ≡ false)
validate_license-Extends_example =
    validate_license-Extends count constraints_of (some (pos 15)) second first [] second_accepted

stack_bound_example :
    (or_zero second.extensions + length (first ∷ [])
      ≤ or_zero (first_license count constraints_of second (first ∷ [])).extensions)
    × (second.ref_id ≡ (first_license count constraints_of second (first ∷ [])).ref_id)
    × (or_zero_time second.expire_time
        ≤ℤ or_zero_time (first_license count constraints_of second (first ∷ [])).expire_time)
stack_bound_example =
    stack_bound count constraints_of (some (pos 15)) second (first ∷ []) (([], second_accepted), tt)

-- The friends 2 and 4, by whose certificates the license from 1 is extended.
abbrev friend : ℕ → FriendCertProps
friend owner = record {
  model = record {
    model_type = none;
    id1 = none;
    owner = some (owner ∷ []);
    creation_time = some (pos 10);
    expire_time = some (pos 20);
  };
  constraints = some (7 ∷ []);
  license_max_expire_time = some (pos 40);
  salt = some (owner ∷ []);
  friend_level = some 1;
  region = none;
  jurisdiction = none;
  friend_cert_config = none;
}

friends_accepted :
    validate_license count constraints_of true
      (some (pos 15))
      (with_friends (friend 2) (friend 4) second)
      []
      (some (ok (license 1 2 10 4 (some 1))))
    ≡ accepted
unfolding validate_license openodin.Node.Signed.validate_deep openodin.Node.Validate.validate_node
    openodin.Model.Props.validate_model openodin.Node.Flags.load_flags
    openodin.Model.Bits.is_bit_set load_license_flags equals
    openodin.Friend.Hash.hash_friend_constraints
friends_accepted = refl

any_constraints_pass_example :
    validate_license count constraints_of true
      (some (pos 15))
      (with_friends (constrained (7 ∷ []) (friend 2)) (constrained (7 ∷ []) (friend 4)) second)
      []
      (some (ok (license 1 2 10 4 (some 1))))
    ≡ validate_license count constraints_of true
        (some (pos 15))
        (with_friends (constrained (0 ∷ []) (friend 2)) (constrained (0 ∷ []) (friend 4)) second)
        []
        (some (ok (license 1 2 10 4 (some 1))))
any_constraints_pass_example =
    any_constraints_pass count constraints_of true (some (pos 15)) second (friend 2) (friend 4) []
      (some (ok (license 1 2 10 4 (some 1)))) (7 ∷ []) (0 ∷ [])

can_send_privately_iff_example :
    ((can_send_privately first.base (2 ∷ []) (5 ∷ []) ≡ ok true)
      ↔ MayHold first.base (1 ∷ []) (2 ∷ []) (2 ∷ []) (5 ∷ []))
    × ((other : BaseLicenseNodeProps)
        → can_receive_privately other (2 ∷ []) (5 ∷ [])
          ≡ can_send_privately other (2 ∷ []) (5 ∷ []))
can_send_privately_iff_example =
    can_send_privately_iff first.base (1 ∷ []) (2 ∷ []) (2 ∷ []) (5 ∷ []) refl refl

-- The licensed node 8 of the owner 1: config 4 has the bit isLicensed.
abbrev licensed : BaseNodeProps
licensed = record (first.node) {
  model = record (first.node.model) { id1 = some (8 ∷ []); owner = some (1 ∷ []) };
  base_node_config = some 4;
}

asks :
    get_license_hashes count licensed (is_write_license second.base) (2 ∷ []) (3 ∷ []) none
    ≡ ok ((9 ∷ []) ∷ [])
unfolding get_license_hashes openodin.Node.Flags.load_flags openodin.Model.Bits.is_bit_set
    openodin.Model.HashList.hash_list is_write_license load_license_flags
asks = refl

licenses :
    get_licensing_hashes count second (first ∷ [])
    ≡ ok ((7 ∷ []) ∷ (2 ∷ []) ∷ (1 ∷ []) ∷ (9 ∷ []) ∷ [])
unfolding get_licensing_hashes get_root_owner openodin.Model.HashList.hash_list is_write_license
    load_license_flags openodin.Model.Bits.is_bit_set
licenses = refl

root_owner :
    (owner : Buffer) → get_root_owner second (first ∷ []) ≡ ok owner → licensed.owner ≡ some owner
unfolding get_root_owner
root_owner owner e = cc

license_hashes_match_example :
    All
      (λ hash. has_hash count ((7 ∷ []) ∷ (2 ∷ []) ∷ (1 ∷ []) ∷ (9 ∷ []) ∷ []) hash ≡ true)
      ((9 ∷ []) ∷ [])
license_hashes_match_example =
    license_hashes_match count licensed second (first ∷ []) (2 ∷ []) (3 ∷ []) refl refl refl
      (inl refl) root_owner asks licenses

embedded : embed first (3 ∷ []) (pos 12) ≡ ok (some (extend first (3 ∷ []) (pos 12)))
unfolding embed load_license_flags openodin.Node.Flags.load_flags openodin.Model.Bits.is_bit_set
embedded = refl

embed-passes_example :
    (check_embedded (extend first (3 ∷ []) (pos 12)).base first.base ≡ accepted)
    × ((blake2b : Buffer → Buffer) (hash_constraints : ℕ → Buffer) (deep : Bool) (now : Option ℤ)
          (certs : List SignCert)
        → (validate_license blake2b hash_constraints deep now
              (extend first (3 ∷ []) (pos 12))
              certs
              (some (ok first))
            ≡ accepted)
          ↔ ((validate_license blake2b hash_constraints deep now
                  (extend first (3 ∷ []) (pos 12))
                  certs
                  none
                ≡ accepted)
              × (has_bytes first.terms ≡ false)
              × (deep ≡ true → is_set first.friend_level ≡ false)))
embed-passes_example =
    embed-passes first (extend first (3 ∷ []) (pos 12)) (3 ∷ []) (pos 12) refl refl embedded
