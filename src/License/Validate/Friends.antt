-- ===== src/License/Validate/Friends.antt =====
-- What `LicenseNode.validate` leaves open on the friend certificates of a license.
use openodin.Prelude.{ap, is_set, ℕ, ◌≡◌, refl, Bool, true, false, Option, none, some, List}
use openodin.Prelude.Int.{ℤ}
use openodin.Prelude.Buffer.{Buffer, equals_refl}
use openodin.Prelude.Verdict.{when, ◌>>◌}
use openodin.Prelude.Result.{ok, error}
use openodin.Cert.Props.{SignCert}
use openodin.Friend.Props.{FriendCertProps}
use openodin.Friend.Hash.{hash_friend_constraints, assert_same}
use openodin.License.Props.{LicenseNodeProps, Loaded}
use openodin.License.Validate.{
  check_friend_constraints, check_friends, check_both_friends, check_friend_certs, load_friend,
  validate_license, validate_base_license, base_of, with_loaded,
}

-- A license with its two friend certificates, and a certificate with its constraints.
abbrev pub with_friends : FriendCertProps → FriendCertProps → LicenseNodeProps → LicenseNodeProps
with_friends a b p = record p { friend_cert1 = some (ok a); friend_cert2 = some (ok b) }

abbrev pub constrained : Buffer → FriendCertProps → FriendCertProps
constrained constraints a = record a { constraints = some constraints }

module _ (blake2b : Buffer → Buffer) where
  any_friends :
      (p q e : LicenseNodeProps) (a b : FriendCertProps) (one other : Buffer)
      → p.base ≡ q.base
      → check_friends blake2b p e (constrained one a) (constrained one b)
        ≡ check_friends blake2b q e (constrained other a) (constrained other b)
  unfolding check_friends hash_friend_constraints assert_same check_friend_constraints
  any_friends p q e a b one other same = rw (same, equals_refl one, equals_refl other) refl

  module _ (hash_constraints : ℕ → Buffer) where
    -- When the two friend certificates of a license have constraints and these are equal, the verdict
    -- on the license does not depend on what they are, although they should be the hash of the pair.
    pub any_constraints_pass :
        (deep : Bool) (time : Option ℤ) (p : LicenseNodeProps) (a b : FriendCertProps)
        (certs : List SignCert) (embedded : Loaded LicenseNodeProps) (one other : Buffer)
        → validate_license blake2b hash_constraints deep time
            (with_friends (constrained one a) (constrained one b) p)
            certs
            embedded
          ≡ validate_license blake2b hash_constraints deep time
              (with_friends (constrained other a) (constrained other b) p)
              certs
              embedded
    unfolding validate_license check_both_friends check_friend_certs load_friend
    any_constraints_pass deep time p a b certs embedded one other =
        ap
          (λ checks.
            validate_base_license blake2b hash_constraints deep time p.base certs (base_of embedded)
            >> (check_both_friends (with_friends (constrained one a) (constrained one b) p)
                  (is_set embedded)
                >> checks))
          (deeper deep embedded)
      where
        deeper :
            (deep : Bool) (embedded : Loaded LicenseNodeProps)
            → when deep (
                with_loaded embedded (
                  check_friend_certs blake2b
                    (with_friends (constrained one a) (constrained one b) p)))
              ≡ when deep (
                  with_loaded embedded (
                    check_friend_certs blake2b
                      (with_friends (constrained other a) (constrained other b) p)))
        deeper false embedded = refl
        deeper true none = refl
        deeper true (some (error message)) = refl
        deeper true (some (ok e)) =
            any_friends (with_friends (constrained one a) (constrained one b) p)
              (with_friends (constrained other a) (constrained other b) p) e a b one other refl
