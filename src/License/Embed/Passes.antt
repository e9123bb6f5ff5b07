-- ===== src/License/Embed/Passes.antt =====
-- What validation says of the license that `embed` makes.
use openodin.Prelude.{
  ◌↔◌, ℕ, ◌-◌, ◌≡◌, refl, subst, ap, Bool, true, false, not, ◌&&◌, Option, none, some, List,
  if◌then◌else◌, Bool-cases, inl, inr, leb, is_set, or_zero, arith, String, ◌==◌,
}
use openodin.Prelude.Int.{ℤ, leb_ℤ}
use openodin.Prelude.Buffer.{Buffer, equals_refl}
use openodin.Prelude.Verdict.{Verdict, accepted, refused, thrown, refuse_if, when, ◌>>◌}
use openodin.Prelude.Result.{ok, error}
use openodin.Model.Props.{has_bytes}
use openodin.Cert.Props.{SignCert}
use openodin.Node.Flags as NodeFlags
use openodin.Node.Validate.{truthy}
use openodin.License.Props.{LicenseNodeProps}
use openodin.License.Flags.{
  load_license_flags, store_license_flags, load_license_flags-store_license_flags,
}
use openodin.License.Validate.{
  or_zero_time, check_embedded, check_holder, check_ref, differs, validate_license,
  validate_base_license, check_both_friends, check_friend_certs, check_license_flags,
}
use openodin.License.Embed.{
  max_time, extended_props, reset_flags, has_expired, extend, embed_at, embed,
}

all_accepted :
    (a b c d e f g h i : Verdict)
    → a ≡ accepted
    → b ≡ accepted
    → c ≡ accepted
    → d ≡ accepted
    → e ≡ accepted
    → f ≡ accepted
    → g ≡ accepted
    → h ≡ accepted
    → i ≡ accepted
    → (a >> (b >> (c >> (d >> (e >> (f >> (g >> (h >> i)))))))) ≡ accepted
all_accepted a b c d e f g h i p q r s t u v w x = rw (p, q, r, s, t, u, v, w, x) refl

same_holder :
    (target : Option Buffer) → is_set target ≡ true → check_holder target target ≡ accepted
unfolding check_holder
same_holder none h = absurd cc
same_holder (some b) h = rw (equals_refl b) refl

same_ref : (ref : Option Buffer) → is_set ref ≡ true → check_ref ref ref ≡ accepted
unfolding check_ref
same_ref none h = absurd cc
same_ref (some b) h = rw (equals_refl b) refl

same_flag : (o : Option Bool) (reason : String) → refuse_if (differs o o) reason ≡ accepted
same_flag none reason = refl
same_flag (some true) reason = refl
same_flag (some false) reason = refl

equal_flag :
    (a b : Option Bool) (reason : String) → a ≡ b → refuse_if (differs a b) reason ≡ accepted
equal_flag a b reason e = rw e (same_flag b reason)

unsent :
    (a b : Option Bool) (reason : String)
    → a ≡ some false
    → refuse_if (truthy a && not (truthy b)) reason ≡ accepted
unfolding truthy
unsent a b reason e = rw e refl

fewer : (n : ℕ) (reason : String) → (n == 0) ≡ false → refuse_if (leb n (n - 1)) reason ≡ accepted
fewer n reason h = ground arith

later : (a b : ℤ) (reason : String) → refuse_if (not (leb_ℤ b (max_time a b))) reason ≡ accepted
unfolding max_time
later a b reason = elim (Bool-cases (leb_ℤ a b)) [
  | inl e ↦ rw e (ground arith)
  | inr e ↦ rw e (ground arith)
]

not_later : (a : ℤ) (reason : String) → refuse_if (not (leb_ℤ a a)) reason ≡ accepted
not_later a reason = ground arith

-- The flags of the license that is made: those that validation compares are inherited.
flags_of :
    (p : LicenseNodeProps) (target_public_key : Buffer) (time : ℤ)
    → let q = load_license_flags (extend p target_public_key time).base in
      let f = load_license_flags p.base in
      (q.disallow_retro_licensing ≡ f.disallow_retro_licensing)
      × (q.restrictive_mode_writer ≡ f.restrictive_mode_writer)
      × (q.restrictive_mode_manager ≡ f.restrictive_mode_manager)
      × (q.allow_target_send_privately ≡ some false)
unfolding extend extended_props reset_flags load_license_flags
flags_of p target_public_key time =
    let new = (extended_props p target_public_key time (or_zero p.extensions - 1)).base in
    let stored =
      load_license_flags-store_license_flags (reset_flags (load_license_flags new)) new in
    (
      ap (λ f. f.disallow_retro_licensing) stored,
      ap (λ f. f.restrictive_mode_writer) stored,
      ap (λ f. f.restrictive_mode_manager) stored,
      ap (λ f. f.allow_target_send_privately) stored,
    )

-- The license that is made passes the checks against the one that it embeds.
extend-passes :
    (p : LicenseNodeProps) (target_public_key : Buffer) (time : ℤ)
    → is_set p.target_public_key ≡ true
    → is_set p.ref_id ≡ true
    → (or_zero p.extensions == 0) ≡ false
    → check_embedded
        (extend p target_public_key (max_time time (or_zero_time p.creation_time))).base
        p.base
      ≡ accepted
unfolding check_embedded extend extended_props store_license_flags truthy NodeFlags.store_flags
extend-passes p target_public_key time target ref extensions =
    let (retro, writer, manager, sends) =
      flags_of p target_public_key (max_time time (or_zero_time p.creation_time)) in
    all_accepted _ _ _ _ _ _ _ _ _ (same_holder p.target_public_key target) (same_ref p.ref_id ref)
      (fewer (or_zero p.extensions) _ extensions) (later time (or_zero_time p.creation_time) _)
      (not_later (or_zero_time p.expire_time) _) (equal_flag _ _ _ retro) (equal_flag _ _ _ writer)
      (equal_flag _ _ _ manager)
      (unsent _ (load_license_flags p.base).allow_target_send_privately
        "allowTargetSendPrivately must also be set in original license if set in extended" sends)

-- The checks that the embedded license adds, among those that a license has by itself.
verdicts_with :
    (own flags : Verdict) (deep terms level : Bool) (reason why : String)
    → (((own >> (flags >> (when terms (refuse_if true reason) >> when deep accepted)))
          >> (accepted >> when deep (refuse_if level why)))
        ≡ accepted)
      ↔ ((((own >> (flags >> (when terms (refuse_if false reason) >> when deep accepted)))
              >> (accepted >> when deep accepted))
            ≡ accepted)
          × (terms ≡ false)
          × (deep ≡ true → level ≡ false))
verdicts_with (refused r) flags deep terms level reason why = (λ h. cc, λ h. let e = h.0 in cc)
verdicts_with (thrown r) flags deep terms level reason why = (λ h. cc, λ h. let e = h.0 in cc)
verdicts_with accepted (refused r) deep terms level reason why = (λ h. cc, λ h. let e = h.0 in cc)
verdicts_with accepted (thrown r) deep terms level reason why = (λ h. cc, λ h. let e = h.0 in cc)
verdicts_with accepted accepted deep true level reason why = (λ h. cc, λ h. let e = h.1 in cc)
verdicts_with accepted accepted false false level reason why =
    (λ h. (refl, refl, λ e. cc), λ h. refl)
verdicts_with accepted accepted true false true reason why = (λ h. cc, λ h. let e = h.2 refl in cc)
verdicts_with accepted accepted true false false reason why =
    (λ h. (refl, refl, λ e. refl), λ h. refl)

-- A license without friend certificates that extends another one, with the terms of that one.
with_embedded :
    (blake2b : Buffer → Buffer) (hash_constraints : ℕ → Buffer) (deep : Bool) (now : Option ℤ)
    (q p : LicenseNodeProps) (certs : List SignCert)
    → q.friend_cert1 ≡ none
    → q.friend_cert2 ≡ none
    → check_embedded q.base p.base ≡ accepted
    → (validate_license blake2b hash_constraints deep now q certs (some (ok p)) ≡ accepted) ↔ (
        (validate_license blake2b hash_constraints deep now q certs none ≡ accepted)
        × (has_bytes q.terms ≡ false)
        × (deep ≡ true → is_set p.friend_level ≡ false))
unfolding validate_license validate_base_license check_both_friends check_friend_certs
with_embedded blake2b hash_constraints deep now q p certs first second extends =
    rw (first, second, extends)
      (verdicts_with _ (check_license_flags (load_license_flags q.base)) deep (has_bytes q.terms)
        (is_set p.friend_level) _ _)

-- `embed` of a license that has a target and a refId gives, whenever it gives a license, one that
-- extends it. Validated with the license that it embeds, that one is accepted exactly when it is
-- accepted by itself, the embedded license has no terms, and, in a deep validation, the embedded
-- license has no friendLevel: embed keeps the terms and sets no friend certificates.
pub embed-passes :
    (p q : LicenseNodeProps) (target_public_key : Buffer) (time : ℤ)
    → is_set p.target_public_key ≡ true
    → is_set p.ref_id ≡ true
    → embed p target_public_key time ≡ ok (some q)
    → (check_embedded q.base p.base ≡ accepted)
      × ((blake2b : Buffer → Buffer) (hash_constraints : ℕ → Buffer) (deep : Bool) (now : Option ℤ)
            (certs : List SignCert)
          → (validate_license blake2b hash_constraints deep now q certs (some (ok p)) ≡ accepted)
            ↔ ((validate_license blake2b hash_constraints deep now q certs none ≡ accepted)
                × (has_bytes p.terms ≡ false)
                × (deep ≡ true → is_set p.friend_level ≡ false)))
unfolding embed embed_at extend extended_props store_license_flags
embed-passes p q target_public_key time target ref made =
    at_time (not (truthy (load_license_flags p.base).allow_embed)) (has_expired p.expire_time born)
      (or_zero p.extensions == 0) refl made
  where
    born : ℤ
    born = max_time time (or_zero_time p.creation_time)

    new : LicenseNodeProps
    new = extend p target_public_key born

    Passes : LicenseNodeProps → Type 0
    Passes l =
        (check_embedded l.base p.base ≡ accepted)
        × ((blake2b : Buffer → Buffer) (hash_constraints : ℕ → Buffer) (deep : Bool)
              (now : Option ℤ) (certs : List SignCert)
            → (validate_license blake2b hash_constraints deep now l certs (some (ok p)) ≡ accepted)
              ↔ ((validate_license blake2b hash_constraints deep now l certs none ≡ accepted)
                  × (has_bytes p.terms ≡ false)
                  × (deep ≡ true → is_set p.friend_level ≡ false)))

    passes : (or_zero p.extensions == 0) ≡ false → new ≡ q → Passes q
    passes some_left e =
        let extends = extend-passes p target_public_key time target ref some_left in
        subst Passes e (
          extends,
          λ blake2b hash_constraints deep now certs.
              with_embedded blake2b hash_constraints deep now new p certs refl refl extends,
        )

    given : {a b : LicenseNodeProps} → ok (some a) ≡ ok (some b) → a ≡ b
    given e = cc

    at_time :
        (closed expired none_left : Bool)
        → (or_zero p.extensions == 0) ≡ none_left
        → (if closed
            then ok none
            else if expired
            then ok none
            else if none_left
            then error "Expected extensions to be equal or greater then 0"
            else ok (some new))
          ≡ ok (some q)
        → Passes q
    at_time true expired none_left e k = absurd cc
    at_time false true none_left e k = absurd cc
    at_time false false true e k = absurd cc
    at_time false false false e k = passes e (given k)
