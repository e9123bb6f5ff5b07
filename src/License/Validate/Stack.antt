-- ===== src/License/Validate/Stack.antt =====
-- What accepted licenses guarantee of the licenses that they extend.
use openodin.Prelude.{
  ℕ, ◌+◌, ◌≤◌, ◌<◌, ◌≡◌, refl, ◌∙◌, Bool, true, false, not, ◌&&◌, Option, none, some, List, [], ◌∷◌,
  String, arith, or_zero, is_set, length, leb,
}
use openodin.Prelude.Int.{ℤ, ◌≤ℤ◌}
use openodin.Prelude.Buffer.{Buffer}
use openodin.Prelude.Verdict.{accepted, refuse_if, when, both_accepted, passes_le, passes_equals}
use openodin.Prelude.Result.{ok}
use openodin.Cert.Props.{SignCert}
use openodin.Node.Validate.{truthy}
use openodin.Model.Props.{has_bytes}
use openodin.License.Props.{BaseLicenseNodeProps, LicenseNodeProps}
use openodin.License.Flags.{load_license_flags}
use openodin.License.Validate.{
  or_zero_time, check_holder, check_ref, differs, check_embedded, validate_base_license,
  validate_license,
}

-- The license `p` extends `e`: it is owned by whom `e` is for, is for the same node, may be extended
-- fewer times, is not older, and has the flags that `e` has.
pub record Extends (p e : BaseLicenseNodeProps) : Type 0 where
  pub held : (p.owner ≡ e.target_public_key) × (is_set p.owner ≡ true)
  pub refers : (p.ref_id ≡ e.ref_id) × (is_set p.ref_id ≡ true)
  pub fewer : or_zero p.extensions < or_zero e.extensions
  pub born : or_zero_time e.creation_time ≤ℤ or_zero_time p.creation_time
  pub expires : or_zero_time p.expire_time ≤ℤ or_zero_time e.expire_time
  pub retro :
      (load_license_flags p).disallow_retro_licensing
      ≡ (load_license_flags e).disallow_retro_licensing
  pub writer :
      (load_license_flags p).restrictive_mode_writer
      ≡ (load_license_flags e).restrictive_mode_writer
  pub manager :
      (load_license_flags p).restrictive_mode_manager
      ≡ (load_license_flags e).restrictive_mode_manager
  pub sends :
      truthy (load_license_flags p).allow_target_send_privately ≡ true
      → truthy (load_license_flags e).allow_target_send_privately ≡ true

check_holder-accepted :
    (target owner : Option Buffer)
    → check_holder target owner ≡ accepted
    → (owner ≡ target) × (is_set owner ≡ true)
unfolding check_holder
check_holder-accepted none owner h = absurd cc
check_holder-accepted (some a) none h = absurd cc
check_holder-accepted (some a) (some b) h = let same = passes_equals b a _ h in (cc, refl)

check_ref-accepted :
    (ref embedded : Option Buffer)
    → check_ref ref embedded ≡ accepted
    → (ref ≡ embedded) × (is_set ref ≡ true)
unfolding check_ref
check_ref-accepted none embedded h = absurd cc
check_ref-accepted (some a) none h = absurd cc
check_ref-accepted (some a) (some b) h = let same = passes_equals a b _ h in (cc, refl)

differs-accepted :
    (a b : Option Bool) (reason : String) → refuse_if (differs a b) reason ≡ accepted → a ≡ b
differs-accepted none none reason h = refl
differs-accepted none (some b) reason h = absurd cc
differs-accepted (some a) none reason h = absurd cc
differs-accepted (some true) (some true) reason h = refl
differs-accepted (some true) (some false) reason h = absurd cc
differs-accepted (some false) (some true) reason h = absurd cc
differs-accepted (some false) (some false) reason h = refl

implied :
    (a b : Bool) (reason : String) → refuse_if (a && not b) reason ≡ accepted → a ≡ true → b ≡ true
implied true true reason h e = refl
implied true false reason h e = absurd cc
implied false b reason h e = absurd cc

check_embedded-Extends : (p e : BaseLicenseNodeProps) → check_embedded p e ≡ accepted → Extends p e
unfolding check_embedded
check_embedded-Extends p e h =
    let (a, h1) = both_accepted _ _ h in
    let (b, h2) = both_accepted _ _ h1 in
    let (c, h3) = both_accepted _ _ h2 in
    let (d, h4) = both_accepted _ _ h3 in
    let (f, h5) = both_accepted _ _ h4 in
    let (g, h6) = both_accepted _ _ h5 in
    let (i, h7) = both_accepted _ _ h6 in
    let (j, k) = both_accepted _ _ h7 in
    record {
      held = check_holder-accepted e.target_public_key p.owner a;
      refers = check_ref-accepted p.ref_id e.ref_id b;
      fewer = fewer (or_zero p.extensions) (or_zero e.extensions) _ c;
      born = passes_le (or_zero_time e.creation_time) (or_zero_time p.creation_time) _ d;
      expires = passes_le (or_zero_time p.expire_time) (or_zero_time e.expire_time) _ f;
      retro = differs-accepted _ _ _ g;
      writer = differs-accepted _ _ _ i;
      manager = differs-accepted _ _ _ j;
      sends = implied _ _ _ k;
    }
  where
    fewer : (m n : ℕ) (reason : String) → refuse_if (leb n m) reason ≡ accepted → m < n
    fewer m n reason h = ground arith

module _ (blake2b : Buffer → Buffer) (hash_constraints : ℕ → Buffer) where
  -- Deep validation accepts a license with an embedded one only if it extends it, and has no terms.
  pub validate_license-Extends :
      (time : Option ℤ) (p e : LicenseNodeProps) (certs : List SignCert)
      → validate_license blake2b hash_constraints true time p certs (some (ok e)) ≡ accepted
      → Extends p.base e.base × (has_bytes p.terms ≡ false)
  unfolding validate_license validate_base_license
  validate_license-Extends time p e certs h =
      let (base, _) = both_accepted _ _ h in
      let (_, h1) = both_accepted _ _ base in
      let (_, h2) = both_accepted _ _ h1 in
      let (terms, embedded) = both_accepted _ _ h2 in
      (check_embedded-Extends p.base e.base embedded, unset (has_bytes p.terms) _ terms)
    where
      unset : (t : Bool) (reason : String) → when t (refuse_if true reason) ≡ accepted → t ≡ false
      unset true reason h = absurd cc
      unset false reason h = refl

  -- Each license of a stack, the outermost first, was accepted with the one that it embeds.
  abbrev pub AreAccepted : Option ℤ → LicenseNodeProps → List LicenseNodeProps → Type 0
  AreAccepted time p [] = Unit
  AreAccepted time p (e ∷ stack) =
      ((certs : List SignCert) × (validate_license blake2b hash_constraints true time p certs
            (some (ok e))
          ≡ accepted))
      × AreAccepted time e stack

  -- The innermost license.
  abbrev pub first_license : LicenseNodeProps → List LicenseNodeProps → LicenseNodeProps
  first_license p [] = p
  first_license p (e ∷ stack) = first_license e stack

  -- In a stack of licenses that were each accepted, the outermost is bound by the innermost: there
  -- are no more extensions between them than that one allows, it is for the same node, and it does
  -- not expire later (an unset `expireTime` counts as 0 in both).
  pub stack_bound :
      (time : Option ℤ) (p : LicenseNodeProps) (stack : List LicenseNodeProps)
      → AreAccepted time p stack
      → (or_zero p.extensions + length stack ≤ or_zero (first_license p stack).extensions)
        × (p.ref_id ≡ (first_license p stack).ref_id)
        × (or_zero_time p.expire_time ≤ℤ or_zero_time (first_license p stack).expire_time)
  stack_bound time p [] h = (omega arith, refl, omega arith)
  stack_bound time p (e ∷ stack) ((certs, accepted_p), rest) =
      let (extends, _) = validate_license-Extends time p e certs accepted_p in
      let (fewer, refers, expires) = stack_bound time e stack rest in
      (omega (arith, extends.fewer), extends.refers.0 ∙ refers, omega (arith, extends.expires))
