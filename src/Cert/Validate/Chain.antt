-- ===== src/Cert/Validate/Chain.antt =====
-- What an accepted chain of certificates guarantees.
use openodin.Prelude.{
  ℕ, ◌+◌, ◌≤◌, ◌<◌, ◌≡◌, refl, true, Option, none, some, List, [], ◌∷◌, arith, ap, ◌∙◌, String,
  or_zero, length,
}
use openodin.Prelude.Int.{ℤ, ◌≤ℤ◌}
use openodin.Prelude.Buffer.{Buffer}
use openodin.Prelude.Verdict.{
  Verdict, accepted, ◌>>◌, wrap, both_accepted, passes_le, passes_equals,
}
use openodin.Model.Constraints.{Packed}
use openodin.Cert.Props.{SignCertProps, SignCert, load_base, loads, load}
use openodin.Cert.Validate.{
  check_base_issuer, check_type, check_owner, check_born, check_limit, check_issuer,
  check_constraints, validate_base_sign_cert, validate_sign_cert, sign_cert_constraints,
  check_target_public_keys,
}

-- A value within a limit that may be unset.
abbrev pub Within : Option ℤ → Option ℤ → Type 0
Within none value = Unit
Within (some limit) none = ⊥
Within (some limit) (some value) = value ≤ℤ limit

abbrev pub Between : Option ℤ → Option ℤ → Option ℤ → Type 0
Between (some low) (some high) (some value) = (low ≤ℤ value) × (value ≤ℤ high)
Between _ _ _ = ⊥

-- What the issuer `q` of the certificate `p` grants: the same owner, the type, the time of creation,
-- no later expiry than the issuer allows, and one step less of the countdown.
pub record IsIssuedBy (p q : SignCertProps) : Type 0 where
  pub owner : p.owner ≡ q.owner
  pub type : (t : Buffer) → q.target_type ≡ some t → p.model_type ≡ some t
  pub born : Between q.creation_time q.expire_time p.creation_time
  pub lasts : Within q.target_max_expire_time p.target_max_expire_time
  pub expires : Within q.target_max_expire_time p.expire_time

pub check_type-accepted :
    (type model_type : Option Buffer)
    → check_type type model_type ≡ accepted
    → (t : Buffer) → type ≡ some t
    → model_type ≡ some t
unfolding check_type
check_type-accepted none m h t e = cc
check_type-accepted (some a) none h t e = cc
check_type-accepted (some a) (some b) h t e = let same = passes_equals a b _ h in cc

pub check_owner-accepted :
    (cert_owner owner : Option Buffer)
    → check_owner cert_owner owner ≡ accepted
    → owner ≡ cert_owner
unfolding check_owner
check_owner-accepted none owner h = cc
check_owner-accepted (some a) none h = cc
check_owner-accepted (some a) (some b) h = let same = passes_equals b a _ h in cc

pub check_born-accepted :
    (low high value : Option ℤ) → check_born low high value ≡ accepted → Between low high value
unfolding check_born
check_born-accepted (some low) (some high) (some value) h =
    let (after, before) = both_accepted _ _ h in
    (passes_le low value _ after, passes_le value high _ before)
check_born-accepted (some low) (some high) none h = cc
check_born-accepted none high value h = cc
check_born-accepted (some low) none value h = cc

pub check_limit-accepted :
    (limit value : Option ℤ) (missing exceeded : String)
    → check_limit missing exceeded limit value ≡ accepted
    → Within limit value
unfolding check_limit
check_limit-accepted none value s t h = tt
check_limit-accepted (some limit) none s t h = cc
check_limit-accepted (some limit) (some value) s t h = passes_le value limit _ h

check_base_issuer-IsIssuedBy :
    (p q : SignCertProps) → check_base_issuer p q ≡ accepted → IsIssuedBy p q
unfolding check_base_issuer
check_base_issuer-IsIssuedBy p q h = record {
  owner = ground (arith, check_owner-accepted q.owner p.owner);
  type = check_type-accepted q.target_type p.model_type (ground arith);
  born = check_born-accepted q.creation_time q.expire_time p.creation_time (ground arith);
  lasts =
      check_limit-accepted q.target_max_expire_time p.target_max_expire_time
        "cert must have targetMaxExpireTime set if signCert has"
        "cert cannot have larger targetMaxExpireTime than signCert has" (ground arith);
  expires =
      check_limit-accepted q.target_max_expire_time p.expire_time "expireTime must be set in cert"
        "cert cannot expire after signCerts targetMaxExpireTime" (ground arith);
}

five_accepted :
    (a b c d e : Verdict) (s : String)
    → (a >> (b >> (c >> (wrap s d >> e)))) ≡ accepted
    → (a ≡ accepted) × (d ≡ accepted) × (e ≡ accepted)
five_accepted accepted accepted accepted accepted e s h = (refl, refl, h)
five_accepted a b c d e s h = ground arith

-- The certificate that a chain begins with.
abbrev pub root : SignCert → List SignCert → SignCert
root c [] = c
root c (d ∷ issuers) = root (load d) issuers

Within-refl : (limit : Option ℤ) → Within limit limit
Within-refl none = tt
Within-refl (some limit) = omega arith

pub Within-trans : (a b c : Option ℤ) → Within a b → Within b c → Within a c
Within-trans none b c h k = tt
Within-trans (some a) none c h k = absurd h
Within-trans (some a) (some b) none h k = absurd k
Within-trans (some a) (some b) (some c) h k = omega arith

module _ (blake2b : Buffer → Buffer) where
  -- The certificate `d` lets the key of `c` sign `c`: besides the above, it leaves `c` a smaller
  -- countdown, and `c` has the constraints that `d` demands.
  pub record IsGrantedBy (c d : SignCert) : Type 0 where
    pub issued : IsIssuedBy c.props d.props
    pub counts_down : or_zero c.props.countdown < or_zero d.props.countdown
    pub constrained :
        (packed : Packed) × (c.packed ≡ some packed)
        × (d.props.constraints
            ≡ some (sign_cert_constraints blake2b (or_zero d.props.locked_config) packed c.props))

  abbrev pub IsChain : SignCert → List SignCert → Type 0
  IsChain c [] = Unit
  IsChain c (d ∷ issuers) = IsGrantedBy c (load d) × IsChain (load d) issuers

  check_constraints-accepted :
      (constraints : Option Buffer) (locked : ℕ) (packed : Option Packed) (p : SignCertProps)
      → check_constraints blake2b constraints locked packed p ≡ accepted
      → (k : Packed) × (packed ≡ some k)
        × (constraints ≡ some (sign_cert_constraints blake2b locked k p))
  unfolding check_constraints
  check_constraints-accepted none locked packed p h = cc
  check_constraints-accepted (some b) locked none p h = cc
  check_constraints-accepted (some b) locked (some k) p h = (
    k,
    refl,
    ap some (passes_equals b _ "cert constraints do not match expected signCert constraints" h),
  )

  base-IsIssuedBy :
      (time : Option ℤ) (p : SignCertProps) (d : SignCert) (issuers : List SignCert)
      → validate_base_sign_cert true time p (d ∷ issuers) ≡ accepted
      → IsIssuedBy p (load d).props
  unfolding validate_base_sign_cert load load_base
  base-IsIssuedBy time p d issuers h =
      let i = check_base_issuer-IsIssuedBy p (load_base d) (ground arith) in
      record { owner = i.owner; type = i.type; born = i.born; lasts = i.lasts; expires = i.expires }

  check_issuer-accepted :
      (c : SignCert) (q : SignCertProps)
      → check_issuer blake2b c q ≡ accepted
      → (or_zero c.props.countdown < or_zero q.countdown)
        × (check_constraints blake2b q.constraints (or_zero q.locked_config) c.packed c.props
            ≡ accepted)
  unfolding check_issuer
  check_issuer-accepted c q h = (ground arith, ground arith)

  -- The parts of an accepted validation with an issuer.
  validate_sign_cert-parts :
      (time : Option ℤ) (c d : SignCert) (issuers : List SignCert)
      → validate_sign_cert blake2b true time c (d ∷ issuers) ≡ accepted
      → (validate_base_sign_cert true time c.props (d ∷ issuers) ≡ accepted)
        × (validate_sign_cert blake2b true time (load d) issuers ≡ accepted)
        × (check_issuer blake2b c (load d).props ≡ accepted)
  unfolding validate_sign_cert
  validate_sign_cert-parts time c d issuers h =
      five_accepted (validate_base_sign_cert true time c.props (d ∷ issuers))
        (check_target_public_keys c.props.target_public_keys c.props.multisig_threshold) (loads d)
        (validate_sign_cert blake2b true time (load d) issuers)
        (check_issuer blake2b c (load d).props) "Could not validate signCert: " h

  -- An accepted certificate stands at the end of a chain in which each is granted by the next.
  pub validate_sign_cert-IsChain :
      (time : Option ℤ) (c : SignCert) (issuers : List SignCert)
      → validate_sign_cert blake2b true time c issuers ≡ accepted
      → IsChain c issuers
  validate_sign_cert-IsChain time c [] h = tt
  validate_sign_cert-IsChain time c (d ∷ issuers) h =
      let (base, rest, issuer) = validate_sign_cert-parts time c d issuers h in
      let (counts_down, constraints) = check_issuer-accepted c (load d).props issuer in
      (
        record {
          issued = base-IsIssuedBy time c.props d issuers base;
          counts_down = counts_down;
          constrained = check_constraints-accepted _ _ _ _ constraints;
        },
        validate_sign_cert-IsChain time (load d) issuers rest,
      )

  pub chain_lasts :
      (c : SignCert) (issuers : List SignCert)
      → IsChain c issuers
      → Within (root c issuers).props.target_max_expire_time c.props.target_max_expire_time
  chain_lasts c [] h = Within-refl c.props.target_max_expire_time
  chain_lasts c (d ∷ issuers) h =
      Within-trans (root (load d) issuers).props.target_max_expire_time
        (load d).props.target_max_expire_time c.props.target_max_expire_time
        (chain_lasts (load d) issuers h.1) h.0.issued.lasts

  pub chain_owner :
      (c : SignCert) (issuers : List SignCert)
      → IsChain c issuers
      → c.props.owner ≡ (root c issuers).props.owner
  chain_owner c [] h = refl
  chain_owner c (d ∷ issuers) h = h.0.issued.owner ∙ chain_owner (load d) issuers h.1

  pub chain_counts :
      (c : SignCert) (issuers : List SignCert)
      → IsChain c issuers
      → or_zero c.props.countdown + length issuers ≤ or_zero (root c issuers).props.countdown
  chain_counts c [] h = omega arith
  chain_counts c (d ∷ issuers) h = omega (arith, h.0.counts_down, chain_counts (load d) issuers h.1)

  -- A certificate that is accepted under issuers is bound by the first of the chain: it has its owner,
  -- there are no more steps between them than its countdown allows, and it expires, as does all that
  -- it allows, within the time that the first one sets.
  pub accepted-Within-root :
      (time : Option ℤ) (c d : SignCert) (issuers : List SignCert)
      → validate_sign_cert blake2b true time c (d ∷ issuers) ≡ accepted
      → (c.props.owner ≡ (root c (d ∷ issuers)).props.owner)
        × (or_zero c.props.countdown + length (d ∷ issuers)
            ≤ or_zero (root c (d ∷ issuers)).props.countdown)
        × Within (root c (d ∷ issuers)).props.target_max_expire_time c.props.expire_time
        × Within (root c (d ∷ issuers)).props.target_max_expire_time c.props.target_max_expire_time
  accepted-Within-root time c d issuers h =
      let chain = validate_sign_cert-IsChain time c (d ∷ issuers) h in
      (
        chain_owner c (d ∷ issuers) chain,
        chain_counts c (d ∷ issuers) chain,
        Within-trans (root (load d) issuers).props.target_max_expire_time
            (load d).props.target_max_expire_time c.props.expire_time
            (chain_lasts (load d) issuers chain.1) chain.0.issued.expires,
        chain_lasts c (d ∷ issuers) chain,
      )
