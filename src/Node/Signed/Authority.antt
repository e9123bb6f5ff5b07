-- ===== src/Node/Signed/Authority.antt =====
-- By whose authority an accepted node is signed.
use openodin.Prelude.{
  ℕ, ◌≤◌, ◌≡◌, ◌∙◌, true, Option, none, some, List, ◌∷◌, String, arith, or_zero, length,
}
use openodin.Prelude.Int.{ℤ}
use openodin.Prelude.Buffer.{Buffer}
use openodin.Prelude.Verdict.{Verdict, accepted, wrap, ◌>>◌, passes_le, passes_equals}
use openodin.Cert.Props.{SignCertProps, SignCert, loads, load}
use openodin.Cert.Validate.{validate_sign_cert}
use openodin.Cert.Validate.Chain.{
  Between, Within, IsChain, root, Within-trans, chain_owner, chain_lasts, chain_counts,
  validate_sign_cert-IsChain,
}
use openodin.Node.Props.{BaseNodeProps}
use openodin.Node.Validate.{validate_node}
use openodin.Node.Signed.{
  match_owner, match_type, match_creation, match_expire, match_constraints, match_sign_cert,
  validate_deep,
}

match_owner-accepted :
    (cert_owner owner : Option Buffer)
    → match_owner cert_owner owner ≡ accepted
    → owner ≡ cert_owner
unfolding match_owner
match_owner-accepted none owner h = cc
match_owner-accepted (some a) none h = cc
match_owner-accepted (some a) (some b) h = let same = passes_equals b a _ h in cc

match_type-accepted :
    (type model_type : Option Buffer)
    → match_type type model_type ≡ accepted
    → (t : Buffer) → type ≡ some t
    → model_type ≡ some t
unfolding match_type
match_type-accepted none m h t e = cc
match_type-accepted (some a) none h t e = cc
match_type-accepted (some a) (some b) h t e = let same = passes_equals a b _ h in cc

match_creation-accepted :
    (low high value : Option ℤ) → match_creation low high value ≡ accepted → Between low high value
unfolding match_creation
match_creation-accepted (some low) (some high) (some value) h = (
  passes_le low value "Node cannot be created before the certificates creation time" (ground arith),
  passes_le value high "Node cannot be created after the certificates expire time" (ground arith),
)
match_creation-accepted (some low) (some high) none h = cc
match_creation-accepted (some low) none value h = cc
match_creation-accepted none high value h = cc

match_expire-accepted :
    (limit value : Option ℤ) → match_expire limit value ≡ accepted → Within limit value
unfolding match_expire
match_expire-accepted none value h = tt
match_expire-accepted (some limit) none h = cc
match_expire-accepted (some limit) (some value) h = passes_le value limit _ h

match_constraints-accepted :
    (constraints : Option Buffer) (expected : Buffer)
    → match_constraints constraints expected ≡ accepted
    → (b : Buffer) → constraints ≡ some b
    → b ≡ expected
unfolding match_constraints
match_constraints-accepted none expected h b e = cc
match_constraints-accepted (some a) expected h b e = let same = passes_equals a expected _ h in cc

module _ (blake2b : Buffer → Buffer) (hash_constraints : ℕ → Buffer) where
  -- What the certificate of a node grants it, as its own props say.
  pub record IsSignedBy (p : BaseNodeProps) (q : SignCertProps) : Type 0 where
    pub owner : p.owner ≡ q.owner
    pub type : (t : Buffer) → q.target_type ≡ some t → p.model_type ≡ some t
    pub born : Between q.creation_time q.expire_time p.creation_time
    pub expires : Within q.target_max_expire_time p.expire_time
    pub spent : or_zero q.countdown ≡ 0
    pub constrained :
        (b : Buffer) → q.constraints ≡ some b → b ≡ hash_constraints (or_zero q.locked_config)

  match_sign_cert-IsSignedBy :
      (p : BaseNodeProps) (q : SignCertProps) (signer : Option Buffer)
      → match_sign_cert hash_constraints p q signer ≡ accepted
      → IsSignedBy p q
  unfolding match_sign_cert
  match_sign_cert-IsSignedBy p q signer h = record {
    owner = match_owner-accepted q.owner p.owner (ground arith);
    type = match_type-accepted q.target_type p.model_type (ground arith);
    born = match_creation-accepted q.creation_time q.expire_time p.creation_time (ground arith);
    expires = match_expire-accepted q.target_max_expire_time p.expire_time (ground arith);
    spent = ground arith;
    constrained =
        match_constraints-accepted q.constraints (hash_constraints (or_zero q.locked_config))
          (ground arith);
  }

  deep_parts :
      (a l c m : Verdict) (s t : String)
      → (a >> (l >> (wrap s c >> wrap t m))) ≡ accepted
      → (a ≡ accepted) × (c ≡ accepted) × (m ≡ accepted)
  deep_parts a l c m s t h = ground arith

  -- A node that is accepted with its certificate follows from it (owner, type, time of creation,
  -- constraints, countdown 0), and with the issuers of the certificate behind it, from the first of
  -- the chain: that one has the same owner, bounds the number of certificates between by its
  -- countdown, and the expiry of the node by its `targetMaxExpireTime`.
  pub validate_deep-IsSignedBy :
      (p : BaseNodeProps) (c : SignCert) (issuers : List SignCert) (time : Option ℤ)
      → validate_deep hash_constraints blake2b p (c ∷ issuers) time ≡ accepted
      → (validate_node p time ≡ accepted)
        × IsSignedBy p (load c).props
        × IsChain blake2b (load c) issuers
        × (p.owner ≡ (root (load c) issuers).props.owner)
        × (length issuers ≤ or_zero (root (load c) issuers).props.countdown)
        × Within (root (load c) issuers).props.target_max_expire_time p.expire_time
  unfolding validate_deep
  validate_deep-IsSignedBy p c issuers time h =
      let (node, certs, match) =
        deep_parts (validate_node p time) (loads c)
          (validate_sign_cert blake2b true time (load c) issuers)
          (match_sign_cert hash_constraints p (load c).props none) "Could not validate signCert: "
          "Could not match signCert: " h in
      let chain = validate_sign_cert-IsChain blake2b time (load c) issuers certs in
      let signed = match_sign_cert-IsSignedBy p (load c).props none match in
      (
        node,
        signed,
        chain,
        signed.owner ∙ chain_owner blake2b (load c) issuers chain,
        omega (arith, chain_counts blake2b (load c) issuers chain),
        Within-trans (root (load c) issuers).props.target_max_expire_time
            (load c).props.target_max_expire_time p.expire_time
            (chain_lasts blake2b (load c) issuers chain) signed.expires,
      )
