-- ===== src/Friend/Validate/Granted.antt =====
-- By whose authority an accepted friend certificate is signed.
use openodin.Prelude.{◌≡◌, ◌∙◌, true, Option, none, some, List, ◌∷◌, String, arith, or_zero}
use openodin.Prelude.Int.{ℤ}
use openodin.Prelude.Buffer.{Buffer}
use openodin.Prelude.Verdict.{Verdict, accepted, wrap, ◌>>◌}
use openodin.Cert.Props.{SignCertProps, SignCert, loads, load}
use openodin.Cert.Validate.{validate_base_cert, validate_sign_cert}
use openodin.Cert.Validate.Chain.{
  Between, Within, IsChain, root, Within-trans, chain_owner, chain_lasts,
  validate_sign_cert-IsChain, check_type-accepted, check_owner-accepted, check_born-accepted,
  check_limit-accepted,
}
use openodin.Friend.Props.{FriendCertProps}
use openodin.Friend.Validate.{match_friend_cert, check_friend_props, validate_friend_cert}

-- What the certificate `q` grants the friend certificate `p` that is signed under it.
pub record IsFriendOf (p : FriendCertProps) (q : SignCertProps) : Type 0 where
  pub owner : p.owner ≡ q.owner
  pub type : (t : Buffer) → q.target_type ≡ some t → p.model_type ≡ some t
  pub born : Between q.creation_time q.expire_time p.creation_time
  pub lasts : Within q.target_max_expire_time p.license_max_expire_time
  pub expires : Within q.target_max_expire_time p.expire_time
  pub spent : or_zero q.countdown ≡ 0
  pub unconstrained : q.constraints ≡ none

match_friend_cert-IsFriendOf :
    (p : FriendCertProps) (q : SignCertProps) → match_friend_cert p q ≡ accepted → IsFriendOf p q
unfolding match_friend_cert
match_friend_cert-IsFriendOf p q h = record {
  owner = check_owner-accepted q.owner p.owner (ground arith);
  type = check_type-accepted q.target_type p.model_type (ground arith);
  born = check_born-accepted q.creation_time q.expire_time p.creation_time (ground arith);
  lasts =
      check_limit-accepted q.target_max_expire_time p.license_max_expire_time
        "cert must have licenseMaxExpireTime set if signCert has targetMaxExpireTime set"
        "cert cannot have larger licenseMaxExpireTime than signCert targetMaxExpireTime"
        (ground arith);
  expires =
      check_limit-accepted q.target_max_expire_time p.expire_time "expireTime must be set in cert"
        "cert cannot expire after signCerts targetMaxExpireTime" (ground arith);
  spent = ground arith;
  unconstrained = ground arith;
}

parts :
    (a b l c m : Verdict) (s : String)
    → (a >> (b >> (l >> (wrap s c >> m)))) ≡ accepted
    → (c ≡ accepted) × (m ≡ accepted)
parts a b l c m s h = ground arith

module _ (blake2b : Buffer → Buffer) where
  -- A friend certificate that is accepted with its certificate follows from it (owner, type, time of
  -- creation, countdown 0, no constraints), and with the issuers of the certificate behind it, from
  -- the first of the chain: that one has the same owner, and its `targetMaxExpireTime` bounds the
  -- expiry of the friend certificate and of the licenses that are extended under it.
  pub validate_friend_cert-IsFriendOf :
      (time : Option ℤ) (p : FriendCertProps) (c : SignCert) (issuers : List SignCert)
      → validate_friend_cert blake2b true time p (c ∷ issuers) ≡ accepted
      → IsFriendOf p (load c).props
        × IsChain blake2b (load c) issuers
        × (p.owner ≡ (root (load c) issuers).props.owner)
        × Within (root (load c) issuers).props.target_max_expire_time p.expire_time
        × Within (root (load c) issuers).props.target_max_expire_time p.license_max_expire_time
  unfolding validate_friend_cert
  validate_friend_cert-IsFriendOf time p c issuers h =
      let (certs, match) =
        parts (validate_base_cert p.model time) (check_friend_props p) (loads c)
          (validate_sign_cert blake2b true time (load c) issuers)
          (match_friend_cert p (load c).props) "Could not validate signCert: " h in
      let chain = validate_sign_cert-IsChain blake2b time (load c) issuers certs in
      let friend = match_friend_cert-IsFriendOf p (load c).props match in
      let bound = chain_lasts blake2b (load c) issuers chain in
      let limit = (root (load c) issuers).props.target_max_expire_time in
      let next = (load c).props.target_max_expire_time in
      (
        friend,
        chain,
        friend.owner ∙ chain_owner blake2b (load c) issuers chain,
        Within-trans limit next p.expire_time bound friend.expires,
        Within-trans limit next p.license_max_expire_time bound friend.lasts,
      )
