-- ===== src/License/Send.antt =====
-- `canSendEmbedded`, `canSendPrivately` and `canReceivePrivately` of
-- datamodel/level2/baselicensenode/BaseLicenseNode.ts.
use openodin.Prelude.{
  ◌≡◌, refl, ap, ◌↔◌, ◌⊎◌, inl, inr, Bool, true, false, not, Option, none, some, ◌==◌, or_zero,
  if◌then◌else◌, arith,
}
use mathlib.Core.Option.{some_inj}
use openodin.Prelude.Buffer.{Buffer, equals, equals_iff}
use openodin.Prelude.Result.{Result, ok, ◌>>=◌}
use openodin.Friend.Hash.{expect}
use openodin.Node.Validate.{truthy}
use openodin.License.Props.{BaseLicenseNodeProps}
use openodin.License.Flags.{load_license_flags}

-- `this.props.jumpPeerPublicKey?.equals(key)`
is_key : Option Buffer → Buffer → Bool
is_key none key = false
is_key (some own) key = equals own key

unfoldable pub can_send_embedded : BaseLicenseNodeProps → Buffer → Buffer → Result Bool
unfolding expect truthy
can_send_embedded p source_public_key target_public_key =
    if equals source_public_key target_public_key
    then ok false
    else (expect p.target_public_key "Expected targetPublicKey to be set" >>= λ target. ok (
        if equals target source_public_key
        then true
        else if not (truthy (load_license_flags p).allow_embed)
        then false
        else not (or_zero p.extensions == 0)))

unfoldable pub can_send_privately : BaseLicenseNodeProps → Buffer → Buffer → Result Bool
unfolding expect truthy is_key
can_send_privately p source_public_key target_public_key =
    expect p.owner "Expected owner to be set" >>= λ owner.
    expect p.target_public_key "Expected targetPublicKey to be set" >>= λ target. ok (
      if equals owner target_public_key
      then true
      else if equals target target_public_key
      then true
      else if is_key p.jump_peer_public_key target_public_key
      then true
      else if truthy (load_license_flags p).allow_target_send_privately
      then equals target source_public_key
      else false)

unfoldable pub can_receive_privately : BaseLicenseNodeProps → Buffer → Buffer → Result Bool
unfolding expect truthy is_key
can_receive_privately p source_public_key target_public_key =
    expect p.owner "Expected owner to be set" >>= λ owner.
    expect p.target_public_key "Expected targetPublicKey to be set" >>= λ target. ok (
      if equals owner target_public_key
      then true
      else if equals target target_public_key
      then true
      else if is_key p.jump_peer_public_key target_public_key
      then true
      else if truthy (load_license_flags p).allow_target_send_privately
      then equals target source_public_key
      else false)

-- To whom a license may go: its owner, its target, the peer that relays it, and whomever its target
-- sends it, if that is allowed.
unfoldable pub MayHold : BaseLicenseNodeProps → Buffer → Buffer → Buffer → Buffer → Type 0
MayHold p owner target source_public_key target_public_key =
    (owner ≡ target_public_key)
    ⊎ ((target ≡ target_public_key)
        ⊎ ((p.jump_peer_public_key ≡ some target_public_key)
            ⊎ ((truthy (load_license_flags p).allow_target_send_privately ≡ true)
                × (target ≡ source_public_key))))

is_key_iff : (o : Option Buffer) (key : Buffer) → (is_key o key ≡ true) ↔ (o ≡ some key)
unfolding is_key
is_key_iff none key = (λ h. absurd cc, λ h. absurd cc)
is_key_iff (some own) key =
    let (to, from) = equals_iff own key in (λ h. ap some (to h), λ h. from (some_inj.0 h))

four_tests :
    (a b c d e : Bool)
    → ((if a then true else if b then true else if c then true else if d then e else false) ≡ true)
      ↔ ((a ≡ true) ⊎ ((b ≡ true) ⊎ ((c ≡ true) ⊎ ((d ≡ true) × (e ≡ true)))))
four_tests true b c d e = (λ h. inl refl, λ h. refl)
four_tests false true c d e = (λ h. inr (inl refl), λ h. refl)
four_tests false false true d e = (λ h. inr (inr (inl refl)), λ h. refl)
four_tests false false false true e = (λ h. inr (inr (inr (refl, h))), λ h. ground arith)
four_tests false false false false e = (λ h. absurd cc, λ h. ground arith)

ok_inj : {a b : Bool} → ok a ≡ ok b → a ≡ b
ok_inj e = cc

-- A license with an owner and a target may be sent privately from a peer to another exactly if the
-- receiver is its owner, its target or its jump peer, or the sender is its target and it allows the
-- target to send it; and a peer may receive it under the same condition, with the same errors where
-- owner or target are missing.
pub can_send_privately_iff :
    (p : BaseLicenseNodeProps) (owner target source_public_key target_public_key : Buffer)
    → p.owner ≡ some owner
    → p.target_public_key ≡ some target
    → ((can_send_privately p source_public_key target_public_key ≡ ok true)
        ↔ MayHold p owner target source_public_key target_public_key)
      × ((other : BaseLicenseNodeProps)
          → can_receive_privately other source_public_key target_public_key
            ≡ can_send_privately other source_public_key target_public_key)
unfolding can_send_privately can_receive_privately MayHold expect
can_send_privately_iff p owner target source_public_key target_public_key has_owner has_target =
    let (to, from) =
      four_tests (equals owner target_public_key) (equals target target_public_key)
        (is_key p.jump_peer_public_key target_public_key)
        (truthy (load_license_flags p).allow_target_send_privately)
        (equals target source_public_key) in
    let (owns, owned) = equals_iff owner target_public_key in
    let (is_for, is_for') = equals_iff target target_public_key in
    let (jumps, jumps') = is_key_iff p.jump_peer_public_key target_public_key in
    let (sends, sends') = equals_iff target source_public_key in
    (
      simp (has_owner, has_target)
          (
            λ h. elim (to (ok_inj h)) [
              | inl a ↦ inl (owns a)
              | inr (inl b) ↦ inr (inl (is_for b))
              | inr (inr (inl c)) ↦ inr (inr (inl (jumps c)))
              | inr (inr (inr (d, e))) ↦ inr (inr (inr (d, sends e)))
            ],
            λ h. ap ok (
                from (elim h [
                  | inl a ↦ inl (owned a)
                  | inr (inl b) ↦ inr (inl (is_for' b))
                  | inr (inr (inl c)) ↦ inr (inr (inl (jumps' c)))
                  | inr (inr (inr (d, e))) ↦ inr (inr (inr (d, sends' e)))
                ])),
          ),
      λ other. refl,
    )
