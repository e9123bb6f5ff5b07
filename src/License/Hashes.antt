-- ===== src/License/Hashes.antt =====
-- How a license names the node that it is for: `getLicenseHashes` of
-- datamodel/level1/basenode/BaseNode.ts, and `getLicensingHashes` and `getRootOwner` of
-- datamodel/level2/baselicensenode/BaseLicenseNode.ts and level3/licensenode/LicenseNode.ts. The list
-- is computed anew: the code keeps the first one that it has computed.
use openodin.Prelude.{
  ◌≡◌, refl, sym, subst, String, ◌∙◌, ◌⊎◌, inl, inr, Bool, true, false, ◌||◌, Option, none, some,
  List, [], ◌∷◌, All, any, if◌then◌else◌,
}
use mathlib.Core.Option.{some_inj}
use openodin.Prelude.Buffer.{Buffer, equals, equals_refl}
use openodin.Prelude.Result.{Result, ok, ◌>>=◌, >>=-eq-ok}
use openodin.Model.HashList.{hash_list}
use openodin.Friend.Hash.{expect}
use openodin.Node.Props.{BaseNodeProps}
use openodin.Node.Flags.{load_flags}
use openodin.Node.Validate.{truthy}
use openodin.License.Props.{BaseLicenseNodeProps, LicenseNodeProps}
use openodin.License.Flags.{load_license_flags}

-- The bytes of "write" and "read".
prefix : Bool → Buffer
prefix true = 119 ∷ 114 ∷ 105 ∷ 116 ∷ 101 ∷ []
prefix false = 114 ∷ 101 ∷ 97 ∷ 100 ∷ []

-- `otherParentId ?? this.props.parentId`
parent_of : Option Buffer → Option Buffer → Option Buffer
parent_of none parent_id = parent_id
parent_of (some other) parent_id = some other

-- `flags.restrictiveModeWriter || flags.restrictiveModeManager`
unfoldable pub is_write_license : BaseLicenseNodeProps → Bool
unfolding truthy
is_write_license p =
    truthy (load_license_flags p).restrictive_mode_writer
    || truthy (load_license_flags p).restrictive_mode_manager

-- The owner of the innermost of the licenses, of which the second stands in the first, and so on. The
-- code reads them from the packed bytes of the outermost, and asserts that it is packed.
unfoldable pub get_root_owner : LicenseNodeProps → List LicenseNodeProps → Result Buffer
unfolding expect
get_root_owner p [] = expect p.owner "Expected owner to be set"
get_root_owner p (e ∷ stack) = get_root_owner e stack

module _ (blake2b : Buffer → Buffer) where
  unfoldable pub get_license_hashes :
      BaseNodeProps → Bool → Buffer → Buffer → Option Buffer → Result (List Buffer)
  unfolding expect prefix parent_of truthy
  get_license_hashes n is_write last_issuer target_public_key other_parent_id =
      expect (parent_of other_parent_id n.parent_id) "Expected props.parentId to have been set"
      >>= λ parent_id. expect n.id1 "Expected props.id1 to have been set" >>= λ id1.
          expect n.owner "Expected props.owner to have been set" >>= λ first_issuer. ok (
            if truthy (load_flags n).is_licensed
              || truthy (load_flags n).is_begin_restrictive_write_mode
            then hash_list blake2b (
                some (prefix is_write)
                ∷ some id1
                ∷ some parent_id
                ∷ some first_issuer
                ∷ some last_issuer
                ∷ some target_public_key
                ∷ [])
              ∷ []
            else [])

  -- The two hashes for the peer that may relay the license.
  jump_hashes : Option Buffer → Buffer → Buffer → Buffer → Buffer → Buffer → List Buffer
  jump_hashes none kind ref_id parent_id first_issuer last_issuer = []
  jump_hashes (some jump) kind ref_id parent_id first_issuer last_issuer =
      hash_list blake2b
        (some kind ∷ some ref_id ∷ some parent_id ∷ some first_issuer ∷ none ∷ some jump ∷ [])
      ∷ hash_list blake2b (
          some kind
          ∷ some ref_id
          ∷ some parent_id
          ∷ some first_issuer
          ∷ some last_issuer
          ∷ some jump
          ∷ [])
      ∷ []

  hashes_of : Buffer → Buffer → Buffer → Buffer → Buffer → Buffer → Option Buffer → List Buffer
  unfolding jump_hashes
  hashes_of kind ref_id parent_id first_issuer last_issuer target jump =
      hash_list blake2b (some kind ∷ some ref_id ∷ some parent_id ∷ some first_issuer ∷ [])
      ∷ hash_list blake2b
          (some kind ∷ some ref_id ∷ some parent_id ∷ some first_issuer ∷ none ∷ some target ∷ [])
      ∷ hash_list blake2b (
          some kind
          ∷ some ref_id
          ∷ some parent_id
          ∷ some first_issuer
          ∷ some last_issuer
          ∷ none
          ∷ [])
      ∷ hash_list blake2b (
          some kind
          ∷ some ref_id
          ∷ some parent_id
          ∷ some first_issuer
          ∷ some last_issuer
          ∷ some target
          ∷ [])
      ∷ jump_hashes jump kind ref_id parent_id first_issuer last_issuer

  unfoldable pub get_licensing_hashes :
      LicenseNodeProps → List LicenseNodeProps → Result (List Buffer)
  unfolding expect hashes_of prefix
  get_licensing_hashes p stack =
      expect p.parent_id "Expected props.parentId to have been set" >>= λ parent_id.
      expect p.ref_id "Expected props.refId to have been set" >>= λ ref_id.
      get_root_owner p stack >>= λ first_issuer.
      expect p.owner "Expected props.owner to have been set" >>= λ last_issuer.
      expect p.target_public_key "Expected props.targetPublicKey to have been set" >>= λ target.
      ok (
        hashes_of (prefix (is_write_license p.base)) ref_id parent_id first_issuer last_issuer
          target p.jump_peer_public_key)

  unfoldable pub has_hash : List Buffer → Buffer → Bool
  has_hash hashes hash = any (equals hash) hashes

  or_true : (a : Bool) → (a || true) ≡ true
  or_true true = refl
  or_true false = refl

  -- The hash of the last issuer and a key is among those of a license for that key.
  hashes_of-has :
      (kind ref_id parent_id first_issuer last_issuer target key : Buffer) (jump : Option Buffer)
      → (target ≡ key) ⊎ (jump ≡ some key)
      → has_hash (hashes_of kind ref_id parent_id first_issuer last_issuer target jump) (
          hash_list blake2b (
            some kind
            ∷ some ref_id
            ∷ some parent_id
            ∷ some first_issuer
            ∷ some last_issuer
            ∷ some key
            ∷ []))
        ≡ true
  unfolding hashes_of jump_hashes has_hash
  hashes_of-has kind ref_id parent_id first_issuer last_issuer target key jump (inl is_target) =
      simp (is_target, equals_refl, or_true)
  hashes_of-has kind ref_id parent_id first_issuer last_issuer target key jump (inr is_jump) =
      simp (is_jump, equals_refl, or_true)

  found :
      (kind ref_id parent_id first_issuer last target key : Buffer) (jump : Option Buffer)
      {id1 parent_id' owner last_issuer : Buffer}
      → ref_id ≡ id1
      → parent_id ≡ parent_id'
      → first_issuer ≡ owner
      → last ≡ last_issuer
      → (target ≡ key) ⊎ (jump ≡ some key)
      → has_hash (hashes_of kind ref_id parent_id first_issuer last target jump) (
          hash_list blake2b (
            some kind ∷ some id1 ∷ some parent_id' ∷ some owner ∷ some last_issuer ∷ some key ∷ []))
        ≡ true
  found kind ref_id parent_id first_issuer last target key jump a b c d for_key =
      rw (← a, ← b, ← c, ← d)
        (hashes_of-has kind ref_id parent_id first_issuer last target key jump for_key)

  ok_inj : {A : Type 0} {a b : A} → ok a ≡ ok b → a ≡ b
  ok_inj e = cc

  expected :
      {A : Type 0} (o : Option A) (message : String) {a : A} → expect o message ≡ ok a → o ≡ some a
  unfolding expect
  expected none message h = absurd cc
  expected (some b) message h = cc

  known_target :
      (o : Option Buffer) (target key : Buffer) (jump : Option Buffer)
      → o ≡ some target
      → (o ≡ some key) ⊎ (jump ≡ some key)
      → (target ≡ key) ⊎ (jump ≡ some key)
  known_target o target key jump e (inl same) = inl (some_inj.0 (sym e ∙ same))
  known_target o target key jump e (inr same) = inr same

  asked_one :
      (test : Bool) (hash : Buffer) (licensing : List Buffer) {asked : List Buffer}
      → has_hash licensing hash ≡ true
      → (if test then hash ∷ [] else []) ≡ asked
      → All (λ h. has_hash licensing h ≡ true) asked
  asked_one true hash licensing h e = subst (All (λ x. has_hash licensing x ≡ true)) e (h, tt)
  asked_one false hash licensing h e = subst (All (λ x. has_hash licensing x ≡ true)) e tt

  -- A license is found by the hashes of a node that it is for: when it is for the node's id1, under
  -- the node's parent, and the owner of its innermost license is the node's owner, each hash that
  -- the node asks for, on behalf of the license's owner and of its target or jump peer, is among the
  -- hashes of the license, if both are for reading or both for writing.
  pub license_hashes_match :
      (n : BaseNodeProps) (p : LicenseNodeProps) (stack : List LicenseNodeProps)
      (last_issuer key : Buffer) {asked licensing : List Buffer}
      → p.ref_id ≡ n.id1
      → p.parent_id ≡ n.parent_id
      → p.owner ≡ some last_issuer
      → (p.target_public_key ≡ some key) ⊎ (p.jump_peer_public_key ≡ some key)
      → ((owner : Buffer) → get_root_owner p stack ≡ ok owner → n.owner ≡ some owner)
      → get_license_hashes n (is_write_license p.base) last_issuer key none ≡ ok asked
      → get_licensing_hashes p stack ≡ ok licensing
      → All (λ hash. has_hash licensing hash ≡ true) asked
  unfolding get_license_hashes get_licensing_hashes parent_of
  license_hashes_match n p stack last_issuer key {asked} {licensing} refs parent issuer for_key root
        asks licenses =
      let (parent_id, e1, h1) = >>=-eq-ok _ _ licenses in
      let (ref_id, e2, h2) = >>=-eq-ok _ _ h1 in
      let (first_issuer, e3, h3) = >>=-eq-ok _ _ h2 in
      let (last, e4, h4) = >>=-eq-ok _ _ h3 in
      let (target, e5, h5) = >>=-eq-ok _ _ h4 in
      let (parent_id', f1, k1) = >>=-eq-ok _ _ asks in
      let (id1, f2, k2) = >>=-eq-ok _ _ k1 in
      let (owner, f3, k3) = >>=-eq-ok _ _ k2 in
      let same_parent =
        some_inj.0 (sym (expected p.parent_id _ e1) ∙ parent ∙ expected n.parent_id _ f1) in
      let same_ref = some_inj.0 (sym (expected p.ref_id _ e2) ∙ refs ∙ expected n.id1 _ f2) in
      let same_root = some_inj.0 (sym (root first_issuer e3) ∙ expected n.owner _ f3) in
      let same_issuer = some_inj.0 (sym (expected p.owner _ e4) ∙ issuer) in
      let hash = hash_list blake2b (
        some (prefix (is_write_license p.base))
        ∷ some id1
        ∷ some parent_id'
        ∷ some owner
        ∷ some last_issuer
        ∷ some key
        ∷ []) in
      asked_one _ hash licensing
        (subst (λ hashes. has_hash hashes hash ≡ true) (ok_inj h5)
          (found (prefix (is_write_license p.base)) ref_id parent_id first_issuer last target key
            p.jump_peer_public_key same_ref same_parent same_root same_issuer
            (known_target p.target_public_key target key p.jump_peer_public_key
              (expected p.target_public_key _ e5) for_key)))
        (ok_inj k3)
