-- ===== src/Node/Validate/Rules.antt =====
-- The rules that an accepted node follows, stated on its flags and props.
use openodin.Prelude.{ℕ, ◌≤◌, ◌<◌, ◌≡◌, refl, ◌↔◌, true, false, Option, none, some, arith, or_zero}
use openodin.Prelude.Int.{ℤ}
use openodin.Prelude.Verdict.{Verdict, accepted, ◌>>◌}
use openodin.Model.Props.{validate_model, has_bytes}
use openodin.Node.Props.{BaseNodeProps, BaseNodeFlags, max_license_distance}
use openodin.Node.Flags.{load_flags}
use openodin.Node.Validate.{
  truthy, check_parent, check_licensed, check_association, check_distances, check_embed, check_leaf,
  validate_node,
}

-- Distances are both unset, or in order and within the maximum.
abbrev pub AreDistances : Option ℕ → Option ℕ → Type 0
AreDistances none none = Unit
AreDistances (some least) (some most) = (least ≤ most) × (most ≤ max_license_distance)
AreDistances _ _ = ⊥

pub record FollowsRules (f : BaseNodeFlags) (p : BaseNodeProps) : Type 0 where
  pub has_parent : has_bytes p.parent_id ≡ true
  pub nonce_has_difficulty : has_bytes p.difficulty_nonce ≡ true → 0 < or_zero p.difficulty
  pub public_unlicensed : truthy f.is_public ≡ true → truthy f.is_licensed ≡ false
  pub unlicensed_undistanced :
      truthy f.is_licensed ≡ false
      → (p.license_min_distance ≡ none) × (p.license_max_distance ≡ none)
  pub associated :
      truthy f.has_rights_by_association ≡ true
      → (truthy f.is_licensed ≡ false)
        × (truthy f.is_public ≡ false)
        × (has_bytes p.ref_id ≡ true)
        × (truthy f.allow_embed ≡ false)
  pub distances : AreDistances p.license_min_distance p.license_max_distance
  pub embeds :
      truthy f.allow_embed_move ≡ true
      → (truthy f.allow_embed ≡ true) × (or_zero p.license_min_distance ≡ 0)
  pub leaf :
      truthy f.is_leaf ≡ true
      → (truthy f.is_begin_restrictive_write_mode ≡ false)
        × (truthy f.is_end_restrictive_write_mode ≡ false)
        × (truthy f.only_own_children ≡ false)
        × (truthy f.disallow_public_children ≡ false)
        × (p.child_min_difficulty ≡ none)

check_parent_iff :
    (p : BaseNodeProps)
    → (check_parent p ≡ accepted) ↔ (
        (has_bytes p.parent_id ≡ true)
        × (has_bytes p.difficulty_nonce ≡ true → 0 < or_zero p.difficulty))
unfolding check_parent
check_parent_iff p = (λ h. (ground arith, λ k. ground arith), λ h. ground (arith, h.1))

check_licensed_iff :
    (f : BaseNodeFlags) (p : BaseNodeProps)
    → (check_licensed f p ≡ accepted) ↔ (
        (truthy f.is_public ≡ true → truthy f.is_licensed ≡ false)
        × (truthy f.is_licensed ≡ false → p.license_min_distance ≡ none))
unfolding check_licensed
check_licensed_iff f p =
    (λ h. (λ k. ground arith, λ k. ground arith), λ h. ground (arith, h.0, h.1))

check_association_iff :
    (f : BaseNodeFlags) (p : BaseNodeProps)
    → (check_association f p ≡ accepted) ↔ (
        truthy f.has_rights_by_association ≡ true
        → (truthy f.is_licensed ≡ false)
          × (truthy f.is_public ≡ false)
          × (has_bytes p.ref_id ≡ true)
          × (truthy f.allow_embed ≡ false))
unfolding check_association
check_association_iff f p =
    (λ h k. (ground arith, ground arith, ground arith, ground arith), λ h. ground (arith, h))

check_distances_iff :
    (least most : Option ℕ) → (check_distances least most ≡ accepted) ↔ AreDistances least most
unfolding check_distances
check_distances_iff none none = (λ h. tt, λ h. refl)
check_distances_iff none (some most) = (λ h. cc, λ h. absurd h)
check_distances_iff (some least) none = (λ h. cc, λ h. absurd h)
check_distances_iff (some least) (some most) =
    (λ h. (ground arith, ground arith), λ h. ground arith)

check_embed_iff :
    (f : BaseNodeFlags) (p : BaseNodeProps)
    → (check_embed f p ≡ accepted) ↔ (
        truthy f.allow_embed_move ≡ true
        → (truthy f.allow_embed ≡ true) × (or_zero p.license_min_distance ≡ 0))
unfolding check_embed
check_embed_iff f p = (λ h k. (ground arith, ground arith), λ h. ground (arith, h))

check_leaf_iff :
    (f : BaseNodeFlags) (p : BaseNodeProps)
    → (check_leaf f p ≡ accepted) ↔ (
        truthy f.is_leaf ≡ true
        → (truthy f.is_begin_restrictive_write_mode ≡ false)
          × (truthy f.is_end_restrictive_write_mode ≡ false)
          × (truthy f.only_own_children ≡ false)
          × (truthy f.disallow_public_children ≡ false)
          × (p.child_min_difficulty ≡ none))
unfolding check_leaf
check_leaf_iff f p = (
  λ h k. (ground arith, ground arith, ground arith, ground arith, ground arith),
  λ h. ground (arith, h),
)

all_accepted :
    (a b c d e f g : Verdict)
    → ((a >> (b >> (c >> (d >> (e >> (f >> g)))))) ≡ accepted) ↔ (
        (a ≡ accepted)
        × (b ≡ accepted)
        × (c ≡ accepted)
        × (d ≡ accepted)
        × (e ≡ accepted)
        × (f ≡ accepted)
        × (g ≡ accepted))
all_accepted a b c d e f g = (λ h. ground arith, λ h. ground arith)

-- No distance is set if the least is not: the case that the test of the least distance alone leaves
-- open is caught by the test that both are set.
undistanced : (least most : Option ℕ) → AreDistances least most → least ≡ none → most ≡ none
undistanced none none h e = refl
undistanced none (some most) h e = absurd h
undistanced (some least) most h e = cc

-- A node is accepted exactly if it is a valid model and follows the rules on its flags and props.
pub validate_node_iff :
    (p : BaseNodeProps) (time : Option ℤ)
    → (validate_node p time ≡ accepted)
      ↔ ((validate_model p.model time ≡ accepted) × FollowsRules (load_flags p) p)
unfolding validate_node
validate_node_iff p time = (
  λ h.
      let (model, parent, licensed, association, distances, embed, leaf) = parts.0 h in
      (model, rules parent licensed association distances embed leaf),
  λ h. parts.1 (unrules h.0 h.1),
)
  where
    f : BaseNodeFlags
    f = load_flags p

    parts : (validate_node p time ≡ accepted) ↔ (
        (validate_model p.model time ≡ accepted)
        × (check_parent p ≡ accepted)
        × (check_licensed f p ≡ accepted)
        × (check_association f p ≡ accepted)
        × (check_distances p.license_min_distance p.license_max_distance ≡ accepted)
        × (check_embed f p ≡ accepted)
        × (check_leaf f p ≡ accepted))
    parts =
        all_accepted (validate_model p.model time) (check_parent p) (check_licensed f p)
          (check_association f p) (check_distances p.license_min_distance p.license_max_distance)
          (check_embed f p) (check_leaf f p)

    rules :
        check_parent p ≡ accepted
        → check_licensed f p ≡ accepted
        → check_association f p ≡ accepted
        → check_distances p.license_min_distance p.license_max_distance ≡ accepted
        → check_embed f p ≡ accepted
        → check_leaf f p ≡ accepted
        → FollowsRules f p
    rules a b c d e l =
        let a' = (check_parent_iff p).0 a in
        let b' = (check_licensed_iff f p).0 b in
        let d' = (check_distances_iff p.license_min_distance p.license_max_distance).0 d in
        record {
          has_parent = a'.0;
          nonce_has_difficulty = a'.1;
          public_unlicensed = b'.0;
          unlicensed_undistanced =
              λ k. (b'.1 k, undistanced p.license_min_distance p.license_max_distance d' (b'.1 k));
          associated = (check_association_iff f p).0 c;
          distances = d';
          embeds = (check_embed_iff f p).0 e;
          leaf = (check_leaf_iff f p).0 l;
        }

    unrules :
        validate_model p.model time ≡ accepted
        → FollowsRules f p
        → (validate_model p.model time ≡ accepted)
          × (check_parent p ≡ accepted)
          × (check_licensed f p ≡ accepted)
          × (check_association f p ≡ accepted)
          × (check_distances p.license_min_distance p.license_max_distance ≡ accepted)
          × (check_embed f p ≡ accepted)
          × (check_leaf f p ≡ accepted)
    unrules m r = (
      m,
      (check_parent_iff p).1 (r.has_parent, r.nonce_has_difficulty),
      (check_licensed_iff f p).1 (r.public_unlicensed, λ k. (r.unlicensed_undistanced k).0),
      (check_association_iff f p).1 r.associated,
      (check_distances_iff p.license_min_distance p.license_max_distance).1 r.distances,
      (check_embed_iff f p).1 r.embeds,
      (check_leaf_iff f p).1 r.leaf,
    )
