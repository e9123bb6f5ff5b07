-- ===== src/Data/Validate/Embedded.antt =====
-- What an accepted node guarantees of the nodes that it embeds.
use openodin.Prelude.{
  ◌≡◌, refl, sym, ap, ◌∙◌, String, Bool, true, false, not, ◌||◌, ◌&&◌, Option, none, some, List, [],
  ◌∷◌, is_set,
}
use openodin.Prelude.Int.{ℤ}
use openodin.Prelude.Buffer.{Buffer}
use openodin.Prelude.Verdict.{
  Verdict, accepted, thrown, refuse_if, when, ◌>>◌, both_accepted, not_refused, passes,
  when-eq-accepted, wrap-eq-accepted, passes_equals,
}
use openodin.Prelude.Result.{Result, ok, error}
use openodin.Model.Props.{validate_model, has_bytes}
use openodin.Cert.Props.{SignCert}
use openodin.Node.Props.{BaseNodeProps}
use openodin.Node.Flags.{load_flags}
use openodin.Node.Validate.{validate_node, truthy}
use openodin.Node.Validate.Rules.{validate_node_iff}
use openodin.Node.Signed.{validate_deep}
use openodin.Data.Props.{SignatureObject, DataNodeProps}
use openodin.Data.Validate.{
  DataNode, is_private, are_unlike, check_privacy, check_place, check_embedding,
  validate_base_data_node, validate_with, validate_data_node,
}

-- The node `p` may embed `e`: `e` allows it, is under the same parent or may be moved, and if it is
-- private, so is `p`, of the same owner.
pub record Embeds (p e : BaseNodeProps) : Type 0 where
  pub allowed : truthy (load_flags e).allow_embed ≡ true
  pub stays_private : is_private e ≡ true → (is_private p ≡ true) × (p.owner ≡ e.owner)
  pub stays_under : truthy (load_flags e).allow_embed_move ≡ false → p.parent_id ≡ e.parent_id

abbrev pub AllEmbed : BaseNodeProps → List (Result DataNode) → Type 0
AllEmbed p [] = Unit
AllEmbed p (error message ∷ rest) = ⊥
AllEmbed p (ok e ∷ rest) = Embeds p e.props.node × AllEmbed e.props.node rest

-- Every private node of the stack is embedded in a private node of its owner.
abbrev pub KeepsPrivate : BaseNodeProps → List (Result DataNode) → Type 0
KeepsPrivate p [] = Unit
KeepsPrivate p (error message ∷ rest) = ⊥
KeepsPrivate p (ok e ∷ rest) =
    (is_private e.props.node ≡ true → (is_private p ≡ true) × (p.owner ≡ e.props.node.owner))
    × KeepsPrivate p rest

keeps_outward :
    (p e : BaseNodeProps) (rest : List (Result DataNode))
    → (is_private e ≡ true → (is_private p ≡ true) × (p.owner ≡ e.owner))
    → KeepsPrivate e rest
    → KeepsPrivate p rest
keeps_outward p e [] link kept = tt
keeps_outward p e (error message ∷ rest) link kept = kept
keeps_outward p e (ok f ∷ rest) link (inner, kept) = (
  λ private. let (outer, owner) = link (inner private).0 in (outer, owner ∙ (inner private).1),
  keeps_outward p e rest link kept,
)

keeps :
    (p : BaseNodeProps) (stack : List (Result DataNode)) → AllEmbed p stack → KeepsPrivate p stack
keeps p [] all = tt
keeps p (error message ∷ rest) all = all
keeps p (ok e ∷ rest) (embeds, all) = (
  embeds.stays_private,
  keeps_outward p e.props.node rest embeds.stays_private (keeps e.props.node rest all),
)

-- The owner and the parent of a node are set.
abbrev IsPlaced : BaseNodeProps → Type 0
IsPlaced p = (is_set p.owner ≡ true) × (is_set p.parent_id ≡ true)

bytes_set : (a : Option Buffer) → has_bytes a ≡ true → is_set a ≡ true
bytes_set none h = h
bytes_set (some a) h = refl

model_owner :
    (p : BaseNodeProps) (time : Option ℤ)
    → validate_model p.model time ≡ accepted
    → has_bytes p.owner ≡ true
unfolding validate_model
model_owner p time h =
    let (_, h1) = both_accepted _ _ h in
    let (owner, _) = both_accepted _ _ h1 in passes (has_bytes p.owner) _ owner

validate_node-IsPlaced :
    (p : BaseNodeProps) (time : Option ℤ) → validate_node p time ≡ accepted → IsPlaced p
validate_node-IsPlaced p time h =
    let (model, rules) = (validate_node_iff p time).0 h in
    (bytes_set p.owner (model_owner p time model), bytes_set p.parent_id rules.has_parent)

like :
    (a b : Option Buffer) (reason : String)
    → is_set a ≡ true
    → is_set b ≡ true
    → refuse_if (are_unlike a b) reason ≡ accepted
    → a ≡ b
like none b reason k l h = cc
like (some a) none reason k l h = cc
like (some a) (some b) reason k l h = let same = passes_equals a b reason h in cc

check_privacy-accepted :
    (p e : BaseNodeProps)
    → IsPlaced p
    → IsPlaced e
    → check_privacy p e ≡ accepted
    → (is_private p ≡ true) × (p.owner ≡ e.owner)
unfolding check_privacy
check_privacy-accepted p e (owner, parent) (e_owner, e_parent) h =
    let (also, same) = both_accepted _ _ h in
    (neither _ _ (not_refused _ _ also), sym (like e.owner p.owner _ e_owner owner same))
  where
    neither : (a b : Bool) → (a || b) ≡ false → (not a && not b) ≡ true
    neither true b h = cc
    neither false true h = cc
    neither false false h = refl

check_embedding-accepted :
    (p e : BaseNodeProps) → IsPlaced p → IsPlaced e → check_embedding p e ≡ accepted → Embeds p e
unfolding check_embedding check_place
check_embedding-accepted p e at_p at_e h =
    let private = when (is_private e) (check_privacy p e) in
    let moved = when (not (truthy (load_flags e).allow_embed_move)) (check_place p e) in
    let (allowed, h1) = both_accepted _ (private >> moved) h in
    let (h2, h3) = both_accepted private moved h1 in
    record {
      allowed = passes _ _ allowed;
      stays_private = λ k. check_privacy-accepted p e at_p at_e ((when-eq-accepted _ _).0 h2 k);
      stays_under = λ k.
          like p.parent_id e.parent_id _ at_p.1 at_e.1
            ((when-eq-accepted _ (check_place p e)).0 h3 (ap not k));
    }

module _ (blake2b : Buffer → Buffer) (time : Option ℤ)
    (unpack_copied : Buffer → Result (List SignatureObject)) where
  base-IsPlaced :
      (n : DataNode)
      → validate_base_data_node blake2b true time n ≡ accepted
      → IsPlaced n.props.node
  unfolding validate_base_data_node validate_deep
  base-IsPlaced n h = by_certs n.certs (both_accepted _ _ h).0
    where
      by_certs :
          (certs : List SignCert)
          → validate_deep n.hash_constraints blake2b n.props.node certs time ≡ accepted
          → IsPlaced n.props.node
      by_certs [] k = validate_node-IsPlaced n.props.node time k
      by_certs (c ∷ issuers) k = validate_node-IsPlaced n.props.node time (both_accepted _ _ k).0

  -- The base checks and the checks of what is embedded, of an accepted node.
  ends_of :
      (n : DataNode) (check_embedded : DataNodeProps → Verdict)
      → validate_with blake2b true time unpack_copied n check_embedded ≡ accepted
      → IsPlaced n.props.node × (check_embedded n.props ≡ accepted)
  unfolding validate_with
  ends_of n check_embedded h =
      let (base, h1) = both_accepted _ _ h in
      let (_, h2) = both_accepted _ _ h1 in
      let (_, h3) = both_accepted _ _ h2 in (base-IsPlaced n base, h3)

  all_embed :
      (n : DataNode) (stack : List (Result DataNode))
      → validate_data_node blake2b true time unpack_copied n stack ≡ accepted
      → IsPlaced n.props.node × AllEmbed n.props.node stack
  unfolding validate_data_node
  all_embed n [] h = ((ends_of n _ h).0, tt)
  all_embed n (error message ∷ rest) h = absurd (thrown_not (ends_of n _ h).1)
    where
      thrown_not : thrown message ≡ accepted → ⊥
      thrown_not e = cc
  all_embed n (ok e ∷ rest) h =
      let (at_n, h1) = ends_of n _ h in
      let (inner, embedding) = both_accepted _ _ h1 in
      let (at_e, all) =
        all_embed e rest (wrap-eq-accepted "Could not validate embedded: " _ inner) in
      (at_n, (check_embedding-accepted n.props.node e.props.node at_n at_e embedding, all))

  -- If deep validation accepts a data node, every node embedded in it in turn can be decoded, allows
  -- to be embedded, and stays under its parent unless it may be moved. And each of them that is
  -- private is embedded in nodes that are all private and of its owner.
  pub validate_data_node-KeepsPrivate :
      (n : DataNode) (stack : List (Result DataNode))
      → validate_data_node blake2b true time unpack_copied n stack ≡ accepted
      → AllEmbed n.props.node stack × KeepsPrivate n.props.node stack
  validate_data_node-KeepsPrivate n stack h =
      let (_, all) = all_embed n stack h in (all, keeps n.props.node stack all)
