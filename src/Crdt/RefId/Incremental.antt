-- ===== src/Crdt/RefId/Incremental.antt =====
-- storage/crdt/AlgoRefId.ts: to index only the added nodes gives the levels of the whole index, when
-- no node that is there refers to an added one.
use mathlib.Core.Option
use openodin.Prelude.{
  ℕ, zero, suc, ◌≡◌, refl, ◌∙◌, ap, ap₂, subst, Bool, true, false, Option, none, some, List, [],
  ◌∷◌, ◌++◌, All, is_set, if◌then◌else◌, Bool-cases, inl, inr,
}
use openodin.Prelude.Buffer.{Buffer, equals}
use openodin.Prelude.Dict.{Dict, lookup, put, lookup-put}
use openodin.Crdt.SortedRefId.{NodeValuesRefId}
use openodin.Crdt.SortedRefId.Moves.{neither, occurs}
use openodin.Crdt.RefId.{
  Pushed, parent_of, above, one_more, height, find_level, push_nodes, then_push, and_then,
  values_of,
}

-- `this.nodeById1[id1] = node` for each node.
abbrev pub put_all : List NodeValuesRefId → Dict NodeValuesRefId → Dict NodeValuesRefId
put_all [] nodes = nodes
put_all (node ∷ added) nodes = put_all added (put node.id1 node nodes)

-- A node that is there under its identity, is not one of the added and does not refer to any.
pub record IsApart (nodes : Dict NodeValuesRefId) (added : List NodeValuesRefId)
    (node : NodeValuesRefId) : Type 0 where
  pub there : lookup node.id1 nodes ≡ some node
  pub other : occurs node.id1 added ≡ false
  pub apart : occurs (parent_of node) added ≡ false

pub lookup-put_all :
    (id1 : Buffer) (added : List NodeValuesRefId) (nodes : Dict NodeValuesRefId)
    → occurs id1 added ≡ false
    → lookup id1 (put_all added nodes) ≡ lookup id1 nodes
lookup-put_all id1 [] nodes h = refl
lookup-put_all id1 (node ∷ added) nodes h =
    let (other, rest) = neither (equals node.id1 id1) (occurs id1 added) h in
    lookup-put_all id1 added (put node.id1 node nodes) rest
    ∙ lookup-put node.id1 id1 node nodes
    ∙ rw other refl

pub values_of-put :
    (node : NodeValuesRefId) (nodes : Dict NodeValuesRefId)
    → lookup node.id1 nodes ≡ none
    → values_of (put node.id1 node nodes) ≡ values_of nodes ++ node ∷ []
unfolding values_of put lookup
values_of-put node [] h = refl
values_of-put node ((id1, other) ∷ nodes) h = elim (Bool-cases (equals id1 node.id1)) [
  | inl e ↦ absurd (taken (equals id1 node.id1) e h)
  | inr e ↦ rw e (ap (λ t. other ∷ t) (values_of-put node nodes (rw (← rest e) h)))
]
  where
    taken :
        (test : Bool)
        → test ≡ true
        → (if test then some other else lookup node.id1 nodes) ≡ none
        → ⊥
    taken true e k = cc
    taken false e k = cc

    rest :
        equals id1 node.id1 ≡ false
        → (if equals id1 node.id1 then some other else lookup node.id1 nodes)
          ≡ lookup node.id1 nodes
    rest e = rw e refl

pub lookup-All :
    (P : NodeValuesRefId → Type 0) (id1 : Buffer) (nodes : Dict NodeValuesRefId)
    → All P (values_of nodes)
    → (node : NodeValuesRefId) → lookup id1 nodes ≡ some node
    → P node
unfolding values_of lookup
lookup-All P id1 [] all node h = absurd cc
lookup-All P id1 ((other, value) ∷ nodes) all node h =
    by_test (equals other id1) h (lookup-All P id1 nodes all.1 node)
  where
    by_test :
        (test : Bool)
        → (if test then some value else lookup id1 nodes) ≡ some node
        → (lookup id1 nodes ≡ some node → P node)
        → P node
    by_test true e deeper = let is : value ≡ node = cc in subst P is all.0
    by_test false e deeper = deeper e

module _ (nodes grown : Dict NodeValuesRefId) (added : List NodeValuesRefId)
    (same : (id1 : Buffer) → occurs id1 added ≡ false → lookup id1 grown ≡ lookup id1 nodes) where
  -- Nodes that are apart have their old heights.
  pub height-same :
      (fuel : ℕ) (node : NodeValuesRefId)
      → All (IsApart nodes added) (values_of nodes)
      → IsApart nodes added node
      → height fuel grown node ≡ height fuel nodes node
  unfolding height above
  height-same zero node all is = refl
  height-same (suc fuel) node all is =
      ap (above (height fuel grown)) (same (parent_of node) is.apart)
      ∙ by_parent (lookup (parent_of node) nodes) (λ parent e.
        height-same fuel parent all (lookup-All _ (parent_of node) nodes all parent e))
    where
      by_parent :
          (found : Option NodeValuesRefId)
          → ((parent : NodeValuesRefId)
              → found ≡ some parent
              → height fuel grown parent ≡ height fuel nodes parent)
          → above (height fuel grown) found ≡ above (height fuel nodes) found
      by_parent none deeper = refl
      by_parent (some parent) deeper = ap one_more (deeper parent refl)

  find_level-same :
      (fuel : ℕ) (node : NodeValuesRefId)
      → All (IsApart nodes added) (values_of nodes)
      → IsApart nodes added node
      → find_level fuel grown node ≡ find_level fuel nodes node
  unfolding find_level
  find_level-same fuel node all is =
      ap₂ (λ found levels. if is_set found then Option.map some levels else some none)
        (same node.id1 is.other) (height-same fuel node all is)

  pub push_nodes-same :
      (fuel : ℕ) (values : List NodeValuesRefId) (pushed : Pushed)
      → All (IsApart nodes added) (values_of nodes)
      → All (IsApart nodes added) values
      → push_nodes fuel grown values pushed ≡ push_nodes fuel nodes values pushed
  unfolding push_nodes
  push_nodes-same fuel [] pushed all is = refl
  push_nodes-same fuel (node ∷ values) pushed all is =
      ap (λ found. and_then (then_push found node.id1 pushed) (push_nodes fuel grown values))
        (find_level-same fuel node all is.0)
      ∙ by_step (then_push (find_level fuel nodes node) node.id1 pushed)
          (λ next. push_nodes-same fuel values next all is.1)
    where
      by_step :
          (step : Option Pushed)
          → ((next : Pushed)
              → push_nodes fuel grown values next ≡ push_nodes fuel nodes values next)
          → and_then step (push_nodes fuel grown values)
            ≡ and_then step (push_nodes fuel nodes values)
      by_step none deeper = refl
      by_step (some next) deeper = deeper next
