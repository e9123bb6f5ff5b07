-- ===== src/Crdt/RefId/Reindexed.antt =====
-- storage/crdt/AlgoRefId.ts: what `add` does when no added node is the parent of another, against
-- what it does otherwise: indexNodes of the added nodes, and reIndex.
use mathlib.Core.List.{append-nil, append_assoc}
use openodin.Prelude.{
  ◌≡◌, refl, sym, ◌∙◌, ap, false, none, some, List, [], ◌∷◌, ◌++◌, All, Bool-cases, inl, inr,
}
use openodin.Prelude.Buffer.{Buffer, equals, equals→eq, equals_refl}
use openodin.Prelude.Dict.{Dict, lookup, put, lookup-put}
use openodin.Crdt.SortedRefId.{NodeValuesRefId}
use openodin.Crdt.SortedRefId.Moves.{occurs}
use openodin.Crdt.RefId.{parent_of, values_of}
use openodin.Crdt.RefId.Order.{IsKnown}
use openodin.Crdt.RefId.Incremental.{put_all, IsApart, lookup-put_all, values_of-put}
use openodin.Crdt.RefId.Ends.{IsKeyed, put-IsKeyed}

-- Each added node is new when it is put.
abbrev pub AreNew : Dict NodeValuesRefId → List NodeValuesRefId → Type 0
AreNew nodes [] = Unit
AreNew nodes (node ∷ added) =
    (lookup node.id1 nodes ≡ none) × AreNew (put node.id1 node nodes) added

lookup-put_same :
    (node : NodeValuesRefId) (nodes : Dict NodeValuesRefId)
    → lookup node.id1 (put node.id1 node nodes) ≡ some node
lookup-put_same node nodes =
    lookup-put node.id1 node.id1 node nodes ∙ rw (equals_refl node.id1) refl

-- What is there already is not among the new nodes.
pub AreNew-occurs :
    (nodes : Dict NodeValuesRefId) (added : List NodeValuesRefId) (id1 : Buffer)
    (node : NodeValuesRefId)
    → AreNew nodes added
    → lookup id1 nodes ≡ some node
    → occurs id1 added ≡ false
AreNew-occurs nodes [] id1 node new there = refl
AreNew-occurs nodes (first ∷ added) id1 node new there = elim (Bool-cases (equals first.id1 id1)) [
  | inl e ↦
      let same = equals→eq first.id1 id1 e in
      let gone : lookup id1 nodes ≡ none = rw (← same) new.0 in absurd cc
  | inr e ↦ rw e (
      AreNew-occurs (put first.id1 first nodes) added id1 node new.1
        (lookup-put first.id1 id1 first nodes ∙ rw e there))
]

pub values_of-put_all :
    (nodes : Dict NodeValuesRefId) (added : List NodeValuesRefId)
    → AreNew nodes added
    → values_of (put_all added nodes) ≡ values_of nodes ++ added
values_of-put_all nodes [] new = sym (append-nil (values_of nodes))
values_of-put_all nodes (node ∷ added) new =
    values_of-put_all (put node.id1 node nodes) added new.1
    ∙ ap (λ values. values ++ added) (values_of-put node nodes new.0)
    ∙ append_assoc (values_of nodes) (node ∷ []) added

pub put_all-IsKnown :
    (nodes : Dict NodeValuesRefId) (added : List NodeValuesRefId)
    → AreNew nodes added
    → All (λ node. IsKnown (put_all added nodes) node.id1) added
put_all-IsKnown nodes [] new = tt
put_all-IsKnown nodes (node ∷ added) new =
    let there = lookup-put_same node nodes in
    let absent = AreNew-occurs (put node.id1 node nodes) added node.id1 node new.1 there in
    (
      (node, lookup-put_all node.id1 added (put node.id1 node nodes) absent ∙ there, refl),
      put_all-IsKnown (put node.id1 node nodes) added new.1,
    )

pub put_all-IsKeyed :
    (nodes : Dict NodeValuesRefId) (added : List NodeValuesRefId)
    → IsKeyed nodes
    → IsKeyed (put_all added nodes)
put_all-IsKeyed nodes [] keyed = keyed
put_all-IsKeyed nodes (node ∷ added) keyed =
    put_all-IsKeyed (put node.id1 node nodes) added (put-IsKeyed node nodes keyed)

-- The nodes stand under their identities, the added ones are new, and no node refers to one of them.
pub record AreLeaves (nodes : Dict NodeValuesRefId) (added : List NodeValuesRefId) : Type 0 where
  pub keyed : IsKeyed nodes
  pub there : All (λ node. lookup node.id1 nodes ≡ some node) (values_of nodes)
  pub new : AreNew nodes added
  pub apart : All (λ node. occurs (parent_of node) added ≡ false) (values_of nodes)

pub All-IsApart :
    (nodes : Dict NodeValuesRefId) (added values : List NodeValuesRefId)
    → AreNew nodes added
    → All (λ node. lookup node.id1 nodes ≡ some node) values
    → All (λ node. occurs (parent_of node) added ≡ false) values
    → All (IsApart nodes added) values
All-IsApart nodes added [] new there apart = tt
All-IsApart nodes added (node ∷ values) new there apart = (
  record {
    there = there.0;
    other = AreNew-occurs nodes added node.id1 node new there.0;
    apart = apart.0;
  },
  All-IsApart nodes added values new there.1 apart.1,
)
