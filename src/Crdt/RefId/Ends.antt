-- ===== src/Crdt/RefId/Ends.antt =====
-- storage/crdt/AlgoRefId.ts: the index of nodes whose references do not go round is found.
use mathlib.Core.Option
use openodin.Prelude.{
  ℕ, zero, suc, ◌<◌, ◌≡◌, refl, sym, ◌∙◌, ap, subst, Bool, true, false, Option, none, some, List,
  [], ◌∷◌, All, arith, is_set, if◌then◌else◌, Bool-cases, inl, inr,
}
use openodin.Prelude.Buffer.{Buffer, equals, equals→eq}
use openodin.Prelude.Dict.{Dict, lookup, put}
use openodin.Crdt.SortedRefId.{NodeValuesRefId}
use openodin.Crdt.RefId.{
  Pushed, parent_of, above, one_more, height, find_level, push_if, push_nodes, then_push, and_then,
  values_of,
}
use openodin.Crdt.RefId.Incremental.{lookup-All}

-- Each node stands under its own identity.
abbrev pub IsKeyed : Dict NodeValuesRefId → Type 0
IsKeyed [] = Unit
IsKeyed ((id1, node) ∷ nodes) = (node.id1 ≡ id1) × IsKeyed nodes

pub lookup-keyed :
    (id1 : Buffer) (nodes : Dict NodeValuesRefId) (node : NodeValuesRefId)
    → IsKeyed nodes
    → lookup id1 nodes ≡ some node
    → node.id1 ≡ id1
unfolding lookup
lookup-keyed id1 [] node keyed h = absurd cc
lookup-keyed id1 ((other, value) ∷ nodes) node keyed h =
    by_test (equals other id1) refl h (lookup-keyed id1 nodes node keyed.1)
  where
    by_test :
        (test : Bool)
        → equals other id1 ≡ test
        → (if test then some value else lookup id1 nodes) ≡ some node
        → (lookup id1 nodes ≡ some node → node.id1 ≡ id1)
        → node.id1 ≡ id1
    by_test true t e deeper =
        let is : value ≡ node = cc in subst (λ n. n.id1 ≡ id1) is (keyed.0 ∙ equals→eq other id1 t)
    by_test false t e deeper = deeper e

pub put-IsKeyed :
    (node : NodeValuesRefId) (nodes : Dict NodeValuesRefId)
    → IsKeyed nodes
    → IsKeyed (put node.id1 node nodes)
unfolding put
put-IsKeyed node [] keyed = (refl, tt)
put-IsKeyed node ((id1, other) ∷ nodes) keyed = elim (Bool-cases (equals id1 node.id1)) [
  | inl e ↦ rw e (sym (equals→eq id1 node.id1 e), keyed.1)
  | inr e ↦ rw e (keyed.0, put-IsKeyed node nodes keyed.1)
]

module _ (rank : Buffer → ℕ) where
  -- A node has a greater rank than what it refers to, or than the root.
  abbrev pub AreRanked : List NodeValuesRefId → Type 0
  AreRanked values = All (λ node. rank (parent_of node) < rank node.id1) values

  module _ (nodes : Dict NodeValuesRefId) (keyed : IsKeyed nodes)
      (ranked : AreRanked (values_of nodes)) where
    height-some :
        (fuel : ℕ) (node : NodeValuesRefId)
        → rank (parent_of node) < rank node.id1
        → rank node.id1 < fuel
        → (k : ℕ) × (height fuel nodes node ≡ some k)
    unfolding height above
    height-some zero node is enough = absurd (omega arith)
    height-some (suc fuel) node is enough = by_parent (lookup (parent_of node) nodes) (λ parent e.
        let same = ap rank (lookup-keyed (parent_of node) nodes parent keyed e) in
        height-some fuel parent (lookup-All _ (parent_of node) nodes ranked parent e)
          (omega (arith, same, is, enough)))
      where
        by_parent :
            (found : Option NodeValuesRefId)
            → ((parent : NodeValuesRefId)
                → found ≡ some parent
                → (k : ℕ) × (height fuel nodes parent ≡ some k))
            → (k : ℕ) × (above (height fuel nodes) found ≡ some k)
        by_parent none deeper = (0, refl)
        by_parent (some parent) deeper = let (k, e) = deeper parent refl in (suc k, ap one_more e)

    find_level-some :
        (fuel : ℕ) (node : NodeValuesRefId)
        → rank (parent_of node) < rank node.id1
        → rank node.id1 < fuel
        → (level : Option ℕ) × (find_level fuel nodes node ≡ some level)
    unfolding find_level
    find_level-some fuel node is enough =
        let (k, e) = height-some fuel node is enough in by_test (is_set (lookup node.id1 nodes)) k e
      where
        by_test :
            (test : Bool) (k : ℕ)
            → height fuel nodes node ≡ some k
            → (level : Option ℕ) × ((if test
                  then Option.map some (height fuel nodes node)
                  else some none)
                ≡ some level)
        by_test true k e = (some k, ap (Option.map some) e)
        by_test false k e = (none, refl)

    pub push_nodes-some :
        (fuel : ℕ) (values : List NodeValuesRefId) (pushed : Pushed)
        → AreRanked values
        → All (λ node. rank node.id1 < fuel) values
        → (result : Pushed) × (push_nodes fuel nodes values pushed ≡ some result)
    unfolding push_nodes
    push_nodes-some fuel [] pushed is enough = (pushed, refl)
    push_nodes-some fuel (node ∷ values) pushed is enough =
        let (level, e) = find_level-some fuel node is.0 enough.0 in
        let (result, f) =
          push_nodes-some fuel values (push_if level node.id1 pushed) is.1 enough.1 in
        (
          result,
          ap (λ found. and_then (then_push found node.id1 pushed) (push_nodes fuel nodes values)) e
              ∙ f,
        )
