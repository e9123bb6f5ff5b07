-- ===== src/Crdt/SortedRefId/Places.antt =====
-- storage/crdt/AlgoSortedRefId.ts: what the dictionary of indexes says of the nodes, and what the
-- search for a node to move finds.
use mathlib.Core.Option
use openodin.Prelude.{
  ℕ, zero, suc, ◌+◌, ◌≡◌, refl, sym, ◌∙◌, ap, Bool, true, false, Option, none, some, List, [], ◌∷◌,
  drop, arith, Bool-cases, inl, inr, if◌then◌else◌, leb,
}
use openodin.Prelude.Buffer.{Buffer, equals, equals→eq}
use openodin.Prelude.Dict.{Dict, lookup, put, lookup-put}
use openodin.Crdt.SortedRefId.{NodeValuesRefId, index_from}
use openodin.Crdt.SortedRefId.Moves.{neither, second_of, occurs, AreDistinct}

-- The index of the node with the identity.
unfoldable pub place_of : Buffer → List NodeValuesRefId → Option ℕ
place_of id1 [] = none
place_of id1 (node ∷ nodes) =
    let rest = place_of id1 nodes in if equals node.id1 id1 then some 0 else Option.map suc rest

-- The dictionary has no entry for a node that is not there.
abbrev pub IsClean : Dict ℕ → List NodeValuesRefId → Type 0
IsClean indexes nodes = (id1 : Buffer) → occurs id1 nodes ≡ false → lookup id1 indexes ≡ none

place_of-absent :
    (id1 : Buffer) (nodes : List NodeValuesRefId)
    → occurs id1 nodes ≡ false
    → place_of id1 nodes ≡ none
unfolding place_of
place_of-absent id1 [] h = refl
place_of-absent id1 (node ∷ nodes) h =
    let (other, rest) = neither (equals node.id1 id1) (occurs id1 nodes) h in
    rw (other, place_of-absent id1 nodes rest) refl

-- What is not among the nodes keeps its entry.
pub index_from_absent :
    (i : ℕ) (nodes : List NodeValuesRefId) (indexes : Dict ℕ) (id1 : Buffer)
    → occurs id1 nodes ≡ false
    → lookup id1 (index_from i nodes indexes) ≡ lookup id1 indexes
unfolding index_from
index_from_absent i [] indexes id1 h = refl
index_from_absent i (node ∷ nodes) indexes id1 h =
    let (other, rest) = neither (equals node.id1 id1) (occurs id1 nodes) h in
    index_from_absent (suc i) nodes (put node.id1 i indexes) id1 rest
    ∙ lookup-put node.id1 id1 i indexes
    ∙ rw other refl

abbrev raise : ℕ → Option ℕ → Option ℕ
raise i none = none
raise i (some q) = some (i + q)

raise-suc : (i : ℕ) (o : Option ℕ) → raise (suc i) o ≡ raise i (Option.map suc o)
raise-suc i none = refl
raise-suc i (some q) = ap some (omega arith)

index_from_present :
    (i : ℕ) (nodes : List NodeValuesRefId) (indexes : Dict ℕ) (id1 : Buffer)
    → AreDistinct nodes
    → occurs id1 nodes ≡ true
    → lookup id1 (index_from i nodes indexes) ≡ raise i (place_of id1 nodes)
unfolding index_from place_of
index_from_present i [] indexes id1 d h = absurd cc
index_from_present i (node ∷ nodes) indexes id1 d h = elim (Bool-cases (equals node.id1 id1)) [
  | inl e ↦
      let same = equals→eq node.id1 id1 e in
      index_from_absent (suc i) nodes (put node.id1 i indexes) id1 (rw (← same) d.0)
      ∙ lookup-put node.id1 id1 i indexes
      ∙ rw e (ap some (omega arith))
  | inr e ↦
      let rest : occurs id1 nodes ≡ true = second_of (equals node.id1 id1) (occurs id1 nodes) e h in
      index_from_present (suc i) nodes (put node.id1 i indexes) id1 d.1 rest
      ∙ raise-suc i (place_of id1 nodes)
      ∙ rw e refl
]

-- After `updateIndexes` the dictionary gives each node its place_of, and nothing else.
pub lookup-index_from :
    (nodes : List NodeValuesRefId) (indexes : Dict ℕ) (id1 : Buffer)
    → AreDistinct nodes
    → IsClean indexes nodes
    → lookup id1 (index_from 0 nodes indexes) ≡ place_of id1 nodes
lookup-index_from nodes indexes id1 d clean = elim (Bool-cases (occurs id1 nodes)) [
  | inl e ↦ index_from_present 0 nodes indexes id1 d e ∙ raise-zero (place_of id1 nodes)
  | inr e ↦
      index_from_absent 0 nodes indexes id1 e ∙ clean id1 e ∙ sym (place_of-absent id1 nodes e)
]
  where
    raise-zero : (o : Option ℕ) → raise 0 o ≡ o
    raise-zero none = refl
    raise-zero (some q) = ap some (omega arith)

-- The place is at the index or behind it.
abbrev pub from : ℕ → Option ℕ → Bool
from n none = false
from n (some q) = leb n q

from-suc : (n : ℕ) (o : Option ℕ) → from (suc n) (Option.map suc o) ≡ from n o
from-suc n none = refl
from-suc n (some q) = ground arith

occurs-drop_absent :
    (id1 : Buffer) (n : ℕ) (nodes : List NodeValuesRefId)
    → occurs id1 nodes ≡ false
    → occurs id1 (drop n nodes) ≡ false
occurs-drop_absent id1 zero nodes h = h
occurs-drop_absent id1 (suc n) [] h = refl
occurs-drop_absent id1 (suc n) (node ∷ nodes) h =
    occurs-drop_absent id1 n nodes (neither (equals node.id1 id1) (occurs id1 nodes) h).1

pub occurs-drop :
    (id1 : Buffer) (n : ℕ) (nodes : List NodeValuesRefId)
    → AreDistinct nodes
    → occurs id1 (drop n nodes) ≡ from n (place_of id1 nodes)
unfolding place_of
occurs-drop id1 zero [] d = refl
occurs-drop id1 (suc n) [] d = refl
occurs-drop id1 zero (node ∷ nodes) d = elim (Bool-cases (equals node.id1 id1)) [
  | inl e ↦ rw e (ground arith)
  | inr e ↦ rw e (occurs-drop id1 0 nodes d.1 ∙ at_least_0 (place_of id1 nodes))
]
  where
    at_least_0 : (o : Option ℕ) → from 0 o ≡ from 0 (Option.map suc o)
    at_least_0 none = refl
    at_least_0 (some q) = ground arith
occurs-drop id1 (suc n) (node ∷ nodes) d = elim (Bool-cases (equals node.id1 id1)) [
  | inl e ↦
      rw e (occurs-drop_absent id1 n nodes (rw (← equals→eq node.id1 id1 e) d.0) ∙ ground arith)
  | inr e ↦ rw e (occurs-drop id1 n nodes d.1 ∙ sym (from-suc n (place_of id1 nodes)))
]
