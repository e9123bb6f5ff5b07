-- ===== src/Crdt/SortedRefId.antt =====
-- storage/crdt/AlgoSortedRefId.ts: the ordering at the end of `add`, by times and then by the
-- references of the nodes. The rest of the class reads as AlgoSorted does, and is left out.
pub mod Moves
pub mod Kept
pub mod Places
pub mod Found
pub mod Measure
pub mod Settles
pub mod Ordering
use openodin.Prelude.{
  ℕ, zero, suc, Bool, true, false, Option, none, some, List, [], ◌∷◌, if◌then◌else◌, get_elem?,
  length, ltb, drop,
}
use openodin.Prelude.Buffer.{Buffer}
use openodin.Prelude.Dict.{Dict, lookup, put}
use openodin.Prelude.Compare.{is_gt}
use openodin.Crdt.Sorted.{NodeValues}
use openodin.Crdt.Sorted.Order.{compare_nodes}

pub record NodeValuesRefId : Type 0 where
  pub values : NodeValues
  pub open values use *
  pub ref_id : Option Buffer

-- `isGreater(a, b)`
unfoldable pub is_greater : Bool → NodeValuesRefId → NodeValuesRefId → Bool
is_greater by_storage_time a b = is_gt (compare_nodes by_storage_time a.values b.values)

-- `this.nodes.sort(…)`
unfoldable pub insert_by_time : Bool → NodeValuesRefId → List NodeValuesRefId → List NodeValuesRefId
insert_by_time by_storage_time a [] = a ∷ []
insert_by_time by_storage_time a (b ∷ nodes) =
    let rest = insert_by_time by_storage_time a nodes in
    if is_greater by_storage_time a b then b ∷ rest else a ∷ b ∷ nodes

unfoldable pub sort_by_time : Bool → List NodeValuesRefId → List NodeValuesRefId
sort_by_time by_storage_time [] = []
sort_by_time by_storage_time (a ∷ nodes) =
    insert_by_time by_storage_time a (sort_by_time by_storage_time nodes)

-- `updateIndexes`, from the index on.
unfoldable pub index_from : ℕ → List NodeValuesRefId → Dict ℕ → Dict ℕ
index_from i [] indexes = indexes
index_from i (node ∷ nodes) indexes = index_from (suc i) nodes (put node.id1 i indexes)

-- The index of the referenced node, if it is behind the given one.
unfoldable pub if_behind : ℕ → Option ℕ → Option ℕ
if_behind i none = none
if_behind i (some referenced) = if ltb i referenced then some referenced else none

unfoldable pub referenced_behind : Dict ℕ → ℕ → Option Buffer → Option ℕ
unfolding if_behind
referenced_behind indexes i none = none
referenced_behind indexes i (some ref_id) = if_behind i (lookup ref_id indexes)

unfoldable pub node_referenced : Dict ℕ → ℕ → Option NodeValuesRefId → Option ℕ
unfolding referenced_behind
node_referenced indexes i none = none
node_referenced indexes i (some node) = referenced_behind indexes i node.ref_id

-- A node, its index and the index of the node behind it that it refers to.
pub record Late : Type 0 where
  pub node : NodeValuesRefId
  pub index : ℕ
  pub referenced : ℕ

unfoldable pub late_or : Option NodeValuesRefId → ℕ → Option ℕ → Option Late → Option Late
late_or (some node) i (some referenced) rest =
    some (record { node = node; index = i; referenced = referenced })
late_or _ i _ rest = rest

-- `for (let index = length - 1; index >= 0; index--)`, up to the first node to move.
unfoldable pub find_late : Dict ℕ → List NodeValuesRefId → ℕ → Option Late
unfolding late_or node_referenced
find_late indexes nodes zero = none
find_late indexes nodes (suc i) =
    late_or (get_elem? nodes i) i (node_referenced indexes i (get_elem? nodes i))
      (find_late indexes nodes i)

-- `nodes.splice(index, 1)` and `nodes.splice(index, 0, node)`
unfoldable pub splice_out : ℕ → List NodeValuesRefId → List NodeValuesRefId
splice_out i [] = []
splice_out zero (x ∷ nodes) = nodes
splice_out (suc i) (x ∷ nodes) = x ∷ splice_out i nodes

unfoldable pub splice_in : ℕ → NodeValuesRefId → List NodeValuesRefId → List NodeValuesRefId
splice_in zero node nodes = node ∷ nodes
splice_in (suc i) node [] = node ∷ []
splice_in (suc i) node (x ∷ nodes) = x ∷ splice_in i node nodes

-- `referencedIndex2`, from the nodes that stand at the index and behind it.
unfoldable pub index_to_insert : Bool → NodeValuesRefId → ℕ → List NodeValuesRefId → ℕ
index_to_insert by_storage_time node i [] = i
index_to_insert by_storage_time node i (other ∷ nodes) =
    let rest = index_to_insert by_storage_time node (suc i) nodes in
    if is_greater by_storage_time other node then i else rest

unfoldable pub move : Bool → Late → List NodeValuesRefId → List NodeValuesRefId
unfolding splice_out splice_in index_to_insert
move by_storage_time late nodes =
    let others = splice_out late.index nodes in
    splice_in
      (index_to_insert by_storage_time late.node late.referenced (drop late.referenced others))
      late.node others

-- The nodes, and `nodeIndexById1`.
abbrev pub Ordered : Type 0
Ordered = List NodeValuesRefId × Dict ℕ

-- The round ends the loop, or moves a node and lets the loop go on.
unfoldable pub go_on :
    Bool → Ordered → Option Late → (List NodeValuesRefId → Option Ordered) → Option Ordered
unfolding move
go_on by_storage_time (nodes, indexes) none again = some (nodes, indexes)
go_on by_storage_time (nodes, indexes) (some late) again = again (move by_storage_time late nodes)

-- `while (changed)`; none when the rounds run out.
unfoldable pub settle : Bool → ℕ → List NodeValuesRefId → Dict ℕ → Option Ordered
unfolding index_from find_late go_on
settle by_storage_time zero nodes indexes = none
settle by_storage_time (suc rounds) nodes indexes =
    let updated = index_from 0 nodes indexes in
    go_on by_storage_time (nodes, updated) (find_late updated nodes (length nodes))
      (λ moved. settle by_storage_time rounds moved updated)

-- The end of `add`, when the new nodes are appended.
unfoldable pub order : Bool → ℕ → List NodeValuesRefId → Dict ℕ → Option Ordered
unfolding sort_by_time settle
order by_storage_time rounds nodes indexes =
    settle by_storage_time rounds (sort_by_time by_storage_time nodes) indexes
