-- ===== src/Crdt/RefId.antt =====
-- storage/crdt/AlgoRefId.ts: the levels of the tree of references, `findLevel`, `sort`, `indexNodes`
-- and `reIndex`. A level that was never set in the array is `none`. The search for a level stands on
-- fuel, one for each step up; none when it runs out.
pub mod Pushes
pub mod Order
pub mod Runs
pub mod Incremental
pub mod Ends
pub mod Reindexed
pub mod Leaves
use mathlib.Core.Option
use openodin.Prelude.{
  ℕ, zero, suc, Bool, true, false, ◌||◌, ◌==◌, Option, none, some, List, [], ◌∷◌, ◌++◌, map,
  if◌then◌else◌, any, is_set,
}
use openodin.Prelude.Int.{ℤ, pos, negsuc}
use openodin.Prelude.Buffer.{Buffer}
use openodin.Prelude.Dict.{Dict, lookup}
use openodin.Prelude.Sorting.{sorted}
use openodin.Crdt.SortedRefId.{NodeValuesRefId, is_greater}

abbrev pub Levels : Type 0
Levels = List (Option (List Buffer))

-- `node.refId ?? Buffer.alloc(0)`
abbrev pub or_empty_id : Option Buffer → Buffer
or_empty_id none = []
or_empty_id (some id1) = id1

abbrev pub parent_of : NodeValuesRefId → Buffer
parent_of node = or_empty_id node.ref_id

unfoldable pub greater_of : Bool → Option NodeValuesRefId → Option NodeValuesRefId → Bool
greater_of by_storage_time (some a) (some b) = is_greater by_storage_time a b
greater_of by_storage_time _ _ = false

-- The order of `sort`, of nodes by their identities.
unfoldable pub is_after : Bool → Dict NodeValuesRefId → Buffer → Buffer → Bool
unfolding greater_of
is_after by_storage_time nodes a b = greater_of by_storage_time (lookup a nodes) (lookup b nodes)

unfoldable pub sort_ids : Bool → Dict NodeValuesRefId → List Buffer → List Buffer
unfolding is_after sorted
sort_ids by_storage_time nodes = sorted (is_after by_storage_time nodes)

abbrev one_more : Option ℕ → Option ℕ
one_more none = none
one_more (some levels) = some (suc levels)

-- `if (!node) { break; } levelHeight++;`, given the height of each node.
unfoldable pub above : (NodeValuesRefId → Option ℕ) → Option NodeValuesRefId → Option ℕ
above height none = some 0
above height (some parent) = one_more (height parent)

-- `while (true)` in `findLevel`.
unfoldable pub height : ℕ → Dict NodeValuesRefId → NodeValuesRefId → Option ℕ
unfolding above
height zero nodes node = none
height (suc fuel) nodes node = above (height fuel nodes) (lookup (parent_of node) nodes)

-- The height of a node that is there; `some none` stands for -1.
unfoldable pub find_level : ℕ → Dict NodeValuesRefId → NodeValuesRefId → Option (Option ℕ)
unfolding height
find_level fuel nodes node =
    if is_set (lookup node.id1 nodes) then Option.map some (height fuel nodes node) else some none

abbrev pub or_no_ids : Option (List Buffer) → List Buffer
or_no_ids none = []
or_no_ids (some ids) = ids

-- `const levelSiblings = this.levels[level] ?? []; levelSiblings.push(id1Str)`
unfoldable pub push_at : ℕ → Buffer → Levels → Levels
push_at zero id1 [] = some (id1 ∷ []) ∷ []
push_at zero id1 (level ∷ levels) = some (or_no_ids level ++ id1 ∷ []) ∷ levels
push_at (suc k) id1 [] = none ∷ push_at k id1 []
push_at (suc k) id1 (level ∷ levels) = level ∷ push_at k id1 levels

-- The levels, and the indexes of those that were visited.
abbrev pub Pushed : Type 0
Pushed = Levels × List ℕ

unfoldable pub push_if : Option ℕ → Buffer → Pushed → Pushed
unfolding push_at
push_if none id1 pushed = pushed
push_if (some k) id1 (levels, visited) = (push_at k id1 levels, k ∷ visited)

abbrev pub then_push : Option (Option ℕ) → Buffer → Pushed → Option Pushed
then_push none id1 pushed = none
then_push (some level) id1 pushed = some (push_if level id1 pushed)

abbrev pub and_then : Option Pushed → (Pushed → Option Pushed) → Option Pushed
and_then none rest = none
and_then (some pushed) rest = rest pushed

-- `nodes.forEach(…)`
unfoldable pub push_nodes : ℕ → Dict NodeValuesRefId → List NodeValuesRefId → Pushed → Option Pushed
unfolding find_level push_if
push_nodes fuel nodes [] pushed = some pushed
push_nodes fuel nodes (node ∷ rest) pushed =
    and_then (then_push (find_level fuel nodes node) node.id1 pushed) (push_nodes fuel nodes rest)

-- `Object.values(levelsVisited).forEach( level => this.sort(level) )`, from the index on.
unfoldable pub sort_visited : (List Buffer → List Buffer) → List ℕ → ℕ → Levels → Levels
sort_visited sort visited i [] = []
sort_visited sort visited i (level ∷ levels) =
    (if any (λ k. k == i) visited then Option.map sort level else level)
    ∷ sort_visited sort visited (suc i) levels

unfoldable pub sort_pushed : (List Buffer → List Buffer) → Option Pushed → Option Levels
unfolding sort_visited
sort_pushed sort none = none
sort_pushed sort (some (levels, visited)) = some (sort_visited sort visited 0 levels)

unfoldable pub index_nodes :
    Bool → ℕ → Dict NodeValuesRefId → List NodeValuesRefId → Levels → Option Levels
unfolding sort_ids push_nodes sort_pushed
index_nodes by_storage_time fuel nodes added levels =
    sort_pushed (sort_ids by_storage_time nodes) (push_nodes fuel nodes added (levels, []))

-- `Object.values(this.nodeById1)`
unfoldable pub values_of : Dict NodeValuesRefId → List NodeValuesRefId
values_of [] = []
values_of ((id1, node) ∷ nodes) = node ∷ values_of nodes

unfoldable pub re_index : Bool → ℕ → Dict NodeValuesRefId → Option Levels
unfolding index_nodes values_of
re_index by_storage_time fuel nodes = index_nodes by_storage_time fuel nodes (values_of nodes) []
