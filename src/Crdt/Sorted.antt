-- ===== src/Crdt/Sorted.antt =====
-- storage/crdt/AlgoSorted.ts without annotations: the state, and the part that reads: `getLength`,
-- `getAllNodes`, `get`, `updateIndexes` and `getIndexes`. `nodesId1ById`, which serves only the
-- annotations, is left out.
pub mod Order
pub mod Update
pub mod Places
pub mod Kept
pub mod Valid
pub mod Reachable
pub mod View
pub mod Refines
pub mod Popped
pub mod Splice
pub mod Removal
pub mod Keyed
pub mod Tracked
pub mod Batch
pub mod Window
pub mod Indexes
pub mod Answers
use mathlib.Core.List.{reverse}
use openodin.Prelude.{
  ℕ, zero, suc, ◌+◌, ◌-◌, Bool, true, false, not, ◌&&◌, ◌||◌, Option, none, some, List, [], ◌∷◌,
  leb, ◌==◌, if◌then◌else◌, length, take, drop, get_elem?,
}
use openodin.Prelude.Int.{ℤ, pos, negsuc}
use openodin.Prelude.Buffer.{Buffer}
use openodin.Prelude.Dict.{Dict, lookup, put}
use openodin.Prelude.Result.{Result, ok, error, ◌>>=◌}
use openodin.Model.Props.{has_bytes}

-- `NodeValues`, without annotations.
pub record NodeValues : Type 0 where
  pub id1 : Buffer
  pub id2 : Option Buffer
  pub owner : Buffer
  pub transient_hash : Buffer
  pub creation_time : ℕ
  pub transient_storage_time : ℕ

pub record AlgoSorted : Type 0 where
  pub order_by_storage_time : Bool
  pub node_index_by_id1 : Dict ℕ
  pub nodes : List NodeValues
  pub is_closed : Bool
  pub is_deletion_tracking : Bool
  pub deletion_tracking : Dict ℕ

-- The constructor.
unfoldable pub new : Bool → AlgoSorted
new order_by_storage_time = record {
  order_by_storage_time = order_by_storage_time;
  node_index_by_id1 = [];
  nodes = [];
  is_closed = true;
  is_deletion_tracking = false;
  deletion_tracking = [];
}

unfoldable pub get_length : AlgoSorted → ℕ
get_length s = length s.nodes

-- `if (n !== 0) { n = n <= -1 ? length : Math.min(n, length) }`
clamp : ℤ → ℕ → ℕ
clamp (negsuc n) length = length
clamp (pos n) length = if leb n length then n else length

abbrev is_zero : ℤ → Bool
is_zero (pos zero) = true
is_zero _ = false

abbrev is_negative : ℤ → Bool
is_negative (negsuc n) = true
is_negative (pos n) = false

-- The start and the end of the slice without a cursor.
first_window : ℕ → ℕ → ℕ → ℕ × ℕ
first_window length head tail = if tail == 0 then (0, head) else (length - tail, length)

-- The start and the end of the slice at a cursor.
cursor_window : ℕ → ℕ → ℕ → ℕ × ℕ
cursor_window cursor head tail =
    if head == 0 then (cursor - tail, cursor) else (cursor + 1, cursor + 1 + head)

-- The index of the node with the identity, or else the given index.
or_index : Option ℕ → ℤ → ℤ
or_index none cursor_index = cursor_index
or_index (some index) cursor_index = pos index

find_cursor : AlgoSorted → Option Buffer → ℤ → ℤ
find_cursor s none cursor_index = cursor_index
find_cursor s (some id1) cursor_index =
    if length id1 == 0 then cursor_index else or_index (lookup id1 s.node_index_by_id1) cursor_index

at_cursor : ℤ → ℕ → ℕ → Option (ℕ × ℕ)
at_cursor (negsuc n) head tail = none
at_cursor (pos cursor) head tail = some (cursor_window cursor head tail)

window : AlgoSorted → Option Buffer → ℤ → ℕ → ℕ → Option (ℕ × ℕ)
window s cursor_id1 cursor_index head tail =
    if has_bytes cursor_id1 || not (is_negative cursor_index)
    then at_cursor (find_cursor s cursor_id1 cursor_index) head tail
    else some (first_window (get_length s) head tail)

-- `nodes.map( (node, index) => startIndex + index )`
abbrev pub number_from : {A : Type 0} → ℕ → List A → List ℕ
number_from start [] = []
number_from start (x ∷ xs) = start ∷ number_from (suc start) xs

-- `nodes.slice(start, end)`
abbrev pub slice : {A : Type 0} → ℕ → ℕ → List A → List A
slice start end xs = take (end - start) (drop start xs)

cut : List NodeValues → Bool → ℕ × ℕ → List NodeValues × List ℕ
cut nodes is_reverse (start, end) =
    let page = slice start end nodes in
    if is_reverse
    then (reverse page, reverse (number_from start page))
    else (page, number_from start page)

cut_some : List NodeValues → Bool → Option (ℕ × ℕ) → Option (List NodeValues × List ℕ)
cut_some nodes is_reverse none = none
cut_some nodes is_reverse (some w) = some (cut nodes is_reverse w)

unfoldable pub get :
    AlgoSorted → Option Buffer → ℤ → ℤ → ℤ → Bool → Option (List NodeValues × List ℕ)
unfolding cut_some cut window at_cursor find_cursor or_index cursor_window first_window clamp
    get_length
get s cursor_id1 cursor_index head tail is_reverse =
    let count = get_length s in
    let h = if is_reverse then clamp tail count else clamp head count in
    let t = if is_reverse then clamp head count else clamp tail count in
    let answer = cut_some s.nodes is_reverse (window s cursor_id1 cursor_index h t) in
    if (is_zero tail && is_zero head) || (not (is_zero tail) && not (is_zero head))
    then some ([], [])
    else answer

-- `nodeIndexById1[id1] = i` for each node in order: of equal identities the last one counts.
unfoldable pub index_nodes : ℕ → List NodeValues → Dict ℕ → Dict ℕ
index_nodes i [] indexes = indexes
index_nodes i (node ∷ nodes) indexes = index_nodes (suc i) nodes (put node.id1 i indexes)

unfoldable pub update_indexes : AlgoSorted → AlgoSorted
unfolding index_nodes
update_indexes s = record s { node_index_by_id1 = index_nodes 0 s.nodes s.node_index_by_id1 }

index_or_throw : Option ℕ → Result ℕ
index_or_throw none = error "Unexpected error in CRDT model"
index_or_throw (some i) = ok i

unfoldable pub get_indexes : AlgoSorted → List NodeValues → Result (List ℕ)
unfolding index_or_throw
get_indexes s [] = ok []
get_indexes s (node ∷ nodes) =
    let rest = get_indexes s nodes in
    index_or_throw (lookup node.id1 s.node_index_by_id1) >>= λ i. rest >>= λ is. ok (i ∷ is)

-- The node at the index.
node_at : List NodeValues → Option ℕ → Option NodeValues
node_at nodes none = none
node_at nodes (some i) = get_elem? nodes i

-- `getAllNodes()[id1]`
unfoldable pub get_node : AlgoSorted → Buffer → Option NodeValues
unfolding node_at
get_node s id1 = node_at s.nodes (lookup id1 s.node_index_by_id1)
