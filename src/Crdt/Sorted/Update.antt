-- ===== src/Crdt/Sorted/Update.antt =====
-- storage/crdt/AlgoSorted.ts: the operations that change the model, and ExtractNodeValues of
-- storage/crdt/types.ts.
use mathlib.Core.List.{reverse}
use openodin.Prelude.{
  ℕ, zero, suc, Bool, true, false, Option, none, some, List, [], ◌∷◌, ◌++◌, map, if◌then◌else◌,
  get_elem?, or_zero, is_set, not, ltb, String,
}
use openodin.Prelude.Buffer.{Buffer, equals}
use openodin.Prelude.Dict.{lookup, put, remove, keys}
use openodin.Prelude.Result.{Result, ok, error}
use openodin.Crdt.Sorted.{NodeValues, AlgoSorted, get_length, update_indexes}
use openodin.Crdt.Sorted.Order.{sort}

-- What `add` reads of a data node: its props and the value of `hashTransient()`.
pub record DataNode : Type 0 where
  pub id1 : Option Buffer
  pub id2 : Option Buffer
  pub owner : Option Buffer
  pub parent_id : Option Buffer
  pub creation_time : Option ℕ
  pub transient_storage_time : Option ℕ
  pub hash_transient : Buffer

unfoldable pub node_values : DataNode → Buffer → Buffer → NodeValues
node_values node id1 owner = record {
  id1 = id1;
  id2 = node.id2;
  owner = owner;
  transient_hash = node.hash_transient;
  creation_time = or_zero node.creation_time;
  transient_storage_time = or_zero node.transient_storage_time;
}

unfoldable pub both_set : DataNode → Option Buffer → Option Buffer → Result NodeValues
both_set node (some id1) (some owner) = ok (node_values node id1 owner)
both_set node _ _ = error "Missing id1|owner"

unfoldable pub extract_node_values : DataNode → Result NodeValues
unfolding both_set node_values
extract_node_values node = both_set node node.id1 node.owner

-- `nodes[index] = node`
unfoldable pub replace_at : ℕ → NodeValues → List NodeValues → List NodeValues
replace_at i node [] = []
replace_at zero node (x ∷ nodes) = node ∷ nodes
replace_at (suc i) node (x ∷ nodes) = x ∷ replace_at i node nodes

-- The model with what `add` returns: the new nodes, and the identities of the changed ones.
abbrev pub Added : Type 0
Added = AlgoSorted × (List NodeValues × List Buffer)

unfoldable pub untrack : Buffer → AlgoSorted → AlgoSorted
untrack id1 s = record s {
  deletion_tracking =
      if s.is_deletion_tracking then remove id1 s.deletion_tracking else s.deletion_tracking;
}

-- The model and the value that was returned, or the model when an error left the loop.
pub data Outcome : Type 0 where
  returned : Added → Outcome
  failed : AlgoSorted → String → Outcome

infixl 5 ◌>>=◌
abbrev pub ◌>>=◌ : Outcome → (Added → Outcome) → Outcome
returned added >>= rest = rest added
failed s message >>= rest = failed s message

-- The node exists in the cache: `this.nodes[existingIndex]` is the third argument.
unfoldable pub replace_changed : Added → NodeValues → Option NodeValues → ℕ → Outcome
unfolding replace_at
replace_changed (s, (new_nodes, transient_nodes)) values (some old) i =
    if not (equals values.transient_hash old.transient_hash)
    then returned (
      record s { nodes = replace_at i values s.nodes },
      (new_nodes, transient_nodes ++ values.id1 ∷ []),
    )
    else returned (s, (new_nodes, transient_nodes))
replace_changed (s, out) values none i = failed s "Cannot read properties of undefined"

unfoldable pub append_node : Added → NodeValues → Added
unfolding get_length
append_node (s, (new_nodes, transient_nodes)) values = (
  record s {
    node_index_by_id1 = put values.id1 (get_length s) s.node_index_by_id1;
    nodes = s.nodes ++ values ∷ [];
  },
  (new_nodes ++ values ∷ [], transient_nodes),
)

-- The two branches on `existingIndex`.
unfoldable pub place_at : Added → NodeValues → Option ℕ → Outcome
unfolding replace_changed append_node
place_at (s, out) values (some i) = replace_changed (s, out) values (get_elem? s.nodes i) i
place_at (s, out) values none = returned (append_node (s, out) values)

unfoldable pub place : Added → NodeValues → Outcome
unfolding place_at
place (s, out) values = place_at (s, out) values (lookup values.id1 s.node_index_by_id1)

unfoldable pub place_or_fail : Added → Result NodeValues → Outcome
unfolding place
place_or_fail added (ok values) = place added values
place_or_fail (s, out) (error message) = failed s message

-- A node without identity or parent is passed over.
unfoldable pub add_node : Added → DataNode → Option Buffer → Option Buffer → Outcome
unfolding untrack place_or_fail extract_node_values
add_node (s, out) node (some id1) (some parent_id) =
    place_or_fail (untrack id1 s, out) (extract_node_values node)
add_node added node _ _ = returned added

unfoldable pub add_from : Added → List DataNode → Outcome
unfolding add_node
add_from added [] = returned added
add_from added (node ∷ nodes) =
    add_node added node node.id1 node.parent_id >>= λ next. add_from next nodes

unfoldable pub sort_nodes : AlgoSorted → AlgoSorted
unfolding sort update_indexes
sort_nodes s = update_indexes (record s { nodes = sort s.order_by_storage_time s.nodes })

unfoldable pub add : AlgoSorted → List DataNode → Outcome
unfolding add_from sort_nodes
add s nodes = add_from (s, ([], [])) nodes >>= λ (t, out). returned (sort_nodes t, out)

unfoldable pub begin_deletion_tracking : AlgoSorted → AlgoSorted
begin_deletion_tracking s = record s {
  is_deletion_tracking = true;
  deletion_tracking = s.node_index_by_id1;
}

-- `indexes.sort( (a, b) => a - b )`, which puts `undefined` last.
unfoldable pub index_after : Option ℕ → Option ℕ → Bool
index_after none j = is_set j
index_after (some i) none = false
index_after (some i) (some j) = ltb j i

unfoldable pub insert_index : Option ℕ → List (Option ℕ) → List (Option ℕ)
unfolding index_after
insert_index i [] = i ∷ []
insert_index i (j ∷ indexes) =
    let rest = insert_index i indexes in if index_after i j then j ∷ rest else i ∷ j ∷ indexes

unfoldable pub sort_indexes : List (Option ℕ) → List (Option ℕ)
unfolding insert_index
sort_indexes [] = []
sort_indexes (i ∷ indexes) = insert_index i (sort_indexes indexes)

-- `nodes.splice(index, 1)`
unfoldable pub splice : ℕ → List NodeValues → List NodeValues
splice i [] = []
splice zero (x ∷ nodes) = nodes
splice (suc i) (x ∷ nodes) = x ∷ splice i nodes

unfoldable pub forget : AlgoSorted → Option NodeValues → AlgoSorted
forget s none = s
forget s (some node) = record s { node_index_by_id1 = remove node.id1 s.node_index_by_id1 }

unfoldable pub delete_index : AlgoSorted → Option ℕ → AlgoSorted
unfolding forget splice
delete_index s none = s
delete_index s (some i) = forget (record s { nodes = splice i s.nodes }) (get_elem? s.nodes i)

-- `while (indexes.length > 0)`, on the indexes in the order in which they are popped.
unfoldable pub pop_all : AlgoSorted → List (Option ℕ) → AlgoSorted
unfolding delete_index
pop_all s [] = s
pop_all s (i ∷ indexes) = pop_all (delete_index s i) indexes

-- Indexes are those of nodes, never negative.
unfoldable pub delete : AlgoSorted → List (Option ℕ) → AlgoSorted
unfolding pop_all sort_indexes update_indexes
delete s indexes = update_indexes (pop_all s (reverse (sort_indexes indexes)))

unfoldable pub commit_deletion_tracking : AlgoSorted → AlgoSorted
unfolding delete
commit_deletion_tracking s =
    let indexes = map (λ id1. lookup id1 s.node_index_by_id1) (keys s.deletion_tracking) in
    record (delete s indexes) { is_deletion_tracking = false; deletion_tracking = [] }

unfoldable pub close : AlgoSorted → AlgoSorted
close s =
    if s.is_closed then s else record s { is_closed = true; node_index_by_id1 = []; nodes = [] }
