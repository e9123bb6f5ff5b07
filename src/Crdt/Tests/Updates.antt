-- ===== src/Crdt/Tests/Updates.antt =====
-- A model to which nodes are added and from which they are deleted.
use openodin.Prelude.{ℕ, ◌≡◌, refl, true, false, none, some, List, [], ◌∷◌, if◌then◌else◌}
use openodin.Prelude.Buffer.{equals}
use openodin.Prelude.Dict.{lookup, put, remove, keys}
use openodin.Prelude.Int.{pos, negsuc}
use openodin.Crdt.Sorted.{NodeValues, AlgoSorted, new, get, get_node}
use openodin.Crdt.Sorted.Answers.{get_around}
use openodin.Prelude.Compare.{compare_bytes}
use openodin.Crdt.Sorted.Order.{insert, compare_nodes}
use openodin.Crdt.Sorted.Update.{
  DataNode, returned, add, begin_deletion_tracking, delete, commit_deletion_tracking,
}
use openodin.Crdt.Sorted.Valid.{IsConsistent}
use openodin.Crdt.Sorted.Reachable.{Reachable, start, step, added, deleted, reachable-IsConsistent}
use openodin.Crdt.Sorted.View.{put_all}
use openodin.Crdt.Sorted.Refines.{Sorts, add-refines}
use openodin.Crdt.Sorted.Removal.{is_among, get_node-delete}
use openodin.Crdt.Sorted.Batch.{names, batch_stays}

abbrev data_node : ℕ → ℕ → ℕ → DataNode
data_node id time hash = record {
  id1 = some (id ∷ []);
  id2 = none;
  owner = some (1 ∷ []);
  parent_id = some (0 ∷ []);
  creation_time = some time;
  transient_storage_time = none;
  hash_transient = hash ∷ [];
}

abbrev values : ℕ → ℕ → ℕ → NodeValues
values id time hash = record {
  id1 = id ∷ [];
  id2 = none;
  owner = 1 ∷ [];
  transient_hash = hash ∷ [];
  creation_time = time;
  transient_storage_time = 0;
}

-- 7 is newer than 8 and 9; 8 is added twice, with another hash.
abbrev batch : List DataNode
batch = data_node 7 30 1 ∷ data_node 8 20 1 ∷ data_node 9 20 1 ∷ data_node 8 20 2 ∷ []

abbrev filled : AlgoSorted
filled = record {
  order_by_storage_time = false;
  node_index_by_id1 = (7 ∷ [], 2) ∷ (8 ∷ [], 0) ∷ (9 ∷ [], 1) ∷ [];
  nodes = values 8 20 2 ∷ values 9 20 1 ∷ values 7 30 1 ∷ [];
  is_closed = true;
  is_deletion_tracking = false;
  deletion_tracking = [];
}

filling :
    add (new false) batch
    ≡ returned (filled, (values 7 30 1 ∷ values 8 20 1 ∷ values 9 20 1 ∷ [], (8 ∷ []) ∷ []))
unfolding add new lookup put equals insert compare_nodes compare_bytes
filling = refl

filled-Reachable : Reachable filled
filled-Reachable = step (start false) (added batch _ filling)

reachable-IsConsistent_example : IsConsistent (delete filled (some 2 ∷ some 0 ∷ []))
reachable-IsConsistent_example =
    reachable-IsConsistent (step filled-Reachable (deleted (some 2 ∷ some 0 ∷ [])))

-- The pages around the node 9 of 8, 9 and 7.
get_around_example :
    (get filled (some (9 ∷ [])) (negsuc 0) (pos 5) (pos 0) false
      ≡ some (values 7 30 1 ∷ [], 2 ∷ []))
    × (get filled (some (9 ∷ [])) (negsuc 0) (pos 0) (pos 5) false
        ≡ some (values 8 20 2 ∷ [], 0 ∷ []))
    × (get filled (some (9 ∷ [])) (negsuc 0) (pos 0) (pos 5) true
        ≡ some (values 7 30 1 ∷ [], 2 ∷ []))
    × (get filled (some (9 ∷ [])) (negsuc 0) (pos 5) (pos 0) true
        ≡ some (values 8 20 2 ∷ [], 0 ∷ []))
get_around_example =
    get_around (values 8 20 2 ∷ []) (values 7 30 1 ∷ []) (values 9 20 1) (negsuc 0) (pos 5)
      filled-Reachable refl refl refl

empty-IsConsistent : IsConsistent (new false)
empty-IsConsistent = reachable-IsConsistent (start false)

add-refines_example : Sorts (put_all (get_node (new false)) batch) filled
add-refines_example = add-refines (new false) batch empty-IsConsistent filling

filled-IsConsistent : IsConsistent filled
filled-IsConsistent = reachable-IsConsistent filled-Reachable

get_node-delete_example : get_node (delete filled (some 2 ∷ none ∷ [])) (7 ∷ []) ≡ (
    if is_among (lookup (7 ∷ []) filled.node_index_by_id1) (some 2 ∷ none ∷ [])
    then none
    else get_node filled (7 ∷ []))
get_node-delete_example =
    get_node-delete filled (some 2 ∷ none ∷ []) (7 ∷ []) filled-IsConsistent ((tt, tt), (tt, tt))

-- Of the nodes 7, 8 and 9 only 9 is added again.
abbrev again : List DataNode
again = data_node 9 20 1 ∷ []

abbrev tracked : AlgoSorted
tracked = record filled {
  is_deletion_tracking = true;
  deletion_tracking = (7 ∷ [], 2) ∷ (8 ∷ [], 0) ∷ [];
}

adding_again : add (begin_deletion_tracking filled) again ≡ returned (tracked, ([], []))
unfolding add begin_deletion_tracking lookup put remove equals insert compare_nodes compare_bytes
adding_again = refl

batch_stays_example :
    get_node (commit_deletion_tracking tracked) (8 ∷ [])
    ≡ (if names (8 ∷ []) again then get_node tracked (8 ∷ []) else none)
batch_stays_example = batch_stays filled-Reachable again adding_again (8 ∷ [])

kept : get_node (commit_deletion_tracking tracked) (9 ∷ []) ≡ some (values 9 20 1)
unfolding get_node commit_deletion_tracking lookup keys equals put remove
kept = refl

-- A repeated index removes the next node as well.
repeated : get_node (delete filled (some 0 ∷ some 0 ∷ [])) (9 ∷ []) ≡ none
unfolding get_node delete lookup put remove equals
repeated = refl
