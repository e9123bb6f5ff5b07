-- ===== src/Crdt/Sorted/Keyed.antt =====
-- storage/crdt/AlgoSorted.ts: the dictionaries hold each key once.
use mathlib.Core.List.{reverse}
use openodin.Prelude.{
  ℕ, suc, subst, not, Option, none, some, List, [], ◌∷◌, map, Bool-cases, inl, inr, get_elem?,
}
use openodin.Prelude.Buffer.{Buffer, equals}
use openodin.Prelude.Dict.{
  Dict, lookup, keys, put, AreDistinctKeys, put-AreDistinctKeys, remove-AreDistinctKeys,
}
use openodin.Prelude.Result.{Result, ok, error}
use openodin.Crdt.Sorted.{NodeValues, AlgoSorted, new, index_nodes, update_indexes}
use openodin.Crdt.Sorted.Update.{
  DataNode, add, begin_deletion_tracking, delete, commit_deletion_tracking, close, replace_changed,
  append_node, place_at, place, place_or_fail, add_node, add_from, sort_nodes, untrack, forget,
  delete_index, pop_all, sort_indexes, extract_node_values, splice,
}
use openodin.Crdt.Sorted.Order.{sort}
use openodin.Crdt.Sorted.Valid.{Leaves, bind-Leaves}
use openodin.Crdt.Sorted.Reachable.{
  Step, added, add_failed, deleted, begun, committed, closed, Reachable, start, step,
}

abbrev pub IsKeyed : AlgoSorted → Type 0
IsKeyed s = AreDistinctKeys (keys s.node_index_by_id1) × AreDistinctKeys (keys s.deletion_tracking)

index_nodes-AreDistinctKeys :
    (i : ℕ) (nodes : List NodeValues) (indexes : Dict ℕ)
    → AreDistinctKeys (keys indexes)
    → AreDistinctKeys (keys (index_nodes i nodes indexes))
unfolding index_nodes
index_nodes-AreDistinctKeys i [] indexes h = h
index_nodes-AreDistinctKeys i (node ∷ nodes) indexes h =
    index_nodes-AreDistinctKeys (suc i) nodes (put node.id1 i indexes)
      (put-AreDistinctKeys node.id1 i indexes h)

update_indexes-IsKeyed : (s : AlgoSorted) → IsKeyed s → IsKeyed (update_indexes s)
unfolding update_indexes
update_indexes-IsKeyed s (indexes, tracking) =
    (index_nodes-AreDistinctKeys 0 s.nodes s.node_index_by_id1 indexes, tracking)

untrack-IsKeyed : (id1 : Buffer) (s : AlgoSorted) → IsKeyed s → IsKeyed (untrack id1 s)
unfolding untrack
untrack-IsKeyed id1 s (indexes, tracking) = elim (Bool-cases s.is_deletion_tracking) [
  | inl e ↦ rw e (indexes, remove-AreDistinctKeys id1 s.deletion_tracking tracking)
  | inr e ↦ rw e (indexes, tracking)
]

place_at-IsKeyed :
    (s : AlgoSorted) (out : List NodeValues × List Buffer) (values : NodeValues) (o : Option ℕ)
    → IsKeyed s
    → Leaves IsKeyed (place_at (s, out) values o)
unfolding place_at append_node replace_changed
place_at-IsKeyed s out values none (indexes, tracking) =
    (put-AreDistinctKeys values.id1 _ s.node_index_by_id1 indexes, tracking)
place_at-IsKeyed s out values (some i) h = changed (get_elem? s.nodes i)
  where
    changed : (o : Option NodeValues) → Leaves IsKeyed (replace_changed (s, out) values o i)
    changed none = h
    changed (some old) = elim (Bool-cases (not (equals values.transient_hash old.transient_hash))) [
      | inl e ↦ rw e h
      | inr e ↦ rw e h
    ]

add_node-IsKeyed :
    (s : AlgoSorted) (out : List NodeValues × List Buffer) (node : DataNode)
    (id1 parent : Option Buffer)
    → IsKeyed s
    → Leaves IsKeyed (add_node (s, out) node id1 parent)
unfolding add_node place_or_fail place
add_node-IsKeyed s out node none parent h = h
add_node-IsKeyed s out node (some id1) none h = h
add_node-IsKeyed s out node (some id1) (some parent) h = placed (extract_node_values node)
  where
    placed : (o : Result NodeValues) → Leaves IsKeyed (place_or_fail (untrack id1 s, out) o)
    placed (ok values) = place_at-IsKeyed (untrack id1 s) out values _ (untrack-IsKeyed id1 s h)
    placed (error message) = untrack-IsKeyed id1 s h

add_from-IsKeyed :
    (nodes : List DataNode) (s : AlgoSorted) (out : List NodeValues × List Buffer)
    → IsKeyed s
    → Leaves IsKeyed (add_from (s, out) nodes)
unfolding add_from
add_from-IsKeyed [] s out h = h
add_from-IsKeyed (node ∷ nodes) s out h =
    bind-Leaves IsKeyed (add_node (s, out) node node.id1 node.parent_id) _
      (add_node-IsKeyed s out node node.id1 node.parent_id h) (add_from-IsKeyed nodes)

pub add-IsKeyed :
    (s : AlgoSorted) (nodes : List DataNode) → IsKeyed s → Leaves IsKeyed (add s nodes)
unfolding add sort_nodes
add-IsKeyed s nodes h =
    bind-Leaves IsKeyed (add_from (s, ([], [])) nodes) _ (add_from-IsKeyed nodes s ([], []) h)
      (λ t out k.
        update_indexes-IsKeyed (record t { nodes = sort t.order_by_storage_time t.nodes }) k)

pop_all-IsKeyed :
    (indexes : List (Option ℕ)) (s : AlgoSorted) → IsKeyed s → IsKeyed (pop_all s indexes)
unfolding pop_all delete_index forget
pop_all-IsKeyed [] s h = h
pop_all-IsKeyed (none ∷ indexes) s h = pop_all-IsKeyed indexes s h
pop_all-IsKeyed (some i ∷ indexes) s h = pop_all-IsKeyed indexes _ (forgotten (get_elem? s.nodes i))
  where
    forgotten : (o : Option NodeValues) → IsKeyed (forget (record s { nodes = splice i s.nodes }) o)
    forgotten none = h
    forgotten (some node) = (remove-AreDistinctKeys node.id1 s.node_index_by_id1 h.0, h.1)

delete-IsKeyed :
    (s : AlgoSorted) (indexes : List (Option ℕ)) → IsKeyed s → IsKeyed (delete s indexes)
unfolding delete
delete-IsKeyed s indexes h =
    update_indexes-IsKeyed (pop_all s (reverse (sort_indexes indexes)))
      (pop_all-IsKeyed (reverse (sort_indexes indexes)) s h)

step-IsKeyed : {s t : AlgoSorted} → Step s t → IsKeyed s → IsKeyed t
unfolding begin_deletion_tracking close commit_deletion_tracking keys
step-IsKeyed {s} (added nodes out e) h = subst (Leaves IsKeyed) e (add-IsKeyed s nodes h)
step-IsKeyed {s} (add_failed nodes message e) h = subst (Leaves IsKeyed) e (add-IsKeyed s nodes h)
step-IsKeyed {s} (deleted indexes) h = delete-IsKeyed s indexes h
step-IsKeyed begun h = (h.0, h.0)
step-IsKeyed {s} committed h =
    let indexes = map (λ id1. lookup id1 s.node_index_by_id1) (keys s.deletion_tracking) in
    ((delete-IsKeyed s indexes h).0, tt)
step-IsKeyed {s} closed h = elim (Bool-cases s.is_closed) [
  | inl e ↦ rw e h
  | inr e ↦ rw e (tt, h.1)
]

pub reachable-IsKeyed : {s : AlgoSorted} → Reachable s → IsKeyed s
unfolding new keys
reachable-IsKeyed (start by_storage_time) = (tt, tt)
reachable-IsKeyed (step before last) = step-IsKeyed last (reachable-IsKeyed before)
