-- ===== src/Crdt/Sorted/Reachable.antt =====
-- storage/crdt/AlgoSorted.ts: the models that its operations reach.
use mathlib.Core.List.{reverse}
use openodin.Prelude.{
  ℕ, ◌≡◌, ◌≢◌, refl, ◌∙◌, subst, Bool, Option, none, some, List, [], ◌∷◌, map, Bool-cases,
  Option-cases, inl, inr, get_elem?, String,
}
use openodin.Prelude.Buffer.{Buffer, equals}
use openodin.Prelude.Dict.{lookup, keys, lookup-remove}
use openodin.Crdt.Sorted.{NodeValues, AlgoSorted, new}
use openodin.Crdt.Sorted.Update.{
  DataNode, returned, failed, add, begin_deletion_tracking, delete, commit_deletion_tracking, close,
  forget, delete_index, pop_all, sort_indexes,
}
use openodin.Crdt.Sorted.Places.{not_same, position}
use openodin.Crdt.Sorted.Kept.{splice-AreDistinct, splice-none, All-spliced}
use openodin.Crdt.Sorted.Valid.{
  IsConsistent, IsStale, consistent-IsStale, update_indexes-IsConsistent, Leaves, add-IsConsistent,
}

delete_index-IsStale : (s : AlgoSorted) (i : Option ℕ) → IsStale s → IsStale (delete_index s i)
unfolding delete_index IsStale forget
delete_index-IsStale s none h = h
delete_index-IsStale s (some i) (distinct, stale) = elim (Option-cases (get_elem? s.nodes i)) [
  | inl e ↦ rw (e, splice-none i s.nodes e) (distinct, stale)
  | inr (node, e) ↦ rw e (
    splice-AreDistinct i s.nodes distinct,
    λ id1 absent.
        lookup-remove node.id1 id1 s.node_index_by_id1 ∙ elim (Bool-cases (equals node.id1 id1)) [
          | inl same ↦ rw same refl
          | inr other ↦ rw other (
              stale id1 (
                All-spliced (λ x. x.id1 ≢ id1) i s.nodes node e (not_same node.id1 id1 other)
                  absent))
        ],
  )
]

pop_all-IsStale :
    (indexes : List (Option ℕ)) (s : AlgoSorted) → IsStale s → IsStale (pop_all s indexes)
unfolding pop_all
pop_all-IsStale [] s h = h
pop_all-IsStale (i ∷ indexes) s h =
    pop_all-IsStale indexes (delete_index s i) (delete_index-IsStale s i h)

pub delete-IsConsistent :
    (s : AlgoSorted) (indexes : List (Option ℕ)) → IsConsistent s → IsConsistent (delete s indexes)
unfolding delete
delete-IsConsistent s indexes h =
    update_indexes-IsConsistent (pop_all s (reverse (sort_indexes indexes)))
      (pop_all-IsStale (reverse (sort_indexes indexes)) s (consistent-IsStale s h))

commit-IsConsistent : (s : AlgoSorted) → IsConsistent s → IsConsistent (commit_deletion_tracking s)
unfolding commit_deletion_tracking
commit-IsConsistent s h =
    delete-IsConsistent s (map (λ id1. lookup id1 s.node_index_by_id1) (keys s.deletion_tracking)) h

-- One call of an operation that changes the model, an `add` that throws included.
pub data Step : AlgoSorted → AlgoSorted → Type 0 where
  added :
      {s t : AlgoSorted} (nodes : List DataNode) (out : List NodeValues × List Buffer)
      → add s nodes ≡ returned (t, out)
      → Step s t
  add_failed :
      {s t : AlgoSorted} (nodes : List DataNode) (message : String)
      → add s nodes ≡ failed t message
      → Step s t
  deleted : {s : AlgoSorted} (indexes : List (Option ℕ)) → Step s (delete s indexes)
  begun : {s : AlgoSorted} → Step s (begin_deletion_tracking s)
  committed : {s : AlgoSorted} → Step s (commit_deletion_tracking s)
  closed : {s : AlgoSorted} → Step s (close s)

pub data Reachable : AlgoSorted → Type 0 where
  start : (by_storage_time : Bool) → Reachable (new by_storage_time)
  step : {s t : AlgoSorted} → Reachable s → Step s t → Reachable t

step-IsConsistent : {s t : AlgoSorted} → Step s t → IsConsistent s → IsConsistent t
unfolding begin_deletion_tracking close lookup position
step-IsConsistent {s} (added nodes out e) h =
    subst (Leaves IsConsistent) e (add-IsConsistent s nodes h)
step-IsConsistent {s} (add_failed nodes message e) h =
    subst (Leaves IsConsistent) e (add-IsConsistent s nodes h)
step-IsConsistent {s} (deleted indexes) h = delete-IsConsistent s indexes h
step-IsConsistent begun h = h
step-IsConsistent {s} committed h = commit-IsConsistent s h
step-IsConsistent {s} closed h = elim (Bool-cases s.is_closed) [
  | inl e ↦ rw e h
  | inr e ↦ rw e (tt, λ id1. refl)
]

-- After any calls of add, delete, beginDeletionTracking, commitDeletionTracking and close, those of
-- add that throw included, no two nodes of the model have one identity, and its dictionary holds
-- the index of each of them and nothing else.
pub reachable-IsConsistent : {s : AlgoSorted} → Reachable s → IsConsistent s
unfolding new lookup position
reachable-IsConsistent (start by_storage_time) = (tt, λ id1. refl)
reachable-IsConsistent (step before last) = step-IsConsistent last (reachable-IsConsistent before)
