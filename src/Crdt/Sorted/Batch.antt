-- ===== src/Crdt/Sorted/Batch.antt =====
-- storage/crdt/AlgoSorted.ts: deletion tracking around a batch of nodes, as a whole.
use openodin.Prelude.{
  ℕ, ◌≡◌, refl, ◌∙◌, subst, Bool, true, false, not, ◌||◌, Option, none, some, List, [], ◌∷◌,
  Bool-cases, inl, inr, if◌then◌else◌, is_set, get_elem?, any,
}
use openodin.Prelude.Buffer.{Buffer, equals}
use openodin.Prelude.Dict.{lookup, lookup-remove}
use openodin.Prelude.Result.{Result, ok, error}
use openodin.Crdt.Sorted.{NodeValues, AlgoSorted, get_node, node_at, update_indexes}
use openodin.Crdt.Sorted.Update.{
  DataNode, Outcome, returned, failed, add, begin_deletion_tracking, commit_deletion_tracking,
  replace_changed, append_node, place_at, place, place_or_fail, add_node, add_from, sort_nodes,
  untrack, extract_node_values, node_values, ◌>>=◌,
}
use openodin.Crdt.Sorted.View.{NodeMap, put_newer, put_whole, put_all, Returns}
use openodin.Crdt.Sorted.Refines.{add-refines}
use openodin.Crdt.Sorted.Reachable.{Reachable, step, added, begun, reachable-IsConsistent}
use openodin.Crdt.Sorted.Keyed.{reachable-IsKeyed}
use openodin.Crdt.Sorted.Tracked.{get_node-commit}

is_named : Buffer → Option Buffer → Option Buffer → Bool
is_named id1 (some other) (some parent) = equals other id1
is_named id1 _ _ = false

-- One of the nodes has the identity, and a parent.
unfoldable pub names : Buffer → List DataNode → Bool
unfolding is_named
names id1 = any (λ node. is_named id1 node.id1 node.parent_id)

put_whole_unnamed :
    (nodes : NodeMap) (node : DataNode) (id1 : Buffer) (other parent owner : Option Buffer)
    → is_named id1 other parent ≡ false
    → put_whole nodes node other parent owner id1 ≡ nodes id1
unfolding is_named put_whole put_newer node_values
put_whole_unnamed nodes node id1 none parent owner h = refl
put_whole_unnamed nodes node id1 (some other) none owner h = refl
put_whole_unnamed nodes node id1 (some other) (some parent) none h = refl
put_whole_unnamed nodes node id1 (some other) (some parent) (some owner) h = rw h refl

put_all_unnamed :
    (rest : List DataNode) (nodes : NodeMap) (id1 : Buffer)
    → names id1 rest ≡ false
    → put_all nodes rest id1 ≡ nodes id1
unfolding put_all names
put_all_unnamed [] nodes id1 h = refl
put_all_unnamed (node ∷ rest) nodes id1 h =
    let (first, others) = neither (is_named id1 node.id1 node.parent_id) (names id1 rest) h in
    put_all_unnamed rest (put_whole nodes node node.id1 node.parent_id node.owner) id1 others
    ∙ put_whole_unnamed nodes node id1 node.id1 node.parent_id node.owner first
  where
    neither : (a b : Bool) → (a || b) ≡ false → (a ≡ false) × (b ≡ false)
    neither true b h = absurd cc
    neither false b h = (refl, h)

-- What is still tracked.
IsTracking : Buffer → Bool → Option ℕ → AlgoSorted → Type 0
IsTracking id1 named before t =
    (t.is_deletion_tracking ≡ true)
    × (lookup id1 t.deletion_tracking ≡ (if named then none else before))

place_at-IsTracking :
    (s : AlgoSorted) (out : List NodeValues × List Buffer) (values : NodeValues) (o : Option ℕ)
    (id1 : Buffer) (named : Bool) (before : Option ℕ)
    → IsTracking id1 named before s
    → Returns (IsTracking id1 named before) (place_at (s, out) values o)
unfolding place_at append_node replace_changed IsTracking
place_at-IsTracking s out values none id1 named before h = h
place_at-IsTracking s out values (some i) id1 named before h = changed (get_elem? s.nodes i)
  where
    changed :
        (o : Option NodeValues)
        → Returns (IsTracking id1 named before) (replace_changed (s, out) values o i)
    changed none = tt
    changed (some old) = elim (Bool-cases (not (equals values.transient_hash old.transient_hash))) [
      | inl e ↦ rw e h
      | inr e ↦ rw e h
    ]

add_node-IsTracking :
    (s : AlgoSorted) (out : List NodeValues × List Buffer) (node : DataNode)
    (other parent : Option Buffer) (id1 : Buffer)
    → s.is_deletion_tracking ≡ true
    → Returns
        (IsTracking id1 (is_named id1 other parent) (lookup id1 s.deletion_tracking))
        (add_node (s, out) node other parent)
unfolding add_node place_or_fail place untrack IsTracking is_named
add_node-IsTracking s out node none parent id1 h = (h, refl)
add_node-IsTracking s out node (some other) none id1 h = (h, refl)
add_node-IsTracking s out node (some other) (some parent) id1 h = placed (extract_node_values node)
  where
    untracked : IsTracking id1 (equals other id1) (lookup id1 s.deletion_tracking) (untrack other s)
    untracked = (h, rw h (lookup-remove other id1 s.deletion_tracking))

    placed :
        (o : Result NodeValues)
        → Returns
            (IsTracking id1 (equals other id1) (lookup id1 s.deletion_tracking))
            (place_or_fail (untrack other s, out) o)
    placed (ok values) =
        place_at-IsTracking (untrack other s) out values
          (lookup values.id1 (untrack other s).node_index_by_id1) id1 (equals other id1)
          (lookup id1 s.deletion_tracking) untracked
    placed (error message) = tt

add_from-IsTracking :
    (rest : List DataNode) (s : AlgoSorted) (out : List NodeValues × List Buffer) (id1 : Buffer)
    → s.is_deletion_tracking ≡ true
    → Returns
        (IsTracking id1 (names id1 rest) (lookup id1 s.deletion_tracking))
        (add_from (s, out) rest)
unfolding add_from names IsTracking
add_from-IsTracking [] s out id1 h = (h, refl)
add_from-IsTracking (node ∷ rest) s out id1 h =
    chained (add_node (s, out) node node.id1 node.parent_id)
      (add_node-IsTracking s out node node.id1 node.parent_id id1 h)
      (λ t out. add_from-IsTracking rest t out id1)
  where
    here : Bool
    here = is_named id1 node.id1 node.parent_id

    Later : AlgoSorted → Type 0
    Later = IsTracking id1 (here || names id1 rest) (lookup id1 s.deletion_tracking)

    joined :
        (a b : Bool) (before now : Option ℕ) (t : AlgoSorted)
        → now ≡ (if a then none else before)
        → IsTracking id1 b now t
        → IsTracking id1 (a || b) before t
    joined true true before now t e h = h
    joined true false before now t e h = (h.0, h.1 ∙ e)
    joined false b before now t e h = (h.0, h.1 ∙ rw e refl)

    later :
        (now : Option ℕ) (o : Outcome)
        → now ≡ (if here then none else lookup id1 s.deletion_tracking)
        → Returns (IsTracking id1 (names id1 rest) now) o
        → Returns Later o
    later now (returned (t, out)) e k =
        joined here (names id1 rest) (lookup id1 s.deletion_tracking) now t e k
    later now (failed t message) e k = tt

    chained :
        (first : Outcome)
        → Returns (IsTracking id1 here (lookup id1 s.deletion_tracking)) first
        → ((t : AlgoSorted) (out : List NodeValues × List Buffer)
            → t.is_deletion_tracking ≡ true
            → Returns
                (IsTracking id1 (names id1 rest) (lookup id1 t.deletion_tracking))
                (add_from (t, out) rest))
        → Returns Later (first >>= λ a. add_from a rest)
    chained (returned (t, out)) k deeper =
        later (lookup id1 t.deletion_tracking) (add_from (t, out) rest) k.1 (deeper t out k.0)
    chained (failed t message) k deeper = tt

add-IsTracking :
    (s : AlgoSorted) (rest : List DataNode) (id1 : Buffer)
    → s.is_deletion_tracking ≡ true
    → Returns (IsTracking id1 (names id1 rest) (lookup id1 s.deletion_tracking)) (add s rest)
unfolding add sort_nodes update_indexes IsTracking
add-IsTracking s rest id1 h =
    sorted (add_from (s, ([], [])) rest) (add_from-IsTracking rest s ([], []) id1 h)
  where
    sorted :
        (o : Outcome)
        → Returns (IsTracking id1 (names id1 rest) (lookup id1 s.deletion_tracking)) o
        → Returns
            (IsTracking id1 (names id1 rest) (lookup id1 s.deletion_tracking))
            (o >>= λ (t, out). returned (sort_nodes t, out))
    sorted (returned (t, out)) k = k
    sorted (failed t message) k = tt

-- A batch that is added between `beginDeletionTracking` and `commitDeletionTracking` is all that
-- stays: when `add` returned, the model afterwards has, of each identity that a node of the batch
-- has together with a parent, the node as it is after `add`, and no other node.
pub batch_stays :
    {s : AlgoSorted}
    → Reachable s
    → (rest : List DataNode) {t : AlgoSorted} {out : List NodeValues × List Buffer}
    → add (begin_deletion_tracking s) rest ≡ returned (t, out)
    → (id1 : Buffer)
    → get_node (commit_deletion_tracking t) id1 ≡ (if names id1 rest then get_node t id1 else none)
unfolding begin_deletion_tracking IsTracking get_node node_at
batch_stays {s} reached rest {t} {out} e id1 =
    let start = step reached begun in
    let last = step start (added rest out e) in
    let (_, tracked) =
      subst (Returns (IsTracking id1 (names id1 rest) (lookup id1 s.node_index_by_id1))) e
        (add-IsTracking (begin_deletion_tracking s) rest id1 refl) in
    get_node-commit t id1 (reachable-IsConsistent last) (reachable-IsKeyed last).1
    ∙ rw tracked (elim (Bool-cases (names id1 rest)) [
      | inl named ↦ rw named refl
      | inr unnamed ↦ rw unnamed (
          left (lookup id1 s.node_index_by_id1) refl (
            (add-refines (begin_deletion_tracking s) rest (reachable-IsConsistent start) e).1 id1
            ∙ put_all_unnamed rest (get_node (begin_deletion_tracking s)) id1 unnamed))
    ])
  where
    missing :
        lookup id1 s.node_index_by_id1 ≡ none → get_node (begin_deletion_tracking s) id1 ≡ none
    missing k = rw k refl

    left :
        (o : Option ℕ)
        → lookup id1 s.node_index_by_id1 ≡ o
        → get_node t id1 ≡ get_node (begin_deletion_tracking s) id1
        → (if is_set o then none else get_node t id1) ≡ none
    left none k same = same ∙ missing k
    left (some i) k same = refl
