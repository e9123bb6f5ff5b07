-- ===== src/Crdt/Sorted/Refines.antt =====
-- storage/crdt/AlgoSorted.ts: `add` does to the map of nodes what it promises.
use openodin.Prelude.{
  ℕ, ◌≡◌, refl, sym, ◌∙◌, subst, not, Option, none, some, List, [], ◌∷◌, Bool-cases, inl, inr,
}
use openodin.Prelude.Buffer.{Buffer, equals, equals→eq}
use openodin.Prelude.Dict.{lookup}
use openodin.Crdt.Sorted.{NodeValues, AlgoSorted, get_node, update_indexes}
use openodin.Crdt.Sorted.Order.{IsSorted, sort-IsSorted}
use openodin.Crdt.Sorted.Update.{
  DataNode, Added, Outcome, returned, failed, add, replace_changed, place_at, place, place_or_fail,
  add_node, add_from, sort_nodes, untrack, ◌>>=◌, extract_node_values, both_set, node_values,
}
use openodin.Crdt.Sorted.Places.{find, position-get}
use openodin.Crdt.Sorted.Kept.{find-sort}
use openodin.Crdt.Sorted.Valid.{
  IsConsistent, Leaves, add_node-IsConsistent, sort_nodes-IsConsistent,
}
use openodin.Crdt.Sorted.View.{
  NodeMap, newer, put_newer, put_whole, put_all, get_node-find, find-replace_at, Matches, Returns,
  append_node-Matches,
}

Shows : NodeMap → AlgoSorted → Type 0
Shows nodes s = (id1 : Buffer) → find id1 s.nodes ≡ nodes id1

both :
    (nodes : NodeMap) (o : Outcome)
    → Leaves IsConsistent o
    → Returns (Shows nodes) o
    → Returns (Matches nodes) o
unfolding Shows
both nodes (returned (s, out)) h k = (h, k)
both nodes (failed s message) h k = tt

place_at-Shows :
    (nodes : NodeMap) (s : AlgoSorted) (out : List NodeValues × List Buffer) (values : NodeValues)
    (o : Option ℕ)
    → Matches nodes s
    → lookup values.id1 s.node_index_by_id1 ≡ o
    → Returns (Shows (put_newer nodes values)) (place_at (s, out) values o)
unfolding place_at Shows put_newer newer replace_changed
place_at-Shows nodes s out values none h e = append_node-Matches nodes s out values h e
place_at-Shows nodes s out values (some i) ((distinct, places), same) e =
    let here = sym (places values.id1) ∙ e in
    let (old, (at, (found, _))) = position-get values.id1 s.nodes i here in
    let known : nodes values.id1 ≡ some old = sym (same values.id1) ∙ found in
    rw at (elim (Bool-cases (not (equals values.transient_hash old.transient_hash))) [
      | inl differs ↦ rw differs (λ id1.
          find-replace_at id1 values s.nodes i here ∙ elim (Bool-cases (equals values.id1 id1)) [
            | inl e ↦ rw (e, ← equals→eq values.id1 id1 e, known, differs) refl
            | inr e ↦ rw (e, same id1) refl
          ])
      | inr equal ↦ rw equal (λ id1. elim (Bool-cases (equals values.id1 id1)) [
        | inl e ↦ rw (e, ← equals→eq values.id1 id1 e, known, equal) found
        | inr e ↦ rw e (same id1)
      ])
    ])

-- `add_node` with the owner that `extract_node_values` reads.
whole : Added → DataNode → Option Buffer → Option Buffer → Option Buffer → Outcome
whole (s, out) node (some id1) (some parent) owner =
    place_or_fail (untrack id1 s, out) (both_set node (some id1) owner)
whole added node _ _ _ = returned added

add_node-whole :
    (added : Added) (node : DataNode) (id1 parent : Option Buffer)
    → node.id1 ≡ id1
    → add_node added node id1 parent ≡ whole added node id1 parent node.owner
unfolding add_node whole extract_node_values
add_node-whole (s, out) node none parent e = refl
add_node-whole (s, out) node (some id1) none e = refl
add_node-whole (s, out) node (some id1) (some parent) e = rw e refl

add_node-Shows :
    (nodes : NodeMap) (s : AlgoSorted) (out : List NodeValues × List Buffer) (node : DataNode)
    (id1 parent owner : Option Buffer)
    → Matches nodes s
    → Returns (Shows (put_whole nodes node id1 parent owner)) (whole (s, out) node id1 parent owner)
unfolding Shows put_whole whole place_or_fail place untrack both_set
add_node-Shows nodes s out node none parent owner h = h.1
add_node-Shows nodes s out node (some id1) none owner h = h.1
add_node-Shows nodes s out node (some id1) (some parent) none h = tt
add_node-Shows nodes s out node (some id1) (some parent) (some owner) h =
    place_at-Shows nodes (untrack id1 s) out (node_values node id1 owner) _ h refl

add_from-Matches :
    (rest : List DataNode) (nodes : NodeMap) (s : AlgoSorted) (out : List NodeValues × List Buffer)
    → Matches nodes s
    → Returns (Matches (put_all nodes rest)) (add_from (s, out) rest)
unfolding add_from put_all
add_from-Matches [] nodes s out h = h
add_from-Matches (node ∷ rest) nodes s out h =
    let next = put_whole nodes node node.id1 node.parent_id node.owner in
    let first = add_node (s, out) node node.id1 node.parent_id in
    then_Matches next first
      (both next first (add_node-IsConsistent s out node node.id1 node.parent_id h.0) (
        rw (add_node-whole (s, out) node node.id1 node.parent_id refl)
          (add_node-Shows nodes s out node node.id1 node.parent_id node.owner h)))
      (λ t out k. add_from-Matches rest next t out k)
  where
    then_Matches :
        (next : NodeMap) (first : Outcome)
        → Returns (Matches next) first
        → ((t : AlgoSorted) (out : List NodeValues × List Buffer)
            → Matches next t
            → Returns (Matches (put_all next rest)) (add_from (t, out) rest))
        → Returns (Matches (put_all next rest)) (first >>= λ a. add_from a rest)
    then_Matches next (returned (t, out)) h k = k t out h
    then_Matches next (failed t message) h k = tt

-- A model that is sorted, and shows the nodes of the map.
abbrev pub Sorts : NodeMap → AlgoSorted → Type 0
Sorts nodes s =
    IsSorted s.order_by_storage_time s.nodes × ((id1 : Buffer) → get_node s id1 ≡ nodes id1)

sort_nodes-Sorts : (nodes : NodeMap) (s : AlgoSorted) → Matches nodes s → Sorts nodes (sort_nodes s)
unfolding sort_nodes update_indexes
sort_nodes-Sorts nodes s (consistent, same) = (
  sort-IsSorted s.order_by_storage_time s.nodes,
  λ id1.
      get_node-find (sort_nodes s) id1 (sort_nodes-IsConsistent s consistent)
      ∙ find-sort id1 s.order_by_storage_time s.nodes consistent.0
      ∙ same id1,
)

-- When `add` returns, from any consistent model, the nodes are sorted by time and identity, and the
-- model maps each identity to the node that the map before has under it, replaced in turn by each
-- added node with an identity, a parent and an owner whose transient hash differs.
pub add-refines :
    (s : AlgoSorted) (rest : List DataNode)
    → IsConsistent s
    → {t : AlgoSorted} {out : List NodeValues × List Buffer} → add s rest ≡ returned (t, out)
    → Sorts (put_all (get_node s) rest) t
unfolding add
add-refines s rest h e = subst (Returns (Sorts (put_all (get_node s) rest))) e (
    finish (add_from (s, ([], [])) rest)
      (add_from-Matches rest (get_node s) s ([], []) (h, λ id1. sym (get_node-find s id1 h))))
  where
    finish :
        (o : Outcome)
        → Returns (Matches (put_all (get_node s) rest)) o
        → Returns
            (Sorts (put_all (get_node s) rest))
            (o >>= λ (t, out). returned (sort_nodes t, out))
    finish (returned (t, out)) k = sort_nodes-Sorts (put_all (get_node s) rest) t k
    finish (failed t message) k = tt
