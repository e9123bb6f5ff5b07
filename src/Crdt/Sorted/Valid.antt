-- ===== src/Crdt/Sorted/Valid.antt =====
-- storage/crdt/AlgoSorted.ts: what every sequence of operations keeps.
use mathlib.Core.Option
use openodin.Prelude.{
  ℕ, ◌+◌, ◌≡◌, ◌≢◌, refl, sym, ◌∙◌, ap, Bool, true, false, not, Option, none, some, List, [], ◌∷◌,
  Bool-cases, inl, inr, if◌then◌else◌, length, get_elem?, arith,
}
use openodin.Prelude.Buffer.{Buffer, equals, equals→eq}
use openodin.Prelude.Dict.{lookup, lookup-put}
use openodin.Prelude.Result.{Result, ok, error}
use openodin.Crdt.Sorted.{NodeValues, AlgoSorted, get_length, update_indexes}
use openodin.Crdt.Sorted.Order.{sort, sort-All}
use openodin.Crdt.Sorted.Indexes.{AreDistinct}
use openodin.Crdt.Sorted.Update.{
  DataNode, Added, Outcome, returned, failed, add, replace_changed, append_node, place_at, place,
  place_or_fail, add_node, add_from, sort_nodes, untrack, ◌>>=◌, extract_node_values,
}
use openodin.Crdt.Sorted.Places.{
  position, IsAbsent, position-absent, IsAbsent-position, position-get,
}
use openodin.Crdt.Sorted.Kept.{
  append-AreDistinct, or_next, position-append, replace_at-AreDistinct, position-replace_at,
  sort-AreDistinct, lookup-index_nodes,
}

-- No two nodes have one identity, and the dictionary holds the place of each node, and nothing else.
abbrev pub IsConsistent : AlgoSorted → Type 0
IsConsistent s =
    AreDistinct s.nodes × ((id1 : Buffer) → lookup id1 s.node_index_by_id1 ≡ position id1 s.nodes)

-- Between the splices and `updateIndexes` the places are wrong, but no removed node has one.
unfoldable pub IsStale : AlgoSorted → Type 0
IsStale s =
    AreDistinct s.nodes
    × ((id1 : Buffer) → IsAbsent id1 s.nodes → lookup id1 s.node_index_by_id1 ≡ none)

pub consistent-IsStale : (s : AlgoSorted) → IsConsistent s → IsStale s
unfolding IsStale
consistent-IsStale s (distinct, places) =
    (distinct, λ id1 absent. places id1 ∙ position-absent id1 s.nodes absent)

pub update_indexes-IsConsistent : (s : AlgoSorted) → IsStale s → IsConsistent (update_indexes s)
unfolding IsStale update_indexes
update_indexes-IsConsistent s (distinct, stale) = (
  distinct,
  λ id1.
      lookup-index_nodes id1 0 s.nodes s.node_index_by_id1 distinct
      ∙ settled id1 (position id1 s.nodes) refl,
)
  where
    settled :
        (id1 : Buffer) (o : Option ℕ)
        → position id1 s.nodes ≡ o
        → or_next (Option.map (λ n. n + 0) o) (lookup id1 s.node_index_by_id1) ≡ o
    settled id1 none e = stale id1 (IsAbsent-position id1 s.nodes e)
    settled id1 (some n) e = ap some (omega arith)

-- What holds of the model, whichever way the loop of `add` is left.
abbrev pub Leaves : (AlgoSorted → Type 0) → Outcome → Type 0
Leaves P (returned (s, out)) = P s
Leaves P (failed s message) = P s

append_node-IsConsistent :
    (s : AlgoSorted) (out : List NodeValues × List Buffer) (values : NodeValues)
    → IsConsistent s
    → lookup values.id1 s.node_index_by_id1 ≡ none
    → IsConsistent (append_node (s, out) values).0
unfolding append_node get_length
append_node-IsConsistent s out values (distinct, places) missing =
    let absent = IsAbsent-position values.id1 s.nodes (sym (places values.id1) ∙ missing) in
    (
      append-AreDistinct s.nodes values distinct absent,
      λ id1.
          lookup-put values.id1 id1 (length s.nodes) s.node_index_by_id1
          ∙ rw (places id1)
              (chosen id1 (equals values.id1 id1) refl ∙ sym (position-append id1 s.nodes values)),
    )
  where
    chosen :
        (id1 : Buffer) (test : Bool)
        → equals values.id1 id1 ≡ test
        → (if test then some (length s.nodes) else position id1 s.nodes)
          ≡ or_next (position id1 s.nodes) (if test then some (length s.nodes) else none)
    chosen id1 true e = rw (← equals→eq values.id1 id1 e, ← places values.id1, missing) refl
    chosen id1 false e = or_none (position id1 s.nodes)
      where
        or_none : (o : Option ℕ) → o ≡ or_next o none
        or_none none = refl
        or_none (some n) = refl

pub place_at-IsConsistent :
    (s : AlgoSorted) (out : List NodeValues × List Buffer) (values : NodeValues) (o : Option ℕ)
    → IsConsistent s
    → lookup values.id1 s.node_index_by_id1 ≡ o
    → Leaves IsConsistent (place_at (s, out) values o)
unfolding place_at replace_changed
place_at-IsConsistent s out values none h e = append_node-IsConsistent s out values h e
place_at-IsConsistent s out values (some i) (distinct, places) e =
    let (old, (at, (is, same))) = position-get values.id1 s.nodes i (sym (places values.id1) ∙ e) in
    rw at (changed old at same)
  where
    changed :
        (old : NodeValues)
        → get_elem? s.nodes i ≡ some old
        → old.id1 ≡ values.id1
        → Leaves IsConsistent (replace_changed (s, out) values (some old) i)
    changed old at same =
        elim (Bool-cases (not (equals values.transient_hash old.transient_hash))) [
          | inl differs ↦ rw differs (
            replace_at-AreDistinct i s.nodes old values at (sym same) distinct,
            λ id1. places id1 ∙ sym (position-replace_at id1 i s.nodes old values at (sym same)),
          )
          | inr equal ↦ rw equal (distinct, places)
        ]

pub add_node-IsConsistent :
    (s : AlgoSorted) (out : List NodeValues × List Buffer) (node : DataNode)
    (id1 parent : Option Buffer)
    → IsConsistent s
    → Leaves IsConsistent (add_node (s, out) node id1 parent)
unfolding add_node place_or_fail place untrack
add_node-IsConsistent s out node none parent h = h
add_node-IsConsistent s out node (some id1) none h = h
add_node-IsConsistent s out node (some id1) (some parent) h = placed (extract_node_values node)
  where
    placed : (o : Result NodeValues) → Leaves IsConsistent (place_or_fail (untrack id1 s, out) o)
    placed (ok values) = place_at-IsConsistent (untrack id1 s) out values _ h refl
    placed (error message) = h

pub bind-Leaves :
    (P : AlgoSorted → Type 0) (first : Outcome) (rest : Added → Outcome)
    → Leaves P first
    → ((s : AlgoSorted) (out : List NodeValues × List Buffer) → P s → Leaves P (rest (s, out)))
    → Leaves P (first >>= rest)
bind-Leaves P (returned (s, out)) rest h k = k s out h
bind-Leaves P (failed s message) rest h k = h

pub add_from-IsConsistent :
    (nodes : List DataNode) (s : AlgoSorted) (out : List NodeValues × List Buffer)
    → IsConsistent s
    → Leaves IsConsistent (add_from (s, out) nodes)
unfolding add_from
add_from-IsConsistent [] s out h = h
add_from-IsConsistent (node ∷ nodes) s out h =
    bind-Leaves IsConsistent (add_node (s, out) node node.id1 node.parent_id) _
      (add_node-IsConsistent s out node node.id1 node.parent_id h) (add_from-IsConsistent nodes)

pub sort_nodes-IsConsistent : (s : AlgoSorted) → IsConsistent s → IsConsistent (sort_nodes s)
unfolding sort_nodes IsStale
sort_nodes-IsConsistent s (distinct, places) =
    update_indexes-IsConsistent (record s { nodes = sort s.order_by_storage_time s.nodes })
      (
        sort-AreDistinct s.order_by_storage_time s.nodes distinct,
        λ id1 absent.
            places id1
            ∙ position-absent id1 s.nodes
                (sort-All (λ node. node.id1 ≢ id1) s.order_by_storage_time s.nodes absent),
      )

pub add-IsConsistent :
    (s : AlgoSorted) (nodes : List DataNode) → IsConsistent s → Leaves IsConsistent (add s nodes)
unfolding add
add-IsConsistent s nodes h =
    bind-Leaves IsConsistent (add_from (s, ([], [])) nodes) _
      (add_from-IsConsistent nodes s ([], []) h) (λ t out k. sort_nodes-IsConsistent t k)
