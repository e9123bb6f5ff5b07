-- ===== src/Crdt/Sorted/Indexes.antt =====
-- The dictionary of indexes after `updateIndexes`.
use openodin.Prelude.{ℕ, suc, ◌≡◌, ◌≢◌, refl, ◌∙◌, some, List, [], ◌∷◌, All}
use openodin.Prelude.Buffer.{Buffer, equals_refl, differ}
use openodin.Prelude.Dict.{Dict, lookup, put, lookup-put}
use openodin.Prelude.Result.{ok}
use openodin.Crdt.Sorted.{
  NodeValues, AlgoSorted, index_nodes, update_indexes, get_indexes, index_or_throw, number_from,
}

-- No two nodes have one identity.
abbrev pub AreDistinct : List NodeValues → Type 0
AreDistinct [] = Unit
AreDistinct (node ∷ nodes) = All (λ other. other.id1 ≢ node.id1) nodes × AreDistinct nodes

pub index_nodes_absent :
    (i : ℕ) (nodes : List NodeValues) (indexes : Dict ℕ) (id1 : Buffer)
    → All (λ other. other.id1 ≢ id1) nodes
    → lookup id1 (index_nodes i nodes indexes) ≡ lookup id1 indexes
unfolding index_nodes
index_nodes_absent i [] indexes id1 h = refl
index_nodes_absent i (node ∷ nodes) indexes id1 h =
    index_nodes_absent (suc i) nodes (put node.id1 i indexes) id1 h.1
    ∙ lookup-put node.id1 id1 i indexes
    ∙ rw (differ node.id1 id1 h.0) refl

indexed_from :
    (s : AlgoSorted) (i : ℕ) (nodes : List NodeValues) (indexes : Dict ℕ)
    → AreDistinct nodes
    → get_indexes (record s { node_index_by_id1 = index_nodes i nodes indexes }) nodes
      ≡ ok (number_from i nodes)
unfolding get_indexes index_nodes index_or_throw
indexed_from s i [] indexes h = refl
indexed_from s i (node ∷ nodes) indexes h =
    let added : Dict ℕ = put node.id1 i indexes in
    let here : lookup node.id1 (index_nodes (suc i) nodes added) ≡ some i =
      index_nodes_absent (suc i) nodes added node.id1 h.0
      ∙ lookup-put node.id1 node.id1 i indexes
      ∙ rw equals_refl refl in
    rw (here, indexed_from s (suc i) nodes added h.1) refl

-- After `updateIndexes`, `getIndexes` gives each node of the model its place in the order, when no
-- two nodes have one identity; what the dictionary held before does not matter.
pub get_indexes-update_indexes :
    (s : AlgoSorted)
    → AreDistinct s.nodes
    → get_indexes (update_indexes s) s.nodes ≡ ok (number_from 0 s.nodes)
unfolding update_indexes
get_indexes-update_indexes s h = indexed_from s 0 s.nodes s.node_index_by_id1 h
