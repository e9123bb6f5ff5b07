-- ===== src/Crdt/Tests.antt =====
-- Pages of a model of three nodes.
mod Updates
mod References
mod Tree
use openodin.Prelude.{
  ℕ, ◌≡◌, ◌≢◌, ◌+◌, ◌≤◌, refl, false, true, none, some, [], ◌∷◌, length, if◌then◌else◌,
}
use openodin.Prelude.Int.{pos, negsuc}
use openodin.Prelude.Buffer.{equals}
use openodin.Prelude.Dict.{lookup}
use openodin.Prelude.Result.{ok}
use openodin.Crdt.Sorted.{NodeValues, AlgoSorted, get, update_indexes, get_indexes, number_from}
use openodin.Crdt.Sorted.Window.{AreAt, asked, get-AreAt}
use openodin.Crdt.Sorted.Indexes.{AreDistinct, get_indexes-update_indexes}

abbrev node : ℕ → NodeValues
node n = record {
  id1 = n ∷ [];
  id2 = none;
  owner = 1 ∷ [];
  transient_hash = [];
  creation_time = n;
  transient_storage_time = 0;
}

abbrev three : AlgoSorted
three = record {
  order_by_storage_time = false;
  nodes = node 10 ∷ node 20 ∷ node 30 ∷ [];
  node_index_by_id1 = (10 ∷ [], 0) ∷ (20 ∷ [], 1) ∷ (30 ∷ [], 2) ∷ [];
  is_closed = true;
  is_deletion_tracking = false;
  deletion_tracking = [];
}

-- The two nodes before the end, in reverse.
page : get three none (negsuc 0) (pos 2) (pos 0) true ≡ some (node 30 ∷ node 20 ∷ [], 2 ∷ 1 ∷ [])
unfolding get
page = refl

get-AreAt_example :
    AreAt three.nodes (node 30 ∷ node 20 ∷ []) (2 ∷ 1 ∷ [])
    × (length (node 30 ∷ node 20 ∷ [])
        ≤ asked (pos 2) (length three.nodes) + asked (pos 0) (length three.nodes))
get-AreAt_example = get-AreAt three none (negsuc 0) (pos 2) (pos 0) true page

distinct : AreDistinct three.nodes
distinct = ((λ e. absurd cc, (λ e. absurd cc, tt)), ((λ e. absurd cc, tt), (tt, tt)))

indexes_of_three : get_indexes (update_indexes three) three.nodes ≡ ok (number_from 0 three.nodes)
indexes_of_three = get_indexes-update_indexes three distinct
