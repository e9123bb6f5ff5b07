-- ===== src/Crdt/Tests/References.antt =====
-- Nodes that refer to each other: the first by time refers to the last, and the second to the first.
use openodin.Prelude.{
  ℕ, suc, ◌*◌, ◌^◌, ◌<◌, ◌≡◌, refl, false, Option, none, some, List, [], ◌∷◌, arith, map,
}
use openodin.Prelude.Buffer.{Buffer, equals}
use openodin.Prelude.Dict.{lookup}
use openodin.Crdt.SortedRefId.{NodeValuesRefId, Ordered, order}
use openodin.Crdt.SortedRefId.Settles.{EndsWell, AreRanked}
use openodin.Crdt.SortedRefId.Ordering.{order-EndsWell}

abbrev node : ℕ → ℕ → Option Buffer → NodeValuesRefId
node id time ref_id = record {
  values = record {
    id1 = id ∷ [];
    id2 = none;
    owner = [];
    transient_hash = [];
    creation_time = time;
    transient_storage_time = 0;
  };
  ref_id = ref_id;
}

abbrev nodes : List NodeValuesRefId
nodes = node 1 30 none ∷ node 2 10 (some (1 ∷ [])) ∷ node 3 20 (some (2 ∷ [])) ∷ []

abbrev ids : Option Ordered → List Buffer
ids none = []
ids (some (ordered, indexes)) = map (λ n. n.id1) ordered

settled : ids (order false 5 nodes []) ≡ (1 ∷ []) ∷ (2 ∷ []) ∷ (3 ∷ []) ∷ []
unfolding order openodin.Crdt.SortedRefId.insert_by_time openodin.Crdt.SortedRefId.is_greater
    openodin.Crdt.Sorted.Order.compare_nodes lookup openodin.Prelude.Dict.put equals
settled = refl

abbrev rank : Buffer → ℕ
rank [] = 0
rank (byte ∷ bytes) = byte

ranked : AreRanked rank 3 nodes
ranked = (
  (omega arith, λ id1 e. absurd cc),
  (
    (omega arith, λ id1 e. below 1 2 id1 e (omega arith)),
    ((omega arith, λ id1 e. below 2 3 id1 e (omega arith)), tt),
  ),
)
  where
    below : (a b : ℕ) (id1 : Buffer) → some (a ∷ []) ≡ some id1 → a < b → rank id1 < b
    below a b id1 e less = let same : (a ∷ []) ≡ id1 = cc in rw (← same) less

order-EndsWell_example : EndsWell nodes (order false 193 nodes [])
unfolding equals lookup
order-EndsWell_example =
    order-EndsWell false rank 3 193 nodes [] (refl, (refl, (refl, tt))) (λ id1 absent. refl) ranked
      (omega arith)
