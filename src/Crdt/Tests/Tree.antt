-- ===== src/Crdt/Tests/Tree.antt =====
-- A tree of references to which two leaves are added.
use openodin.Prelude.{ℕ, ◌<◌, ◌≡◌, refl, false, Option, none, some, List, [], ◌∷◌, All, arith}
use openodin.Prelude.Buffer.{Buffer, equals}
use openodin.Prelude.Dict.{Dict, lookup, put}
use openodin.Crdt.SortedRefId.{NodeValuesRefId}
use openodin.Crdt.RefId.{Levels, index_nodes, re_index, values_of}
use openodin.Crdt.RefId.Incremental.{put_all}
use openodin.Crdt.RefId.Reindexed.{AreLeaves}
use openodin.Crdt.RefId.Leaves.{index_nodes-re_index}

abbrev node : ℕ → ℕ → Option Buffer → NodeValuesRefId
node id time ref_id = record {
  values = record {
    id1 = id ∷ [];
    id2 = none;
    owner = [];
    transient_hash = [];
    creation_time = time;
    transient_storage_time = 0;
  };
  ref_id = ref_id;
}

abbrev nodes : Dict NodeValuesRefId
nodes = (1 ∷ [], node 1 20 none) ∷ (2 ∷ [], node 2 30 (some (1 ∷ []))) ∷ []

abbrev added : List NodeValuesRefId
added = node 3 40 (some (2 ∷ [])) ∷ node 4 10 none ∷ []

levels :
    re_index false 5 (put_all added nodes)
    ≡ some (some ((4 ∷ []) ∷ (1 ∷ []) ∷ []) ∷ some ((2 ∷ []) ∷ []) ∷ some ((3 ∷ []) ∷ []) ∷ [])
unfolding re_index put equals lookup openodin.Prelude.Sorting.insert_sorted
    openodin.Crdt.SortedRefId.is_greater openodin.Crdt.Sorted.Order.compare_nodes
levels = refl

leaves : AreLeaves nodes added
unfolding values_of lookup put equals
leaves = record {
  keyed = (refl, (refl, tt));
  there = (refl, (refl, tt));
  new = (refl, (refl, tt));
  apart = (refl, (refl, tt));
}

abbrev rank : Buffer → ℕ
rank [] = 0
rank (byte ∷ bytes) = byte

index_nodes-re_index_example :
    (old : Levels) × (new : Levels) × (re_index false 5 nodes ≡ some old)
    × (index_nodes false 5 (put_all added nodes) added old ≡ some new)
    × (re_index false 5 (put_all added nodes) ≡ some new)
unfolding values_of
index_nodes-re_index_example =
    index_nodes-re_index false 5 nodes added leaves rank (omega arith, (omega arith, tt))
      (omega arith, (omega arith, tt)) (omega arith, (omega arith, tt))
      (omega arith, (omega arith, tt))
