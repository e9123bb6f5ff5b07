-- ===== src/Crdt/RefId/Leaves.antt =====
-- storage/crdt/AlgoRefId.ts: leaves that are added. What `add` does when no added node is the parent
-- of another, against what it does otherwise.
use mathlib.Core.Option.{some_inj}
use openodin.Prelude.{
  ℕ, ◌<◌, ◌≡◌, refl, sym, ◌∙◌, ap, Bool, some, List, [], All, All-map, All-append,
}
use openodin.Prelude.Buffer.{Buffer}
use openodin.Prelude.Dict.{Dict, lookup}
use openodin.Prelude.Sorting.{sorted}
use openodin.Crdt.SortedRefId.{NodeValuesRefId}
use openodin.Crdt.RefId.{
  Levels, Pushed, is_after, push_nodes, and_then, sort_pushed, sort_visited, index_nodes, values_of,
  re_index, sort_ids,
}
use openodin.Crdt.RefId.Order.{IsKnown, is_after-IsOrder}
use openodin.Crdt.RefId.Pushes.{
  sort_all, sort_all-agree, sort_all-sort_all, IsSettledFrom-sort_all, AllLevels-sort_all,
}
use openodin.Crdt.RefId.Runs.{
  push_nodes-append, push_nodes-RunAlike, sort_pushed-some, sort_pushed-RunAlike, push_nodes-IsGood,
}
use openodin.Crdt.RefId.Incremental.{put_all, IsApart, lookup-put_all, push_nodes-same}
use openodin.Crdt.RefId.Ends.{AreRanked, push_nodes-some}
use openodin.Crdt.RefId.Reindexed.{
  AreNew-occurs, values_of-put_all, put_all-IsKnown, put_all-IsKeyed, AreLeaves, All-IsApart,
}

re_index-some :
    (by_storage_time : Bool) (fuel : ℕ) (nodes : Dict NodeValuesRefId) (run : Pushed)
    → push_nodes fuel nodes (values_of nodes) ([], []) ≡ some run
    → (levels : Levels) × (re_index by_storage_time fuel nodes ≡ some levels)
unfolding re_index index_nodes sort_pushed
re_index-some by_storage_time fuel nodes (levels, visited) e = (
  sort_visited (sort_ids by_storage_time nodes) visited 0 levels,
  ap (sort_pushed (sort_ids by_storage_time nodes)) e,
)

module _ (by_storage_time : Bool) (fuel : ℕ) (nodes : Dict NodeValuesRefId)
    (added : List NodeValuesRefId) (leaves : AreLeaves nodes added) where
  abbrev grown : Dict NodeValuesRefId
  grown = put_all added nodes

  apart : All (IsApart nodes added) (values_of nodes)
  apart = All-IsApart nodes added (values_of nodes) leaves.new leaves.there leaves.apart

  same_entry : (id1 : Buffer) → IsKnown nodes id1 → lookup id1 grown ≡ lookup id1 nodes
  same_entry id1 (node, there, is) =
      lookup-put_all id1 added nodes (AreNew-occurs nodes added id1 node leaves.new there)

  IsKnown-before : All (λ node. IsKnown nodes node.id1) (values_of nodes)
  IsKnown-before = All-map _ _ (values_of nodes) (λ node there. (node, there, refl)) leaves.there

  IsKnown-after : All (λ node. IsKnown grown node.id1) (values_of nodes)
  IsKnown-after =
      All-map _ _ (values_of nodes)
        (λ node is.
          let known : IsKnown nodes node.id1 = (node, is.there, refl) in
          (node, same_entry node.id1 known ∙ is.there, refl))
        apart

  order_agrees :
      (a b : Buffer)
      → IsKnown nodes a
      → IsKnown nodes b
      → is_after by_storage_time nodes a b ≡ is_after by_storage_time grown a b
  unfolding is_after
  order_agrees a b p q = rw (same_entry a p, same_entry b q) refl

  -- The levels after the whole index of the old nodes, in the new order.
  old_levels :
      (run : Pushed) (old : Levels)
      → push_nodes fuel nodes (values_of nodes) ([], []) ≡ some run
      → re_index by_storage_time fuel nodes ≡ some old
      → old ≡ sort_all (is_after by_storage_time grown) run.0
  unfolding re_index index_nodes sort_ids
  old_levels run old e h =
      let good =
        push_nodes-IsGood (is_after by_storage_time nodes) (IsKnown nodes)
          (is_after-IsOrder by_storage_time nodes) fuel nodes (values_of nodes) run IsKnown-before
          e in
      let sorted_run : some (sort_all (is_after by_storage_time nodes) run.0) ≡ some old =
        sym (
          sort_pushed-some (is_after by_storage_time nodes) (IsKnown nodes)
            (is_after-IsOrder by_storage_time nodes) run good)
        ∙ ap (sort_pushed (sorted (is_after by_storage_time nodes))) (sym e)
        ∙ h in
      sym (some_inj.0 sorted_run)
      ∙ sort_all-agree (is_after by_storage_time nodes) (is_after by_storage_time grown)
          (IsKnown nodes) order_agrees run.0 good.0

  same_levels :
      (run : Pushed) (old : Levels)
      → push_nodes fuel nodes (values_of nodes) ([], []) ≡ some run
      → re_index by_storage_time fuel nodes ≡ some old
      → index_nodes by_storage_time fuel grown added old ≡ re_index by_storage_time fuel grown
  unfolding re_index index_nodes sort_ids
  same_levels run old e h =
      let after = is_after by_storage_time grown in
      let order = is_after-IsOrder by_storage_time grown in
      let again : push_nodes fuel grown (values_of nodes) ([], []) ≡ some run =
        push_nodes-same nodes grown added (λ id1. lookup-put_all id1 added nodes) fuel
          (values_of nodes) ([], []) apart apart
        ∙ e in
      let good =
        push_nodes-IsGood after (IsKnown grown) order fuel grown (values_of nodes) run IsKnown-after
          again in
      let is = old_levels run old e h in
      let whole : push_nodes fuel grown (values_of grown) ([], [])
          ≡ push_nodes fuel grown added run =
        ap (λ values. push_nodes fuel grown values ([], []))
          (values_of-put_all nodes added leaves.new)
        ∙ push_nodes-append fuel grown (values_of nodes) added ([], [])
        ∙ ap (λ step. and_then step (push_nodes fuel grown added)) again in
      ap (λ levels. sort_pushed (sorted after) (push_nodes fuel grown added (levels, []))) is
      ∙ sort_pushed-RunAlike after (IsKnown grown) order
          (push_nodes fuel grown added (sort_all after run.0, [])) (push_nodes fuel grown added run)
          (push_nodes-RunAlike after (IsKnown grown) order fuel grown added
            (sort_all after run.0, []) run (put_all-IsKnown nodes added leaves.new)
            (
              sort_all-sort_all after (IsKnown grown) order run.0 good.0,
              (
                (
                  AllLevels-sort_all after (IsKnown grown) order run.0 good.0,
                  IsSettledFrom-sort_all after (IsKnown grown) order 0 run.0 good.0,
                ),
                good,
              ),
            ))
      ∙ ap (sort_pushed (sorted after)) (sym whole)

  -- Leaves are added: the added nodes are new, and no node that is there refers to one of them. If
  -- references do not go round, both ways to index end, and with the same levels: to index only the
  -- added nodes in the levels of the old ones, and to index all nodes anew.
  pub index_nodes-re_index :
      (rank : Buffer → ℕ)
      → AreRanked rank (values_of nodes)
      → AreRanked rank added
      → All (λ node. rank node.id1 < fuel) (values_of nodes)
      → All (λ node. rank node.id1 < fuel) added
      → (old : Levels) × (new : Levels) × (re_index by_storage_time fuel nodes ≡ some old)
        × (index_nodes by_storage_time fuel (put_all added nodes) added old ≡ some new)
        × (re_index by_storage_time fuel (put_all added nodes) ≡ some new)
  index_nodes-re_index rank ranked ranked_added low low_added =
      let (run, e) =
        push_nodes-some rank nodes leaves.keyed ranked fuel (values_of nodes) ([], []) ranked low in
      let (old, h) = re_index-some by_storage_time fuel nodes run e in
      let values = values_of-put_all nodes added leaves.new in
      let all_ranked : AreRanked rank (values_of grown) =
        rw values (All-append _ (values_of nodes) added ranked ranked_added) in
      let all_low : All (λ node. rank node.id1 < fuel) (values_of grown) =
        rw values (All-append _ (values_of nodes) added low low_added) in
      let (run2, e2) =
        push_nodes-some rank grown (put_all-IsKeyed nodes added leaves.keyed) all_ranked fuel
          (values_of grown) ([], []) all_ranked all_low in
      let (new, h2) = re_index-some by_storage_time fuel grown run2 e2 in
      (old, new, h, same_levels run old e h ∙ h2, h2)
