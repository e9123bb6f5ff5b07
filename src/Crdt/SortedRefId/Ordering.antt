-- ===== src/Crdt/SortedRefId/Ordering.antt =====
-- storage/crdt/AlgoSortedRefId.ts: the ordering at the end of `add`, sorting included.
use mathlib.Core.List.Perm
use openodin.Prelude.{
  ℕ, suc, ◌*◌, ◌^◌, ◌≤◌, ◌<◌, ◌≡◌, refl, sym, ◌∙◌, ap, Bool, ◌||◌, List, [], ◌∷◌, length, arith,
  All,
}
use openodin.Prelude.Buffer.{Buffer, equals}
use openodin.Prelude.Dict.{Dict}
use openodin.Crdt.SortedRefId.{NodeValuesRefId, sort_by_time, order}
use openodin.Crdt.SortedRefId.Moves.{occurs, AreDistinct, sort_by_time-Perm, occurs-splice_in}
use openodin.Crdt.SortedRefId.Kept.{
  All-splice_in, AreDistinct-splice_in, length-splice_in, insert_by_time-splice_in,
}
use openodin.Crdt.SortedRefId.Places.{IsClean}
use openodin.Crdt.SortedRefId.Settles.{
  EndsWell, AreRanked, weight_of, weight_lighter, weight_heavy, measure-le, settle-EndsWell,
}

enough_rounds : (m n k p rounds : ℕ) → m ≤ n * p → n ≡ k → k * p < rounds → m < rounds
enough_rounds m n k p rounds le e less =
    let le' : m ≤ k * p = rw (← e) le in omega (arith, le', less)

module _ (by_storage_time : Bool) where
  occurs-sort :
      (id1 : Buffer) (nodes : List NodeValuesRefId)
      → occurs id1 (sort_by_time by_storage_time nodes) ≡ occurs id1 nodes
  unfolding sort_by_time
  occurs-sort id1 [] = refl
  occurs-sort id1 (a ∷ nodes) =
      let (j, at) =
        insert_by_time-splice_in by_storage_time a (sort_by_time by_storage_time nodes) in
      ap (occurs id1) at
      ∙ occurs-splice_in id1 j a (sort_by_time by_storage_time nodes)
      ∙ ap (λ t. equals a.id1 id1 || t) (occurs-sort id1 nodes)

  AreDistinct-sort :
      (nodes : List NodeValuesRefId)
      → AreDistinct nodes
      → AreDistinct (sort_by_time by_storage_time nodes)
  unfolding sort_by_time
  AreDistinct-sort [] d = tt
  AreDistinct-sort (a ∷ nodes) d =
      let (j, at) =
        insert_by_time-splice_in by_storage_time a (sort_by_time by_storage_time nodes) in
      rw at (
        AreDistinct-splice_in j a (sort_by_time by_storage_time nodes)
          (occurs-sort a.id1 nodes ∙ d.0) (AreDistinct-sort nodes d.1))

  All-sort :
      (P : NodeValuesRefId → Type 0) (nodes : List NodeValuesRefId)
      → All P nodes
      → All P (sort_by_time by_storage_time nodes)
  unfolding sort_by_time
  All-sort P [] h = tt
  All-sort P (a ∷ nodes) h =
      let (j, at) =
        insert_by_time-splice_in by_storage_time a (sort_by_time by_storage_time nodes) in
      rw at (All-splice_in P j a (sort_by_time by_storage_time nodes) h.0 (All-sort P nodes h.1))

  length-sort :
      (nodes : List NodeValuesRefId) → length (sort_by_time by_storage_time nodes) ≡ length nodes
  unfolding sort_by_time
  length-sort [] = refl
  length-sort (a ∷ nodes) =
      let (j, at) =
        insert_by_time-splice_in by_storage_time a (sort_by_time by_storage_time nodes) in
      ap length at
      ∙ length-splice_in j a (sort_by_time by_storage_time nodes)
      ∙ ap suc (length-sort nodes)

  -- The ordering of nodes at the end of `add` ends, if no two nodes have one identity, the
  -- dictionary has entries of no others, and references do not go round. It gives the same nodes,
  -- none before the one that it refers to, with the dictionary of their places.
  pub order-EndsWell :
      (rank : Buffer → ℕ) (highest rounds : ℕ) (nodes : List NodeValuesRefId) (indexes : Dict ℕ)
      → AreDistinct nodes
      → IsClean indexes nodes
      → AreRanked rank highest nodes
      → length nodes * suc (length nodes) ^ highest < rounds
      → EndsWell nodes (order by_storage_time rounds nodes indexes)
  unfolding order
  order-EndsWell rank highest rounds nodes indexes d clean ranked enough =
      let sorted = sort_by_time by_storage_time nodes in
      let factor = suc (length nodes) in
      let positive : 0 < factor = omega arith in
      let same = length-sort nodes in
      let bound = measure-le rank highest factor positive sorted in
      let ended =
        settle-EndsWell by_storage_time (weight_of rank highest factor positive) factor rounds
          sorted indexes
          (record {
            distinct = AreDistinct-sort nodes d;
            clean = λ id1 absent. clean id1 (sym (occurs-sort id1 nodes) ∙ absent);
            lighter = weight_lighter rank highest factor positive sorted (All-sort _ nodes ranked);
            few = omega (arith, same);
            heavy = weight_heavy rank highest factor positive sorted;
          })
          (enough_rounds _ (length sorted) (length nodes) (factor ^ highest) rounds bound same
            enough) in
      record {
        ordered = ended.ordered;
        ends = ended.ends;
        same = Perm.trans (sort_by_time-Perm by_storage_time nodes) ended.same;
        settled = ended.settled;
        indexed = ended.indexed;
      }
