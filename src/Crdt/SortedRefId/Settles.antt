-- ===== src/Crdt/SortedRefId/Settles.antt =====
-- storage/crdt/AlgoSortedRefId.ts: the loop at the end of `add` ends, with the nodes in their places.
use mathlib.Core.List.{Perm}
use mathlib.Core.List.Perm
use native.Mathlib.Nat.{pow-le-pow_right, pow-suc, pow-zero}
use openodin.Prelude.{
  ℕ, zero, suc, ◌-◌, ◌*◌, ◌^◌, ◌≤◌, ◌<◌, ◌≡◌, refl, sym, ◌∙◌, subst, Bool, true, false, Option,
  none, some, List, [], ◌∷◌, get_elem?, drop, length, arith, All, All-map,
}
use openodin.Prelude.Buffer.{Buffer}
use openodin.Prelude.Dict.{Dict}
use openodin.Crdt.SortedRefId.{
  NodeValuesRefId, Late, Ordered, index_from, find_late, splice_out, index_to_insert, move, go_on,
  settle,
}
use openodin.Crdt.SortedRefId.Moves.{refers, AreDistinct, moved, occurs-moved, moved-Perm}
use openodin.Crdt.SortedRefId.Kept.{All-moved, AreDistinct-moved, length-moved}
use openodin.Crdt.SortedRefId.Places.{IsClean, index_from_absent, lookup-index_from}
use openodin.Crdt.SortedRefId.Found.{
  Places, IsSettled, IsLate, Finds, find_late-Finds, index_to_insert-ge,
}
use openodin.Crdt.SortedRefId.Measure.{AreLighter, counted, measure, measure-moved}

below_length :
    (nodes : List NodeValuesRefId) (i : ℕ) (node : NodeValuesRefId)
    → get_elem? nodes i ≡ some node
    → i < length nodes
below_length [] i node h = absurd cc
below_length (x ∷ nodes) zero node h = omega arith
below_length (x ∷ nodes) (suc i) node h = omega (arith, below_length nodes i node h)

-- The loop has ended with the same nodes, each behind the one that it refers to, and with the
-- dictionary of their places.
pub record EndsWell (nodes : List NodeValuesRefId) (result : Option Ordered) : Type 0 where
  pub ordered : Ordered
  pub ends : result ≡ some ordered
  pub same : Perm nodes ordered.0
  pub settled : IsSettled ordered.0
  pub indexed : Places ordered.1 ordered.0

module _ (by_storage_time : Bool) (weight : Buffer → ℕ) (factor : ℕ) where
  pub record IsFit (nodes : List NodeValuesRefId) (indexes : Dict ℕ) : Type 0 where
    pub distinct : AreDistinct nodes
    pub clean : IsClean indexes nodes
    pub lighter : AreLighter weight factor nodes
    pub few : length nodes ≤ factor
    pub heavy : All (λ c. 0 < weight c.id1) nodes

  at_all :
      (P : NodeValuesRefId → Type 0) (nodes : List NodeValuesRefId) (i : ℕ) (node : NodeValuesRefId)
      → get_elem? nodes i ≡ some node
      → All P nodes
      → P node
  at_all P [] i node h all = absurd cc
  at_all P (x ∷ nodes) zero node h all = let same : x ≡ node = cc in subst P same all.0
  at_all P (x ∷ nodes) (suc i) node h all = at_all P nodes i node h all.1

  target : Late → List NodeValuesRefId → ℕ
  target late nodes =
      index_to_insert by_storage_time late.node late.referenced
        (drop late.referenced (splice_out late.index nodes))

  IsFit-moved :
      (nodes : List NodeValuesRefId) (indexes : Dict ℕ) (i j : ℕ) (node : NodeValuesRefId)
      → get_elem? nodes i ≡ some node
      → IsFit nodes indexes
      → IsFit (moved i j node nodes) (index_from 0 nodes indexes)
  IsFit-moved nodes indexes i j node at fit = record {
    distinct = AreDistinct-moved i j node nodes at fit.distinct;
    clean = λ id1 absent.
        let gone = sym (occurs-moved id1 i j node nodes at) ∙ absent in
        index_from_absent 0 nodes indexes id1 gone ∙ fit.clean id1 gone;
    lighter = All-moved _ i j node nodes at fit.lighter;
    few = rw (length-moved i j node nodes at) fit.few;
    heavy = All-moved _ i j node nodes at fit.heavy;
  }

  shrinks :
      (nodes : List NodeValuesRefId) (indexes : Dict ℕ) (late : Late)
      → IsFit nodes indexes
      → IsLate nodes late
      → measure weight (moved late.index (target late nodes) late.node nodes) < measure weight nodes
  unfolding target
  shrinks nodes indexes late fit is_late =
      let ge =
        index_to_insert-ge by_storage_time late.node late.referenced
          (drop late.referenced (splice_out late.index nodes)) in
      let before = is_late.before in
      measure-moved weight late.index (target late nodes) late.node nodes factor is_late.at
        (omega arith) is_late.behind (is_late.clear (target late nodes) ge) fit.lighter fit.few
        (at_all _ nodes late.index late.node is_late.at fit.heavy)

  round-EndsWell :
      (nodes : List NodeValuesRefId) (indexes : Dict ℕ) (distinct : AreDistinct nodes)
      (places : Places indexes nodes) (found : Option Late)
      (again : List NodeValuesRefId → Option Ordered)
      → Finds nodes indexes distinct places (length nodes) found
      → ((late : Late)
          → IsLate nodes late
          → EndsWell
              (moved late.index (target late nodes) late.node nodes)
              (again (moved late.index (target late nodes) late.node nodes)))
      → EndsWell nodes (go_on by_storage_time (nodes, indexes) found again)
  unfolding go_on move target
  round-EndsWell nodes indexes distinct places none again finds next = record {
    ordered = (nodes, indexes);
    ends = refl;
    same = Perm.refl nodes;
    settled = λ i node at. finds i node (below_length nodes i node at) at;
    indexed = places;
  }
  round-EndsWell nodes indexes distinct places (some late) again is_late next =
      let ended = next late is_late in
      record {
        ordered = ended.ordered;
        ends = ended.ends;
        same =
            Perm.trans (moved-Perm late.index (target late nodes) late.node nodes is_late.at)
              ended.same;
        settled = ended.settled;
        indexed = ended.indexed;
      }

  pub settle-EndsWell :
      (rounds : ℕ) (nodes : List NodeValuesRefId) (indexes : Dict ℕ)
      → IsFit nodes indexes
      → measure weight nodes < rounds
      → EndsWell nodes (settle by_storage_time rounds nodes indexes)
  unfolding settle
  settle-EndsWell zero nodes indexes fit less = absurd (omega arith)
  settle-EndsWell (suc rounds) nodes indexes fit less =
      let updated = index_from 0 nodes indexes in
      let places : Places updated nodes =
        λ id1. lookup-index_from nodes indexes id1 fit.distinct fit.clean in
      round-EndsWell nodes updated fit.distinct places (find_late updated nodes (length nodes))
        (λ next. settle by_storage_time rounds next updated)
        (find_late-Finds nodes updated fit.distinct places (length nodes))
        (λ late is_late.
          settle-EndsWell rounds (moved late.index (target late nodes) late.node nodes) updated
            (IsFit-moved nodes indexes late.index (target late nodes) late.node is_late.at fit)
            (omega (arith, less, shrinks nodes indexes late fit is_late)))

-- References do not go round: each node has a rank, greater than that of the node it refers to.
abbrev pub AreRanked : (Buffer → ℕ) → ℕ → List NodeValuesRefId → Type 0
AreRanked rank highest nodes =
    All
      (λ c. (rank c.id1 ≤ highest) × ((id1 : Buffer) → c.ref_id ≡ some id1 → rank id1 < rank c.id1))
      nodes

module _ (rank : Buffer → ℕ) (highest factor : ℕ) (positive : 0 < factor) where
  unfoldable pub weight_of : Buffer → ℕ
  weight_of id1 = factor ^ (highest - rank id1)

  heavier :
      (a b : ℕ) → a < b → b ≤ highest → factor ^ (highest - b) * factor ≤ factor ^ (highest - a)
  heavier a b less le =
      rw (← pow-suc factor (highest - b)) (pow-le-pow_right positive (omega (arith, less, le)))

  pub weight_lighter :
      (nodes : List NodeValuesRefId)
      → AreRanked rank highest nodes
      → AreLighter weight_of factor nodes
  unfolding weight_of
  weight_lighter nodes =
      All-map _ _ nodes (λ c (le, above) id1 e. heavier (rank id1) (rank c.id1) (above id1 e) le)

  pub weight_heavy : (nodes : List NodeValuesRefId) → All (λ c. 0 < weight_of c.id1) nodes
  unfolding weight_of
  weight_heavy [] = tt
  weight_heavy (c ∷ nodes) =
      let here : factor ^ 0 ≤ factor ^ (highest - rank c.id1) =
        pow-le-pow_right positive (omega arith) in
      (omega (arith, here, pow-zero factor), weight_heavy nodes)

  pub measure-le :
      (nodes : List NodeValuesRefId) → measure weight_of nodes ≤ length nodes * factor ^ highest
  unfolding weight_of measure
  measure-le [] = omega arith
  measure-le (c ∷ nodes) =
      let here : factor ^ (highest - rank c.id1) ≤ factor ^ highest =
        pow-le-pow_right positive (omega arith) in
      let deeper = measure-le nodes in
      omega (arith, counted-le (refers c nodes) (weight_of c.id1), here, deeper)
    where
      counted-le : (test : Bool) (n : ℕ) → counted test n ≤ n
      counted-le true n = omega arith
      counted-le false n = omega arith
