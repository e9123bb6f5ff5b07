-- ===== src/Crdt/SortedRefId/Measure.antt =====
-- storage/crdt/AlgoSortedRefId.ts: what each move makes smaller. Every node has a weight, which is
-- so much less than that of the node it refers to that it counts for less with all others.
use native.Mathlib.Decide.{dec_lt}
use native.Mathlib.Nat.{mul-le-mul_right, mul_comm}
use openodin.Prelude.{
  ℕ, zero, suc, ◌+◌, ◌*◌, ◌≤◌, ◌<◌, ◌≡◌, refl, Bool, true, false, ◌||◌, Option, none, some, List,
  [], ◌∷◌, get_elem?, drop, length, arith, Bool-cases, inl, inr, All,
}
use openodin.Prelude.Buffer.{Buffer, equals, equals→eq}
use openodin.Crdt.SortedRefId.{NodeValuesRefId, splice_out, splice_in}
use openodin.Crdt.SortedRefId.Moves.{occurs_if, refers, moved, occurs-splice_in, refers-moved}

-- The first node refers to the second.
abbrev points_if : Option Buffer → NodeValuesRefId → Bool
points_if none node = false
points_if (some id1) node = equals node.id1 id1

abbrev points : NodeValuesRefId → NodeValuesRefId → Bool
points c node = points_if c.ref_id node

pub drop-splice_out :
    (i j : ℕ) (nodes : List NodeValuesRefId)
    → i ≤ j
    → drop j (splice_out i nodes) ≡ drop (suc j) nodes
unfolding splice_out
drop-splice_out i zero [] h = refl
drop-splice_out i (suc j) [] h = refl
drop-splice_out zero j (x ∷ nodes) h = refl
drop-splice_out (suc i) zero (x ∷ nodes) h = absurd (omega arith)
drop-splice_out (suc i) (suc j) (x ∷ nodes) h = drop-splice_out i j nodes (omega arith)

refers-splice_in :
    (x : NodeValuesRefId) (j : ℕ) (node : NodeValuesRefId) (nodes : List NodeValuesRefId)
    → refers x (splice_in j node nodes) ≡ (points x node || refers x nodes)
refers-splice_in x j node nodes = by_ref x.ref_id
  where
    by_ref :
        (ref_id : Option Buffer)
        → occurs_if ref_id (splice_in j node nodes)
          ≡ (points_if ref_id node || occurs_if ref_id nodes)
    by_ref none = refl
    by_ref (some id1) = occurs-splice_in id1 j node nodes

-- `n` if the test holds, and nothing otherwise.
abbrev pub counted : Bool → ℕ → ℕ
counted true n = n
counted false n = 0

counted_or : (a b : Bool) (n : ℕ) → counted (a || b) n ≤ counted a n + counted b n
counted_or true b n = omega arith
counted_or false b n = omega arith

module _ (weight : Buffer → ℕ) where
  -- The weights of the nodes that stand before the node that they refer to.
  unfoldable pub measure : List NodeValuesRefId → ℕ
  measure [] = 0
  measure (node ∷ nodes) = counted (refers node nodes) (weight node.id1) + measure nodes

  -- The weights of the nodes that refer to the node.
  pointing : NodeValuesRefId → List NodeValuesRefId → ℕ
  pointing node [] = 0
  pointing node (x ∷ nodes) = counted (points x node) (weight x.id1) + pointing node nodes

  measure-splice_in :
      (j : ℕ) (node : NodeValuesRefId) (nodes : List NodeValuesRefId)
      → refers node (drop j nodes) ≡ false
      → measure (splice_in j node nodes) ≤ measure nodes + pointing node nodes
  unfolding measure pointing splice_in
  measure-splice_in zero node nodes h = rw h (omega arith)
  measure-splice_in (suc j) node [] h = rw h (omega arith)
  measure-splice_in (suc j) node (x ∷ nodes) h =
      let deeper = measure-splice_in j node nodes h in
      let here = counted_or (points x node) (refers x nodes) (weight x.id1) in
      rw (refers-splice_in x j node nodes) (omega (arith, deeper, here))

  -- A node that refers to a node of the list is lighter than it by a factor.
  abbrev pub AreLighter : ℕ → List NodeValuesRefId → Type 0
  AreLighter factor nodes =
      All (λ c. (id1 : Buffer) → c.ref_id ≡ some id1 → weight c.id1 * factor ≤ weight id1) nodes

  lighter_one :
      (factor : ℕ) (node c : NodeValuesRefId)
      → ((id1 : Buffer) → c.ref_id ≡ some id1 → weight c.id1 * factor ≤ weight id1)
      → counted (points c node) (weight c.id1) * factor ≤ weight node.id1
  lighter_one factor node c h = by_ref c.ref_id refl
    where
      by_ref :
          (ref_id : Option Buffer)
          → c.ref_id ≡ ref_id
          → counted (points_if ref_id node) (weight c.id1) * factor ≤ weight node.id1
      by_ref none e = omega arith
      by_ref (some id1) e = elim (Bool-cases (equals node.id1 id1)) [
        | inl same ↦ rw (same, equals→eq node.id1 id1 same) (h id1 e)
        | inr other ↦ rw other (omega arith)
      ]

  pointing-lighter :
      (factor : ℕ) (node : NodeValuesRefId) (nodes : List NodeValuesRefId)
      → AreLighter factor nodes
      → pointing node nodes * factor ≤ length nodes * weight node.id1
  unfolding pointing
  pointing-lighter factor node [] h = omega arith
  pointing-lighter factor node (x ∷ nodes) h =
      let deeper = pointing-lighter factor node nodes h.1 in
      let here = lighter_one factor node x h.0 in
      sum (counted (points x node) (weight x.id1)) (pointing node nodes) (length nodes)
        (weight node.id1) here deeper
    where
      sum : (a b n w : ℕ) → a * factor ≤ w → b * factor ≤ n * w → (a + b) * factor ≤ suc n * w
      sum a b n w h k = omega arith

  -- Fewer nodes than the factor, each lighter by it, weigh less than the one.
  pointing-lt :
      (node : NodeValuesRefId) (nodes : List NodeValuesRefId) (factor : ℕ)
      → AreLighter factor nodes
      → length nodes < factor
      → 0 < weight node.id1
      → pointing node nodes < weight node.id1
  pointing-lt node nodes factor h fewer heavy =
      lt (pointing node nodes) (weight node.id1) (length nodes)
        (pointing-lighter factor node nodes h) fewer heavy
    where
      lt : (p w n : ℕ) → p * factor ≤ n * w → n < factor → 0 < w → p < w
      lt p w n k l m = elim (dec_lt p w) [
        | yes q ↦ q
        | no q ↦
            let low : w * factor ≤ p * factor = mul-le-mul_right factor (omega arith) in
            let high : suc n * w ≤ factor * w = mul-le-mul_right w l in
            absurd (omega (arith, low, high, mul_comm w factor))
      ]

  -- The move of a node behind one that it refers to makes the measure smaller.
  pub measure-moved :
      (i j : ℕ) (node : NodeValuesRefId) (nodes : List NodeValuesRefId) (factor : ℕ)
      → get_elem? nodes i ≡ some node
      → i ≤ j
      → refers node (drop (suc i) nodes) ≡ true
      → refers node (drop (suc j) nodes) ≡ false
      → AreLighter factor nodes
      → length nodes ≤ factor
      → 0 < weight node.id1
      → measure (moved i j node nodes) < measure nodes
  unfolding measure splice_out splice_in
  measure-moved i j node [] factor at le behind clear h fewer heavy = absurd cc
  measure-moved zero j node (x ∷ nodes) factor at le behind clear h fewer heavy =
      let same : x ≡ node = cc in
      let grown = measure-splice_in j node nodes clear in
      let lost = pointing-lt node nodes factor h.1 fewer heavy in
      rw (same, behind) (omega (arith, grown, lost))
  measure-moved (suc i) zero node (x ∷ nodes) factor at le behind clear h fewer heavy =
      absurd (omega arith)
  measure-moved (suc i) (suc j) node (x ∷ nodes) factor at le behind clear h fewer heavy =
      let deeper =
        measure-moved i j node nodes factor at (omega arith) behind clear h.1 (omega arith) heavy in
      rw (refers-moved x i j node nodes at) (omega (arith, deeper))
