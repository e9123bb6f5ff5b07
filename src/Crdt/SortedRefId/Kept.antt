-- ===== src/Crdt/SortedRefId/Kept.antt =====
-- storage/crdt/AlgoSortedRefId.ts: what holds of all nodes, and that no two have one identity, is
-- kept when a node is moved or sorted in.
use openodin.Prelude.{
  ℕ, zero, suc, ◌≡◌, refl, ◌∙◌, ap, subst, Bool, false, some, List, [], ◌∷◌, get_elem?, length,
  Bool-cases, inl, inr, All,
}
use openodin.Prelude.Buffer.{equals, equals_swap}
use openodin.Crdt.SortedRefId.{NodeValuesRefId, is_greater, insert_by_time, splice_out, splice_in}
use openodin.Crdt.SortedRefId.Moves.{
  neither, occurs, AreDistinct, moved, occurs-splice_in, occurs-splice_out,
}

pub All-splice_in :
    (P : NodeValuesRefId → Type 0) (j : ℕ) (node : NodeValuesRefId) (nodes : List NodeValuesRefId)
    → P node
    → All P nodes
    → All P (splice_in j node nodes)
unfolding splice_in
All-splice_in P zero node nodes this rest = (this, rest)
All-splice_in P (suc j) node [] this rest = (this, tt)
All-splice_in P (suc j) node (x ∷ nodes) this rest =
    (rest.0, All-splice_in P j node nodes this rest.1)

All-splice_out :
    (P : NodeValuesRefId → Type 0) (i : ℕ) (node : NodeValuesRefId) (nodes : List NodeValuesRefId)
    → get_elem? nodes i ≡ some node
    → All P nodes
    → P node × All P (splice_out i nodes)
unfolding splice_out
All-splice_out P i node [] h all = absurd cc
All-splice_out P zero node (x ∷ nodes) h all =
    let same : x ≡ node = cc in (subst P same all.0, all.1)
All-splice_out P (suc i) node (x ∷ nodes) h all =
    let (this, rest) = All-splice_out P i node nodes h all.1 in (this, (all.0, rest))

pub All-moved :
    (P : NodeValuesRefId → Type 0) (i j : ℕ) (node : NodeValuesRefId) (nodes : List NodeValuesRefId)
    → get_elem? nodes i ≡ some node
    → All P nodes
    → All P (moved i j node nodes)
All-moved P i j node nodes h all =
    let (this, rest) = All-splice_out P i node nodes h all in
    All-splice_in P j node (splice_out i nodes) this rest

pub AreDistinct-splice_in :
    (j : ℕ) (node : NodeValuesRefId) (nodes : List NodeValuesRefId)
    → occurs node.id1 nodes ≡ false
    → AreDistinct nodes
    → AreDistinct (splice_in j node nodes)
unfolding splice_in
AreDistinct-splice_in zero node nodes absent h = (absent, h)
AreDistinct-splice_in (suc j) node [] absent h = (refl, tt)
AreDistinct-splice_in (suc j) node (x ∷ nodes) absent h =
    let (other, rest) = neither (equals x.id1 node.id1) (occurs node.id1 nodes) absent in
    (
      occurs-splice_in x.id1 j node nodes ∙ rw (equals_swap x.id1 node.id1 other, h.0) refl,
      AreDistinct-splice_in j node nodes rest h.1,
    )

AreDistinct-splice_out :
    (i : ℕ) (node : NodeValuesRefId) (nodes : List NodeValuesRefId)
    → get_elem? nodes i ≡ some node
    → AreDistinct nodes
    → (occurs node.id1 (splice_out i nodes) ≡ false) × AreDistinct (splice_out i nodes)
unfolding splice_out
AreDistinct-splice_out i node [] h d = absurd cc
AreDistinct-splice_out zero node (x ∷ nodes) h d =
    let same : x ≡ node = cc in (rw (← same) d.0, d.1)
AreDistinct-splice_out (suc i) node (x ∷ nodes) h d =
    let (absent, rest) = AreDistinct-splice_out i node nodes h d.1 in
    let (other, left) =
      neither (equals node.id1 x.id1) (occurs x.id1 (splice_out i nodes))
        (occurs-splice_out x.id1 i node nodes h ∙ d.0) in
    (rw (equals_swap node.id1 x.id1 other, absent) refl, (left, rest))

pub AreDistinct-moved :
    (i j : ℕ) (node : NodeValuesRefId) (nodes : List NodeValuesRefId)
    → get_elem? nodes i ≡ some node
    → AreDistinct nodes
    → AreDistinct (moved i j node nodes)
AreDistinct-moved i j node nodes h d =
    let (absent, rest) = AreDistinct-splice_out i node nodes h d in
    AreDistinct-splice_in j node (splice_out i nodes) absent rest

pub length-splice_in :
    (j : ℕ) (node : NodeValuesRefId) (nodes : List NodeValuesRefId)
    → length (splice_in j node nodes) ≡ suc (length nodes)
unfolding splice_in
length-splice_in zero node nodes = refl
length-splice_in (suc j) node [] = refl
length-splice_in (suc j) node (x ∷ nodes) = ap suc (length-splice_in j node nodes)

length-splice_out :
    (i : ℕ) (node : NodeValuesRefId) (nodes : List NodeValuesRefId)
    → get_elem? nodes i ≡ some node
    → suc (length (splice_out i nodes)) ≡ length nodes
unfolding splice_out
length-splice_out i node [] h = absurd cc
length-splice_out zero node (x ∷ nodes) h = refl
length-splice_out (suc i) node (x ∷ nodes) h = ap suc (length-splice_out i node nodes h)

pub length-moved :
    (i j : ℕ) (node : NodeValuesRefId) (nodes : List NodeValuesRefId)
    → get_elem? nodes i ≡ some node
    → length (moved i j node nodes) ≡ length nodes
length-moved i j node nodes h =
    length-splice_in j node (splice_out i nodes) ∙ length-splice_out i node nodes h

-- Sorting puts each node in at some index.
pub insert_by_time-splice_in :
    (by_storage_time : Bool) (a : NodeValuesRefId) (nodes : List NodeValuesRefId)
    → (j : ℕ) × (insert_by_time by_storage_time a nodes ≡ splice_in j a nodes)
unfolding insert_by_time splice_in
insert_by_time-splice_in by_storage_time a [] = (0, refl)
insert_by_time-splice_in by_storage_time a (b ∷ nodes) =
    let (j, at) = insert_by_time-splice_in by_storage_time a nodes in
    elim (Bool-cases (is_greater by_storage_time a b)) [
      | inl gt ↦ (suc j, rw gt (ap (λ t. b ∷ t) at))
      | inr le ↦ (0, rw le refl)
    ]
