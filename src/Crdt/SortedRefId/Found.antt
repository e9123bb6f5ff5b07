-- ===== src/Crdt/SortedRefId/Found.antt =====
-- storage/crdt/AlgoSortedRefId.ts: what the search for a node to move finds, and where the node goes.
use native.Mathlib.Decide.{dec_lt}
use openodin.Prelude.{
  ℕ, zero, suc, ◌≤◌, ◌<◌, ◌≡◌, refl, sym, ◌∙◌, ap, Bool, true, false, Option, none, some, List, [],
  ◌∷◌, get_elem?, drop, arith, Bool-cases, inl, inr, leb, ltb,
}
use openodin.Prelude.Buffer.{Buffer}
use openodin.Prelude.Dict.{Dict, lookup}
use openodin.Crdt.SortedRefId.{
  NodeValuesRefId, Late, is_greater, if_behind, referenced_behind, node_referenced, late_or,
  find_late, index_to_insert,
}
use openodin.Crdt.SortedRefId.Moves.{occurs, occurs_if, refers, AreDistinct}
use openodin.Crdt.SortedRefId.Places.{place_of, from, occurs-drop}

-- The dictionary gives the places of the nodes.
abbrev pub Places : Dict ℕ → List NodeValuesRefId → Type 0
Places indexes nodes = (id1 : Buffer) → lookup id1 indexes ≡ place_of id1 nodes

-- No node stands before the one that it refers to.
abbrev pub IsSettled : List NodeValuesRefId → Type 0
IsSettled nodes =
    (i : ℕ) (node : NodeValuesRefId)
    → get_elem? nodes i ≡ some node
    → refers node (drop (suc i) nodes) ≡ false

-- The node at the index stands before the one that it refers to, which is at `referenced`.
pub record IsLate (nodes : List NodeValuesRefId) (late : Late) : Type 0 where
  pub at : get_elem? nodes late.index ≡ some late.node
  pub before : late.index < late.referenced
  pub behind : refers late.node (drop (suc late.index) nodes) ≡ true
  pub clear : (j : ℕ) → late.referenced ≤ j → refers late.node (drop (suc j) nodes) ≡ false

module _ (nodes : List NodeValuesRefId) (indexes : Dict ℕ) (d : AreDistinct nodes)
    (places : Places indexes nodes) where
  placed : (id1 : Buffer) (n : ℕ) → occurs id1 (drop n nodes) ≡ from n (lookup id1 indexes)
  placed id1 n = occurs-drop id1 n nodes d ∙ ap (from n) (sym (places id1))

  if_behind-some : (i : ℕ) (o : Option ℕ) (q : ℕ) → if_behind i o ≡ some q → (i < q) × (o ≡ some q)
  unfolding if_behind
  if_behind-some i none q h = absurd cc
  if_behind-some i (some r) q h = elim (Bool-cases (ltb i r)) [
    | inl e ↦ (ground arith, ground arith)
    | inr e ↦ absurd (ground arith)
  ]

  if_behind-none : (i : ℕ) (o : Option ℕ) → if_behind i o ≡ none → from (suc i) o ≡ false
  unfolding if_behind
  if_behind-none i none h = refl
  if_behind-none i (some r) h = elim (Bool-cases (ltb i r)) [
    | inl e ↦ absurd (ground arith)
    | inr e ↦ ground arith
  ]

  behind-some :
      (i : ℕ) (ref_id : Option Buffer) (q : ℕ)
      → referenced_behind indexes i ref_id ≡ some q
      → (i < q) × ((n : ℕ) → occurs_if ref_id (drop n nodes) ≡ leb n q)
  unfolding referenced_behind
  behind-some i none q h = absurd cc
  behind-some i (some id1) q h =
      let (less, at) = if_behind-some i (lookup id1 indexes) q h in
      (less, λ n. placed id1 n ∙ ap (from n) at)

  behind-none :
      (i : ℕ) (ref_id : Option Buffer)
      → referenced_behind indexes i ref_id ≡ none
      → occurs_if ref_id (drop (suc i) nodes) ≡ false
  unfolding referenced_behind
  behind-none i none h = refl
  behind-none i (some id1) h = placed id1 (suc i) ∙ if_behind-none i (lookup id1 indexes) h

  behind-IsLate :
      (i q : ℕ) (node : NodeValuesRefId)
      → get_elem? nodes i ≡ some node
      → referenced_behind indexes i node.ref_id ≡ some q
      → IsLate nodes (record { node = node; index = i; referenced = q })
  behind-IsLate i q node at h =
      let (less, behind) = behind-some i node.ref_id q h in
      record {
        at = at;
        before = less;
        behind = behind (suc i) ∙ ground arith;
        clear = λ j le. behind (suc j) ∙ ground arith;
      }

  -- A node that the search finds stands too early, and if it finds none, none does.
  abbrev pub Finds : ℕ → Option Late → Type 0
  Finds n none =
      (i : ℕ) (node : NodeValuesRefId)
      → i < n
      → get_elem? nodes i ≡ some node
      → refers node (drop (suc i) nodes) ≡ false
  Finds n (some late) = IsLate nodes late

  found_or :
      (n : ℕ) (o : Option NodeValuesRefId) (r : Option ℕ) (rest : Option Late)
      → get_elem? nodes n ≡ o
      → node_referenced indexes n o ≡ r
      → Finds n rest
      → Finds (suc n) (late_or o n r rest)
  unfolding late_or node_referenced
  found_or n (some node) (some q) rest at h before = behind-IsLate n q node at h
  found_or n (some node) none (some late) at h before = before
  found_or n none r (some late) at h before = before
  found_or n (some node) none none at h before = λ i other less other_at. elim (dec_lt i n) [
    | yes p ↦ before i other p other_at
    | no p ↦
        let here : i ≡ n = omega arith in
        let same : node ≡ other = cc in rw here (rw (← same) (behind-none n node.ref_id h))
  ]
  found_or n none r none at h before = λ i other less other_at. elim (dec_lt i n) [
    | yes p ↦ before i other p other_at
    | no p ↦ let here : i ≡ n = omega arith in absurd cc
  ]

  pub find_late-Finds : (n : ℕ) → Finds n (find_late indexes nodes n)
  unfolding find_late
  find_late-Finds zero = λ i node less at. absurd (omega arith)
  find_late-Finds (suc n) =
      found_or n (get_elem? nodes n) (node_referenced indexes n (get_elem? nodes n))
        (find_late indexes nodes n) refl refl (find_late-Finds n)

pub index_to_insert-ge :
    (by_storage_time : Bool) (node : NodeValuesRefId) (i : ℕ) (nodes : List NodeValuesRefId)
    → i ≤ index_to_insert by_storage_time node i nodes
unfolding index_to_insert
index_to_insert-ge by_storage_time node i [] = omega arith
index_to_insert-ge by_storage_time node i (other ∷ nodes) =
    elim (Bool-cases (is_greater by_storage_time other node)) [
      | inl e ↦ rw e (omega arith)
      | inr e ↦ rw e (omega (arith, index_to_insert-ge by_storage_time node (suc i) nodes))
    ]
