-- ===== src/Crdt/Sorted/Removal.antt =====
-- storage/crdt/AlgoSorted.ts: which nodes `delete` removes.
use mathlib.Core.List.{reverse}
use openodin.Prelude.{
  ℕ, zero, suc, ◌<◌, ◌≤◌, ◌≡◌, ◌≢◌, refl, sym, ◌∙◌, ap, subst, Bool, false, Option, none, some,
  List, [], ◌∷◌, All, Bool-cases, Option-cases, inl, inr, if◌then◌else◌, get_elem?, arith, ◌==◌,
  ==-refl, ltb, ◌⊎◌,
}
use openodin.Prelude.Buffer.{Buffer}
use openodin.Crdt.Sorted.{NodeValues, AlgoSorted, get_node, update_indexes}
use openodin.Crdt.Sorted.Update.{delete, splice, forget, delete_index, pop_all, sort_indexes}
use openodin.Crdt.Sorted.Indexes.{AreDistinct}
use openodin.Crdt.Sorted.Places.{position, find}
use openodin.Crdt.Sorted.Kept.{splice-AreDistinct}
use openodin.Crdt.Sorted.Valid.{IsConsistent}
use openodin.Prelude.Dict.{lookup}
use openodin.Crdt.Sorted.Splice.{splice_before, splice_after, splice_at, kept_away}
use openodin.Crdt.Sorted.Reachable.{delete-IsConsistent}
use openodin.Crdt.Sorted.View.{get_node-find}
use openodin.Crdt.Sorted.Popped.{
  HasNoRepeat, has_index, IsBelow, IsDescending, popped-IsDescending, has_index-popped,
}

-- The index is one of those.
unfoldable pub is_among : Option ℕ → List (Option ℕ) → Bool
is_among none indexes = false
is_among (some p) indexes = has_index p indexes

not_below :
    (i p : ℕ) (indexes : List (Option ℕ))
    → i ≤ p
    → All (λ j. IsBelow j (some i)) indexes
    → has_index p indexes ≡ false
not_below i p [] l h = refl
not_below i p (none ∷ indexes) l h = absurd h.0
not_below i p (some j ∷ indexes) l h =
    rw (==-false j p (λ e. absurd (omega arith)), not_below i p indexes l h.1) refl
  where
    ==-false : (a b : ℕ) → a ≢ b → (a == b) ≡ false
    ==-false a b d = ground arith

lt_eq_gt : (p i : ℕ) → (p < i) ⊎ ((p ≡ i) ⊎ ((q : ℕ) × ((p ≡ suc q) × (i ≤ q))))
lt_eq_gt zero zero = inr (inl refl)
lt_eq_gt zero (suc i) = inl (omega arith)
lt_eq_gt (suc p) i = elim (Bool-cases (ltb (suc p) i)) [
  | inl e ↦ inl (ground arith)
  | inr e ↦ elim (Bool-cases (suc p == i)) [
    | inl k ↦ inr (inl (ground arith))
    | inr k ↦ inr (inr (p, (refl, ground arith)))
  ]
]

-- One removal, then those of the indexes below.
splice-find :
    (id1 : Buffer) (i : ℕ) (indexes : List (Option ℕ)) (nodes : List NodeValues)
    → AreDistinct nodes
    → All (λ j. IsBelow j (some i)) indexes
    → (if is_among (position id1 (splice i nodes)) indexes then none else find id1 (splice i nodes))
      ≡ (if is_among (position id1 nodes) (some i ∷ indexes) then none else find id1 nodes)
unfolding is_among
splice-find id1 i indexes nodes distinct below = at (position id1 nodes) refl
  where
    no : (a b : ℕ) → a ≢ b → (a == b) ≡ false
    no a b d = ground arith

    at :
        (o : Option ℕ)
        → position id1 nodes ≡ o
        → (if is_among (position id1 (splice i nodes)) indexes
            then none
            else find id1 (splice i nodes))
          ≡ (if is_among o (some i ∷ indexes) then none else find id1 nodes)
    at none e = let (there, found) = kept_away id1 i nodes e in rw (there, found) refl
    at (some p) e = elim (lt_eq_gt p i) [
      | inl l ↦
          let (there, found) = splice_before id1 i nodes p e l in
          rw (there, found, no i p (λ k. absurd (omega arith))) refl
      | inr (inl same) ↦
          let (there, found) = splice_at id1 nodes p distinct e in
          rw (← same, there, found, ==-refl p) refl
      | inr (inr (q, (suc_q, l))) ↦
          let (there, found) = splice_after id1 i nodes q (e ∙ ap some suc_q) l in
          rw
            (
              there,
              found,
              no i p (λ k. absurd (omega arith)),
              not_below i q indexes l below,
              not_below i p indexes (omega arith) below,
            )
            refl
    ]

popped_none :
    (s : AlgoSorted) (indexes : List (Option ℕ)) → pop_all s (none ∷ indexes) ≡ pop_all s indexes
unfolding pop_all delete_index
popped_none s indexes = refl

spliced : (s : AlgoSorted) (i : ℕ) → (delete_index s (some i)).nodes ≡ splice i s.nodes
unfolding delete_index forget
spliced s i = elim (Option-cases (get_elem? s.nodes i)) [
  | inl e ↦ rw e refl
  | inr (node, e) ↦ rw e refl
]

pop_all-find :
    (id1 : Buffer) (indexes : List (Option ℕ)) (s : AlgoSorted)
    → AreDistinct s.nodes
    → IsDescending indexes
    → find id1 (pop_all s indexes).nodes
      ≡ (if is_among (position id1 s.nodes) indexes then none else find id1 s.nodes)
unfolding pop_all is_among
pop_all-find id1 [] s distinct h = none_among (position id1 s.nodes)
  where
    none_among :
        (o : Option ℕ) → find id1 s.nodes ≡ (if is_among o [] then none else find id1 s.nodes)
    none_among none = refl
    none_among (some p) = refl
pop_all-find id1 (none ∷ indexes) s distinct h =
    rw (popped_none s indexes) refl
    ∙ pop_all-find id1 indexes s distinct h.1
    ∙ skipped (position id1 s.nodes)
  where
    skipped :
        (o : Option ℕ)
        → (if is_among o indexes then none else find id1 s.nodes)
          ≡ (if is_among o (none ∷ indexes) then none else find id1 s.nodes)
    skipped none = refl
    skipped (some p) = refl
pop_all-find id1 (some i ∷ indexes) s distinct h =
    pop_all-find id1 indexes (delete_index s (some i))
      (subst AreDistinct (sym (spliced s i)) (splice-AreDistinct i s.nodes distinct)) h.1
    ∙ rw (spliced s i) (splice-find id1 i indexes s.nodes distinct h.0)

-- `delete` removes exactly the nodes at the given indexes, when no index is given twice: an identity
-- whose node stands at one of them is no longer in the model, and any other keeps its node.
pub get_node-delete :
    (s : AlgoSorted) (indexes : List (Option ℕ)) (id1 : Buffer)
    → IsConsistent s
    → HasNoRepeat indexes
    → get_node (delete s indexes) id1
      ≡ (if is_among (lookup id1 s.node_index_by_id1) indexes then none else get_node s id1)
unfolding delete update_indexes is_among
get_node-delete s indexes id1 h distinct =
    get_node-find (delete s indexes) id1 (delete-IsConsistent s indexes h)
    ∙ pop_all-find id1 (reverse (sort_indexes indexes)) s h.0 (popped-IsDescending indexes distinct)
    ∙ rw (h.1 id1, get_node-find s id1 h) (same (position id1 s.nodes))
  where
    same :
        (o : Option ℕ)
        → (if is_among o (reverse (sort_indexes indexes)) then none else find id1 s.nodes)
          ≡ (if is_among o indexes then none else find id1 s.nodes)
    same none = refl
    same (some p) = rw (has_index-popped p indexes) refl
