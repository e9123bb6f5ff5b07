-- ===== src/Crdt/Sorted/Splice.antt =====
-- storage/crdt/AlgoSorted.ts: the places of the nodes after one is spliced out.
use mathlib.Core.Option.{some_inj, none-ne-some}
use openodin.Prelude.{
  ℕ, zero, suc, ◌<◌, ◌≤◌, ◌≡◌, ◌≢◌, refl, sym, ◌∙◌, ap, subst, false, none, some, List, [], ◌∷◌,
  All, Bool-cases, inl, inr, arith,
}
use openodin.Prelude.Buffer.{Buffer, equals}
use openodin.Crdt.Sorted.{NodeValues}
use openodin.Crdt.Sorted.Update.{splice}
use openodin.Crdt.Sorted.Indexes.{AreDistinct}
use openodin.Crdt.Sorted.Places.{
  position, find, position-get, position_here, position_there, map-suc-some, IsAbsent-position,
  position-absent, find-absent,
}
use openodin.Crdt.Sorted.Kept.{All-splice, spliced-IsAbsent}

-- A node before the removed one stays where it is.
pub splice_before :
    (id1 : Buffer) (i : ℕ) (nodes : List NodeValues) (p : ℕ)
    → position id1 nodes ≡ some p
    → p < i
    → (position id1 (splice i nodes) ≡ some p) × (find id1 (splice i nodes) ≡ find id1 nodes)
unfolding position find splice
splice_before id1 i [] p h l = absurd (none-ne-some p h)
splice_before id1 zero (x ∷ nodes) p h l = absurd (omega arith)
splice_before id1 (suc i) (x ∷ nodes) p h l = elim (Bool-cases (equals x.id1 id1)) [
  | inl e ↦
      let zero_p : zero ≡ p = some_inj.0 (sym (position_here id1 x nodes e) ∙ h) in
      (rw (e, ← zero_p) refl, rw e refl)
  | inr e ↦
      let (q, (at, suc_q)) =
        map-suc-some (position id1 nodes) p (sym (position_there id1 x nodes e) ∙ h) in
      let (there, found) = splice_before id1 i nodes q at (omega arith) in
      (rw (e, there, suc_q) refl, rw (e, found) refl)
]

past_head :
    (id1 : Buffer) (x : NodeValues) (nodes : List NodeValues) (p : ℕ)
    → position id1 (x ∷ nodes) ≡ some (suc p)
    → (equals x.id1 id1 ≡ false) × (position id1 nodes ≡ some p)
past_head id1 x nodes p h = elim (Bool-cases (equals x.id1 id1)) [
  | inl e ↦
      let zero_p : zero ≡ suc p = some_inj.0 (sym (position_here id1 x nodes e) ∙ h) in
      absurd (omega arith)
  | inr e ↦
      let (q, (at, suc_q)) =
        map-suc-some (position id1 nodes) (suc p) (sym (position_there id1 x nodes e) ∙ h) in
      (e, at ∙ ap some (omega arith))
]

-- A node after it moves down by one.
pub splice_after :
    (id1 : Buffer) (i : ℕ) (nodes : List NodeValues) (p : ℕ)
    → position id1 nodes ≡ some (suc p)
    → i ≤ p
    → (position id1 (splice i nodes) ≡ some p) × (find id1 (splice i nodes) ≡ find id1 nodes)
unfolding position find splice
splice_after id1 i [] p h l = absurd (none-ne-some (suc p) h)
splice_after id1 zero (x ∷ nodes) p h l = let (e, at) = past_head id1 x nodes p h in (at, rw e refl)
splice_after id1 (suc i) (x ∷ nodes) zero h l = absurd (omega arith)
splice_after id1 (suc i) (x ∷ nodes) (suc p) h l =
    let (e, at) = past_head id1 x nodes (suc p) h in
    let (there, found) = splice_after id1 i nodes p at (omega arith) in
    (rw (e, there) refl, rw (e, found) refl)

-- The removed node.
pub splice_at :
    (id1 : Buffer) (nodes : List NodeValues) (p : ℕ)
    → AreDistinct nodes
    → position id1 nodes ≡ some p
    → (position id1 (splice p nodes) ≡ none) × (find id1 (splice p nodes) ≡ none)
splice_at id1 nodes p distinct h =
    let (node, (at, (_, same))) = position-get id1 nodes p h in
    let absent =
      subst (λ k. All (λ x. x.id1 ≢ k) (splice p nodes)) same
        (spliced-IsAbsent p nodes node at distinct) in
    (position-absent id1 (splice p nodes) absent, find-absent id1 (splice p nodes) absent)

-- Without the identity, the removal of a node changes nothing.
pub kept_away :
    (id1 : Buffer) (i : ℕ) (nodes : List NodeValues)
    → position id1 nodes ≡ none
    → (position id1 (splice i nodes) ≡ none) × (find id1 (splice i nodes) ≡ find id1 nodes)
kept_away id1 i nodes h =
    let absent = IsAbsent-position id1 nodes h in
    let still = All-splice (λ x. x.id1 ≢ id1) i nodes absent in
    (
      position-absent id1 (splice i nodes) still,
      find-absent id1 (splice i nodes) still ∙ sym (find-absent id1 nodes absent),
    )
