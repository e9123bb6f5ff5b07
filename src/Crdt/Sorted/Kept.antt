-- ===== src/Crdt/Sorted/Kept.antt =====
-- storage/crdt/AlgoSorted.ts: what appending, replacing, sorting, splicing and indexing do to the
-- places of the nodes.
use mathlib.Core.Option
use mathlib.Core.Option.{some_inj, some-ne-none, none-ne-some}
use openodin.Prelude.{
  ℕ, zero, suc, ◌+◌, ◌≡◌, ◌≢◌, refl, sym, ◌∙◌, ap, subst, Bool, true, false, Option, none, some,
  List, [], ◌∷◌, ◌++◌, All, All-append, Bool-cases, inl, inr, if◌then◌else◌, length, get_elem?,
  arith,
}
use openodin.Prelude.Buffer.{Buffer, equals, equals→eq, differ}
use openodin.Prelude.Dict.{Dict, lookup, put, lookup-put, in_either_order}
use openodin.Crdt.Sorted.{NodeValues, index_nodes}
use openodin.Prelude.Compare.{is_gt}
use openodin.Crdt.Sorted.Order.{insert, sort, All-insert, All-sort, compare_nodes}
use openodin.Crdt.Sorted.Indexes.{AreDistinct, index_nodes_absent}
use openodin.Crdt.Sorted.Update.{replace_at, splice}
use openodin.Crdt.Sorted.Places.{position, find, IsAbsent}

pub append-AreDistinct :
    (nodes : List NodeValues) (node : NodeValues)
    → AreDistinct nodes
    → IsAbsent node.id1 nodes
    → AreDistinct (nodes ++ node ∷ [])
append-AreDistinct [] node h k = (tt, tt)
append-AreDistinct (x ∷ nodes) node h k = (
  All-append _ nodes (node ∷ []) h.0 (λ e. k.0 (sym e), tt),
  append-AreDistinct nodes node h.1 k.1,
)

-- The first of two options that is set.
abbrev pub or_next {ℓ} : {A : Type ℓ} → Option A → Option A → Option A
or_next none next = next
or_next (some x) next = some x

pub position-append :
    (id1 : Buffer) (nodes : List NodeValues) (node : NodeValues)
    → position id1 (nodes ++ node ∷ [])
      ≡ or_next (position id1 nodes) (if equals node.id1 id1 then some (length nodes) else none)
unfolding position
position-append id1 [] node = elim (Bool-cases (equals node.id1 id1)) [
  | inl e ↦ rw e refl
  | inr e ↦ rw e refl
]
position-append id1 (x ∷ nodes) node = elim (Bool-cases (equals x.id1 id1)) [
  | inl e ↦ rw e refl
  | inr e ↦
      rw e (rw (position-append id1 nodes node) (lifted (position id1 nodes) (equals node.id1 id1)))
]
  where
    lifted :
        (o : Option ℕ) (test : Bool)
        → Option.map suc (or_next o (if test then some (length nodes) else none))
          ≡ or_next (Option.map suc o) (if test then some (suc (length nodes)) else none)
    lifted none true = refl
    lifted none false = refl
    lifted (some i) test = refl

pub find-append :
    (id1 : Buffer) (nodes : List NodeValues) (node : NodeValues)
    → find id1 (nodes ++ node ∷ [])
      ≡ or_next (find id1 nodes) (if equals node.id1 id1 then some node else none)
unfolding find
find-append id1 [] node = refl
find-append id1 (x ∷ nodes) node = elim (Bool-cases (equals x.id1 id1)) [
  | inl e ↦ rw e refl
  | inr e ↦ rw e (find-append id1 nodes node)
]

pub All-replace_at :
    (P : Buffer → Type 0) (i : ℕ) (nodes : List NodeValues) (old node : NodeValues)
    → get_elem? nodes i ≡ some old
    → node.id1 ≡ old.id1
    → All (λ x. P x.id1) nodes
    → All (λ x. P x.id1) (replace_at i node nodes)
unfolding replace_at
All-replace_at P i [] old node at same h = tt
All-replace_at P zero (x ∷ nodes) old node at same h =
    let x_old : x ≡ old = some_inj.0 at in (rw (same, ← x_old) h.0, h.1)
All-replace_at P (suc i) (x ∷ nodes) old node at same h =
    (h.0, All-replace_at P i nodes old node at same h.1)

pub replace_at-AreDistinct :
    (i : ℕ) (nodes : List NodeValues) (old node : NodeValues)
    → get_elem? nodes i ≡ some old
    → node.id1 ≡ old.id1
    → AreDistinct nodes
    → AreDistinct (replace_at i node nodes)
unfolding replace_at
replace_at-AreDistinct i [] old node at same h = tt
replace_at-AreDistinct zero (x ∷ nodes) old node at same h =
    let x_old : x ≡ old = some_inj.0 at in (rw (same, ← x_old) h.0, h.1)
replace_at-AreDistinct (suc i) (x ∷ nodes) old node at same h = (
  All-replace_at (λ id1. id1 ≢ x.id1) i nodes old node at same h.0,
  replace_at-AreDistinct i nodes old node at same h.1,
)

pub position-replace_at :
    (id1 : Buffer) (i : ℕ) (nodes : List NodeValues) (old node : NodeValues)
    → get_elem? nodes i ≡ some old
    → node.id1 ≡ old.id1
    → position id1 (replace_at i node nodes) ≡ position id1 nodes
unfolding replace_at position
position-replace_at id1 i [] old node at same = refl
position-replace_at id1 zero (x ∷ nodes) old node at same =
    let x_old : x ≡ old = some_inj.0 at in rw (same, ← x_old) refl
position-replace_at id1 (suc i) (x ∷ nodes) old node at same =
    rw (position-replace_at id1 i nodes old node at same) refl

-- Sorting.
insert-AreDistinct :
    (by_storage_time : Bool) (a : NodeValues) (nodes : List NodeValues)
    → IsAbsent a.id1 nodes
    → AreDistinct nodes
    → AreDistinct (insert by_storage_time a nodes)
unfolding insert
insert-AreDistinct by_storage_time a [] h k = (tt, tt)
insert-AreDistinct by_storage_time a (b ∷ nodes) h k =
    elim (Bool-cases (is_gt (compare_nodes by_storage_time a b))) [
      | inl gt ↦ rw gt (
        All-insert (λ x. x.id1 ≢ b.id1) by_storage_time a nodes (λ e. h.0 (sym e)) k.0,
        insert-AreDistinct by_storage_time a nodes h.1 k.1,
      )
      | inr le ↦ rw le (h, k)
    ]

pub sort-AreDistinct :
    (by_storage_time : Bool) (nodes : List NodeValues)
    → AreDistinct nodes
    → AreDistinct (sort by_storage_time nodes)
unfolding sort
sort-AreDistinct by_storage_time [] h = tt
sort-AreDistinct by_storage_time (a ∷ nodes) h =
    insert-AreDistinct by_storage_time a (sort by_storage_time nodes)
      (All-sort (λ x. x.id1 ≢ a.id1) by_storage_time nodes h.0)
      (sort-AreDistinct by_storage_time nodes h.1)

find-insert :
    (id1 : Buffer) (by_storage_time : Bool) (a : NodeValues) (nodes : List NodeValues)
    → IsAbsent a.id1 nodes
    → find id1 (insert by_storage_time a nodes) ≡ find id1 (a ∷ nodes)
unfolding find insert
find-insert id1 by_storage_time a [] h = refl
find-insert id1 by_storage_time a (b ∷ nodes) h =
    elim (Bool-cases (is_gt (compare_nodes by_storage_time a b))) [
      | inl gt ↦ rw gt (
          rw (find-insert id1 by_storage_time a nodes h.1) (
            in_either_order b.id1 a.id1 id1 (some a) (some b) (find id1 nodes)
              (differ b.id1 a.id1 h.0)))
      | inr le ↦ rw le refl
    ]

pub find-sort :
    (id1 : Buffer) (by_storage_time : Bool) (nodes : List NodeValues)
    → AreDistinct nodes
    → find id1 (sort by_storage_time nodes) ≡ find id1 nodes
unfolding sort find
find-sort id1 by_storage_time [] h = refl
find-sort id1 by_storage_time (a ∷ nodes) h =
    find-insert id1 by_storage_time a (sort by_storage_time nodes)
      (All-sort (λ x. x.id1 ≢ a.id1) by_storage_time nodes h.0)
    ∙ rw (find-sort id1 by_storage_time nodes h.1) refl

-- Removing the node at an index.
pub All-splice :
    (P : NodeValues → Type 0) (i : ℕ) (nodes : List NodeValues)
    → All P nodes
    → All P (splice i nodes)
unfolding splice
All-splice P i [] h = tt
All-splice P zero (x ∷ nodes) h = h.1
All-splice P (suc i) (x ∷ nodes) h = (h.0, All-splice P i nodes h.1)

pub splice-AreDistinct :
    (i : ℕ) (nodes : List NodeValues) → AreDistinct nodes → AreDistinct (splice i nodes)
unfolding splice
splice-AreDistinct i [] h = tt
splice-AreDistinct zero (x ∷ nodes) h = h.1
splice-AreDistinct (suc i) (x ∷ nodes) h =
    (All-splice (λ y. y.id1 ≢ x.id1) i nodes h.0, splice-AreDistinct i nodes h.1)

pub splice-none :
    (i : ℕ) (nodes : List NodeValues) → get_elem? nodes i ≡ none → splice i nodes ≡ nodes
unfolding splice
splice-none i [] h = refl
splice-none zero (x ∷ nodes) h = absurd (some-ne-none x h)
splice-none (suc i) (x ∷ nodes) h = ap (λ rest. x ∷ rest) (splice-none i nodes h)

-- What holds of the rest and of the removed node holds of all.
pub All-spliced :
    (P : NodeValues → Type 0) (i : ℕ) (nodes : List NodeValues) (node : NodeValues)
    → get_elem? nodes i ≡ some node
    → P node
    → All P (splice i nodes)
    → All P nodes
unfolding splice
All-spliced P i [] node at this h = tt
All-spliced P zero (x ∷ nodes) node at this h = (subst P (sym (some_inj.0 at)) this, h)
All-spliced P (suc i) (x ∷ nodes) node at this h = (h.0, All-spliced P i nodes node at this h.1)

-- The removed node is no longer there.
pub spliced-IsAbsent :
    (i : ℕ) (nodes : List NodeValues) (node : NodeValues)
    → get_elem? nodes i ≡ some node
    → AreDistinct nodes
    → IsAbsent node.id1 (splice i nodes)
unfolding splice
spliced-IsAbsent i [] node at h = tt
spliced-IsAbsent zero (x ∷ nodes) node at h = subst (λ n. IsAbsent n.id1 nodes) (some_inj.0 at) h.0
spliced-IsAbsent (suc i) (x ∷ nodes) node at h =
    (λ e. at-All i nodes node at h.0 (sym e), spliced-IsAbsent i nodes node at h.1)
  where
    at-All :
        (i : ℕ) (nodes : List NodeValues) (node : NodeValues)
        → get_elem? nodes i ≡ some node
        → IsAbsent x.id1 nodes
        → node.id1 ≢ x.id1
    at-All i [] node at h = absurd (none-ne-some node at)
    at-All zero (y ∷ nodes) node at h = subst (λ n. n.id1 ≢ x.id1) (some_inj.0 at) h.0
    at-All (suc i) (y ∷ nodes) node at h = at-All i nodes node at h.1

-- Indexing: each node gets its place, other keys keep their value.
pub lookup-index_nodes :
    (id1 : Buffer) (i : ℕ) (nodes : List NodeValues) (indexes : Dict ℕ)
    → AreDistinct nodes
    → lookup id1 (index_nodes i nodes indexes)
      ≡ or_next (Option.map (λ n. n + i) (position id1 nodes)) (lookup id1 indexes)
unfolding index_nodes position
lookup-index_nodes id1 i [] indexes h = refl
lookup-index_nodes id1 i (node ∷ nodes) indexes h = elim (Bool-cases (equals node.id1 id1)) [
  | inl e ↦
      index_nodes_absent (suc i) nodes (put node.id1 i indexes) id1
        (subst (λ k. IsAbsent k nodes) (equals→eq node.id1 id1 e) h.0)
      ∙ lookup-put node.id1 id1 i indexes
      ∙ rw e (ap some (omega arith))
  | inr e ↦
      lookup-index_nodes id1 (suc i) nodes (put node.id1 i indexes) h.1
      ∙ rw (lookup-put node.id1 id1 i indexes, e) (shifted (position id1 nodes))
]
  where
    shifted :
        (o : Option ℕ)
        → or_next (Option.map (λ n. n + suc i) o) (lookup id1 indexes)
          ≡ or_next (Option.map (λ n. n + i) (Option.map suc o)) (lookup id1 indexes)
    shifted none = refl
    shifted (some n) = ap some (omega arith)
