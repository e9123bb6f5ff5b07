-- ===== src/Crdt/Sorted/Order.antt =====
-- storage/crdt/AlgoSorted.ts: the order in which `add` sorts the nodes.
use openodin.Prelude.{
  ℕ, compare, Ordering, ◌≡◌, refl, Bool, true, false, Bool-cases, inl, inr, List, [], ◌∷◌, All,
  All-map, if◌then◌else◌,
}
use openodin.Prelude.Compare.{or_else, compare_bytes, is_gt, gt-swap, not_gt_trans, not_gt_antisym}
use openodin.Crdt.Sorted.{NodeValues}

unfoldable pub compare_times : Bool → NodeValues → NodeValues → Ordering
compare_times true a b =
    or_else (compare a.transient_storage_time b.transient_storage_time)
      (compare a.creation_time b.creation_time)
compare_times false a b = compare a.creation_time b.creation_time

unfoldable pub compare_nodes : Bool → NodeValues → NodeValues → Ordering
unfolding compare_times
compare_nodes by_storage_time a b =
    or_else (compare_times by_storage_time a b) (compare_bytes a.id1 b.id1)

-- `nodes.sort(compare)`, which keeps the order of equal elements.
unfoldable pub insert : Bool → NodeValues → List NodeValues → List NodeValues
insert by_storage_time a [] = a ∷ []
insert by_storage_time a (b ∷ nodes) =
    let rest = insert by_storage_time a nodes in
    if is_gt (compare_nodes by_storage_time a b) then b ∷ rest else a ∷ b ∷ nodes

unfoldable pub sort : Bool → List NodeValues → List NodeValues
sort by_storage_time [] = []
sort by_storage_time (a ∷ nodes) = insert by_storage_time a (sort by_storage_time nodes)

-- The numbers that two nodes are compared by.
key : Bool → NodeValues → List ℕ
key true a = a.transient_storage_time ∷ a.creation_time ∷ a.id1
key false a = a.creation_time ∷ a.id1

compare_nodes-key :
    (by_storage_time : Bool) (a b : NodeValues)
    → compare_nodes by_storage_time a b
      ≡ compare_bytes (key by_storage_time a) (key by_storage_time b)
unfolding key compare_nodes compare_bytes compare_times
compare_nodes-key true a b =
    or_else-assoc (compare a.transient_storage_time b.transient_storage_time)
      (compare a.creation_time b.creation_time) (compare_bytes a.id1 b.id1)
  where
    or_else-assoc : (p q r : Ordering) → or_else (or_else p q) r ≡ or_else p (or_else q r)
    or_else-assoc Ordering.lt q r = refl
    or_else-assoc Ordering.eq q r = refl
    or_else-assoc Ordering.gt q r = refl
compare_nodes-key false a b = refl

-- The first node may stand before the second.
abbrev pub Precedes : Bool → NodeValues → NodeValues → Type 0
Precedes by_storage_time a b = is_gt (compare_nodes by_storage_time a b) ≡ false

pub Precedes-swap :
    (by_storage_time : Bool) (a b : NodeValues)
    → is_gt (compare_nodes by_storage_time a b) ≡ true
    → Precedes by_storage_time b a
Precedes-swap by_storage_time a b =
    rw (compare_nodes-key by_storage_time a b, compare_nodes-key by_storage_time b a)
      (gt-swap (key by_storage_time a) (key by_storage_time b))

pub Precedes-trans :
    (by_storage_time : Bool) (a b c : NodeValues)
    → Precedes by_storage_time a b
    → Precedes by_storage_time b c
    → Precedes by_storage_time a c
Precedes-trans by_storage_time a b c =
    rw
      (
        compare_nodes-key by_storage_time a b,
        compare_nodes-key by_storage_time b c,
        compare_nodes-key by_storage_time a c,
      )
      (not_gt_trans (key by_storage_time a) (key by_storage_time b) (key by_storage_time c))

-- Each node may stand before all that follow it.
abbrev pub IsSorted : Bool → List NodeValues → Type 0
IsSorted by_storage_time [] = Unit
IsSorted by_storage_time (a ∷ nodes) =
    All (Precedes by_storage_time a) nodes × IsSorted by_storage_time nodes

pub All-insert :
    (P : NodeValues → Type 0) (by_storage_time : Bool) (a : NodeValues) (nodes : List NodeValues)
    → P a
    → All P nodes
    → All P (insert by_storage_time a nodes)
unfolding insert
All-insert P by_storage_time a [] this rest = (this, tt)
All-insert P by_storage_time a (b ∷ nodes) this rest =
    elim (Bool-cases (is_gt (compare_nodes by_storage_time a b))) [
      | inl gt ↦ rw gt (rest.0, All-insert P by_storage_time a nodes this rest.1)
      | inr le ↦ rw le (this, rest)
    ]

pub All-sort :
    (P : NodeValues → Type 0) (by_storage_time : Bool) (nodes : List NodeValues)
    → All P nodes
    → All P (sort by_storage_time nodes)
unfolding sort
All-sort P by_storage_time [] h = tt
All-sort P by_storage_time (a ∷ nodes) h =
    All-insert P by_storage_time a (sort by_storage_time nodes) h.0
      (All-sort P by_storage_time nodes h.1)

insert-All :
    (P : NodeValues → Type 0) (by_storage_time : Bool) (a : NodeValues) (nodes : List NodeValues)
    → All P (insert by_storage_time a nodes)
    → All P (a ∷ nodes)
unfolding insert
insert-All P by_storage_time a [] h = h
insert-All P by_storage_time a (b ∷ nodes) h =
    split (is_gt (compare_nodes by_storage_time a b)) (insert-All P by_storage_time a nodes) h
  where
    split :
        (test : Bool)
        → (All P (insert by_storage_time a nodes) → All P (a ∷ nodes))
        → All P (if test then b ∷ insert by_storage_time a nodes else a ∷ b ∷ nodes)
        → All P (a ∷ b ∷ nodes)
    split true deeper h = let (this, rest) = deeper h.1 in (this, (h.0, rest))
    split false deeper h = h

pub sort-All :
    (P : NodeValues → Type 0) (by_storage_time : Bool) (nodes : List NodeValues)
    → All P (sort by_storage_time nodes)
    → All P nodes
unfolding sort
sort-All P by_storage_time [] h = tt
sort-All P by_storage_time (a ∷ nodes) h =
    let (this, rest) = insert-All P by_storage_time a (sort by_storage_time nodes) h in
    (this, sort-All P by_storage_time nodes rest)

insert-IsSorted :
    (by_storage_time : Bool) (a : NodeValues) (nodes : List NodeValues)
    → IsSorted by_storage_time nodes
    → IsSorted by_storage_time (insert by_storage_time a nodes)
unfolding insert
insert-IsSorted by_storage_time a [] h = (tt, tt)
insert-IsSorted by_storage_time a (b ∷ nodes) h =
    elim (Bool-cases (is_gt (compare_nodes by_storage_time a b))) [
      | inl gt ↦ rw gt (
        All-insert (Precedes by_storage_time b) by_storage_time a nodes
            (Precedes-swap by_storage_time a b gt) h.0,
        insert-IsSorted by_storage_time a nodes h.1,
      )
      | inr le ↦ rw le (
        (
          le,
          All-map (Precedes by_storage_time b) (Precedes by_storage_time a) nodes
              (λ c. Precedes-trans by_storage_time a b c le) h.0,
        ),
        h,
      )
    ]

pub sort-IsSorted :
    (by_storage_time : Bool) (nodes : List NodeValues)
    → IsSorted by_storage_time (sort by_storage_time nodes)
unfolding sort
sort-IsSorted by_storage_time [] = tt
sort-IsSorted by_storage_time (a ∷ nodes) =
    insert-IsSorted by_storage_time a (sort by_storage_time nodes)
      (sort-IsSorted by_storage_time nodes)

key-id1 :
    (by_storage_time : Bool) (a b : NodeValues)
    → key by_storage_time a ≡ key by_storage_time b
    → a.id1 ≡ b.id1
unfolding key
key-id1 true a b h = cc
key-id1 false a b h = cc

-- Nodes that may stand in either order have one identity.
pub Precedes-antisym :
    (by_storage_time : Bool) (a b : NodeValues)
    → Precedes by_storage_time a b
    → Precedes by_storage_time b a
    → a.id1 ≡ b.id1
Precedes-antisym by_storage_time a b h k = key-id1 by_storage_time a b (
    not_gt_antisym (key by_storage_time a) (key by_storage_time b)
      (rw (← compare_nodes-key by_storage_time a b) h)
      (rw (← compare_nodes-key by_storage_time b a) k))
