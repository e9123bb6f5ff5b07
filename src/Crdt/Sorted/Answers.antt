-- ===== src/Crdt/Sorted/Answers.antt =====
-- storage/crdt/AlgoSorted.ts: which nodes `get` gives around a cursor.
use mathlib.Core.List.{reverse}
use openodin.Prelude.{
  All, ◌≢◌, ℕ, zero, suc, ◌+◌, ◌-◌, ◌≤◌, ◌≡◌, refl, sym, ◌∙◌, ap, subst, Bool, true, false, some,
  List, [], ◌∷◌, ◌++◌, Bool-cases, inl, inr, if◌then◌else◌, length, length-append, take, drop,
  take-append, ◌==◌, leb, arith,
}
use openodin.Prelude.Int.{ℤ, pos, negsuc}
use openodin.Prelude.Buffer.{Buffer, equals_refl, differ}
use openodin.Prelude.Dict.{lookup}
use openodin.Crdt.Sorted.{
  NodeValues, get_length, AlgoSorted, get, clamp, cut, cut_some, window, at_cursor, find_cursor,
  or_index, is_zero, cursor_window, number_from, slice,
}
use openodin.Crdt.Sorted.Places.{position}
use openodin.Crdt.Sorted.Indexes.{AreDistinct}
use openodin.Crdt.Sorted.Valid.{IsConsistent}
use openodin.Crdt.Sorted.Reachable.{Reachable, reachable-IsConsistent}

-- The first and the last so many elements, or all by a negative number.
abbrev pub first_of : {A : Type 0} → ℤ → List A → List A
first_of (pos n) xs = take n xs
first_of (negsuc n) xs = xs

abbrev pub last_of : {A : Type 0} → ℤ → List A → List A
last_of (pos n) xs = drop (length xs - n) xs
last_of (negsuc n) xs = xs

module _ {A : Type 0} where
  take_all : (n : ℕ) (xs : List A) → length xs ≤ n → take n xs ≡ xs
  take_all zero [] h = refl
  take_all (suc n) [] h = refl
  take_all zero (x ∷ xs) h = absurd (omega arith)
  take_all (suc n) (x ∷ xs) h = ap (λ t. x ∷ t) (take_all n xs (omega arith))

  length-drop : (k : ℕ) (xs : List A) → length (drop k xs) ≡ length xs - k
  length-drop zero xs = omega arith
  length-drop (suc k) [] = omega arith
  length-drop (suc k) (x ∷ xs) = omega (arith, length-drop k xs)

  drop_behind :
      (before : List A) (x : A) (after : List A) (n : ℕ)
      → n ≡ length before + 1
      → drop n (before ++ x ∷ after) ≡ after
  drop_behind before x after zero h = absurd (omega arith)
  drop_behind [] x after (suc n) h = let e : n ≡ 0 = omega arith in rw e refl
  drop_behind (y ∷ before) x after (suc n) h = drop_behind before x after n (omega arith)

  drop_within :
      (k : ℕ) (before rest : List A)
      → k ≤ length before
      → drop k (before ++ rest) ≡ drop k before ++ rest
  drop_within zero before rest h = refl
  drop_within (suc k) [] rest h = absurd (omega arith)
  drop_within (suc k) (y ∷ before) rest h = drop_within k before rest (omega arith)

  slice_behind :
      (before : List A) (x : A) (after : List A) (n : ℕ)
      → slice (length before + 1) (length before + 1 + n) (before ++ x ∷ after) ≡ take n after
  slice_behind before x after n =
      let width : length before + 1 + n - (length before + 1) ≡ n = omega arith in
      rw (width, drop_behind before x after (length before + 1) refl) refl

  slice_before :
      (before rest : List A) (n : ℕ)
      → slice (length before - n) (length before) (before ++ rest) ≡ drop (length before - n) before
  slice_before before rest n =
      ap (take (length before - (length before - n)))
        (drop_within (length before - n) before rest (omega arith))
      ∙ take-append (drop (length before - n) before) rest _
          (omega (arith, length-drop (length before - n) before))

  take-clamp :
      (n : ℤ) (count : ℕ) (xs : List A)
      → length xs ≤ count
      → take (clamp n count) xs ≡ first_of n xs
  unfolding clamp
  take-clamp (negsuc n) count xs h = take_all count xs h
  take-clamp (pos n) count xs h = elim (Bool-cases (leb n count)) [
    | inl e ↦ rw e refl
    | inr e ↦ rw e (take_all count xs h ∙ sym (take_all n xs (ground arith)))
  ]

-- Where the last so many begin.
abbrev pub start_of : ℤ → ℕ → ℕ
start_of (pos n) count = count - n
start_of (negsuc n) count = 0

start-clamp : (n : ℤ) (count most : ℕ) → most ≤ count → most - clamp n count ≡ start_of n most
unfolding clamp
start-clamp (negsuc n) count most h = omega arith
start-clamp (pos n) count most h = ground arith

last_of-drop : {A : Type 0} (n : ℤ) (xs : List A) → drop (start_of n (length xs)) xs ≡ last_of n xs
last_of-drop (pos n) xs = refl
last_of-drop (negsuc n) xs = refl

clamp_zero : (count : ℕ) → clamp (pos 0) count ≡ 0
unfolding clamp
clamp_zero count = ground arith

clamp_nonzero :
    (n : ℤ) (count : ℕ) → is_zero n ≡ false → (count == 0) ≡ false → (clamp n count == 0) ≡ false
unfolding clamp
clamp_nonzero (negsuc n) count h k = k
clamp_nonzero (pos zero) count h k = absurd cc
clamp_nonzero (pos (suc n)) count h k = ground arith

-- Among distinct nodes a node is found behind those before it.
position_behind :
    (before after : List NodeValues) (node : NodeValues)
    → AreDistinct (before ++ node ∷ after)
    → position node.id1 (before ++ node ∷ after) ≡ some (length before)
unfolding position
position_behind [] after node h = rw (equals_refl node.id1) refl
position_behind (x ∷ before) after node h =
    rw
      (
        differ x.id1 node.id1 (λ e. not_here before h.0 (sym e)),
        position_behind before after node h.1,
      )
      refl
  where
    not_here :
        (before : List NodeValues)
        → All (λ other. other.id1 ≢ x.id1) (before ++ node ∷ after)
        → node.id1 ≢ x.id1
    not_here [] k = k.0
    not_here (y ∷ before) k = not_here before k.1

window_at :
    (s : AlgoSorted) (id1 : Buffer) (i : ℕ) (cursor_index : ℤ) (head tail : ℕ)
    → (length id1 == 0) ≡ false
    → lookup id1 s.node_index_by_id1 ≡ some i
    → window s (some id1) cursor_index head tail ≡ some (cursor_window i head tail)
unfolding window find_cursor or_index at_cursor
window_at s id1 i (pos n) head tail e h = rw (e, h) refl
window_at s id1 i (negsuc n) head tail e h = rw (e, h) refl

-- A page in the order that is asked for.
abbrev pub in_order : {A : Type 0} → Bool → List A → List A
in_order is_reverse xs = if is_reverse then reverse xs else xs

cut_in_order :
    (nodes : List NodeValues) (is_reverse : Bool) (start end : ℕ) (page : List NodeValues)
    → slice start end nodes ≡ page
    → cut_some nodes is_reverse (some (start, end))
      ≡ some (in_order is_reverse page, in_order is_reverse (number_from start page))
unfolding cut_some cut
cut_in_order nodes true start end page e = rw e refl
cut_in_order nodes false start end page e = rw e refl

module _ (s : AlgoSorted) (before after : List NodeValues) (node : NodeValues) (cursor_index : ℤ)
    (consistent : IsConsistent s) (split : s.nodes ≡ before ++ node ∷ after)
    (named : (length node.id1 == 0) ≡ false) where
  found : lookup node.id1 s.node_index_by_id1 ≡ some (length before)
  found =
      consistent.1 node.id1
      ∙ ap (position node.id1) split
      ∙ position_behind before after node (subst AreDistinct split consistent.0)

  count_nodes : length s.nodes ≡ length before + (1 + length after)
  count_nodes = ap length split ∙ length-append before (node ∷ after) ∙ omega arith

  page_behind :
      (is_reverse : Bool) (n : ℤ)
      → is_zero n ≡ false
      → cut_some s.nodes is_reverse
          (window s (some node.id1) cursor_index (clamp n (length s.nodes)) 0)
        ≡ some (
          in_order is_reverse (first_of n after),
          in_order is_reverse (number_from (length before + 1) (first_of n after)),
        )
  unfolding cursor_window
  page_behind is_reverse n some_asked =
      let some_taken = clamp_nonzero n (length s.nodes) some_asked (ground (arith, count_nodes)) in
      rw
        (
          window_at s node.id1 (length before) cursor_index (clamp n (length s.nodes)) 0 named
              found,
          some_taken,
        )
        (cut_in_order s.nodes is_reverse (length before + 1)
          (length before + 1 + clamp n (length s.nodes)) (first_of n after)
          (ap (slice (length before + 1) (length before + 1 + clamp n (length s.nodes))) split
            ∙ slice_behind before node after (clamp n (length s.nodes))
            ∙ take-clamp n (length s.nodes) after (omega (arith, count_nodes))))

  page_before :
      (is_reverse : Bool) (n : ℤ)
      → cut_some s.nodes is_reverse
          (window s (some node.id1) cursor_index 0 (clamp n (length s.nodes)))
        ≡ some (
          in_order is_reverse (last_of n before),
          in_order is_reverse (number_from (start_of n (length before)) (last_of n before)),
        )
  unfolding cursor_window
  page_before is_reverse n =
      let from = start-clamp n (length s.nodes) (length before) (omega (arith, count_nodes)) in
      rw
        (
          window_at s node.id1 (length before) cursor_index 0 (clamp n (length s.nodes)) named
              found,
          from,
        )
        (cut_in_order s.nodes is_reverse (start_of n (length before)) (length before)
          (last_of n before)
          (ap (slice (start_of n (length before)) (length before)) split
            ∙ ap (λ k. slice k (length before) (before ++ node ∷ after)) (sym from)
            ∙ slice_before before (node ∷ after) (clamp n (length s.nodes))
            ∙ ap (λ k. drop k before) from
            ∙ last_of-drop n before))

-- In a reachable model, `get` with a node as its cursor gives the nodes that stand behind it, as
-- many as asked for from the nearest on, or those before it, up to the nearest; a negative number asks
-- for all of them. By head it gives those behind and by tail those before, in reverse the other way
-- round and backwards. With them stand their indexes. The number is not 0, and the node has an id1.
pub get_around :
    {s : AlgoSorted} (before after : List NodeValues) (node : NodeValues) (cursor_index n : ℤ)
    → Reachable s
    → s.nodes ≡ before ++ node ∷ after
    → (length node.id1 == 0) ≡ false
    → is_zero n ≡ false
    → let behind = first_of n after in
      let behind_at = number_from (length before + 1) behind in
      let ahead = last_of n before in
      let ahead_at = number_from (start_of n (length before)) ahead in
      (get s (some node.id1) cursor_index n (pos 0) false ≡ some (behind, behind_at))
      × (get s (some node.id1) cursor_index (pos 0) n false ≡ some (ahead, ahead_at))
      × (get s (some node.id1) cursor_index (pos 0) n true
          ≡ some (reverse behind, reverse behind_at))
      × (get s (some node.id1) cursor_index n (pos 0) true ≡ some (reverse ahead, reverse ahead_at))
unfolding get get_length
get_around {s} before after node cursor_index n reached split named some_asked =
    let consistent = reachable-IsConsistent reached in
    let zero_taken : clamp (pos 0) (length s.nodes) ≡ 0 = clamp_zero (length s.nodes) in
    (
      rw (some_asked, zero_taken)
          (page_behind s before after node cursor_index consistent split named false n some_asked),
      rw (some_asked, zero_taken)
          (page_before s before after node cursor_index consistent split named false n),
      rw (some_asked, zero_taken)
          (page_behind s before after node cursor_index consistent split named true n some_asked),
      rw (some_asked, zero_taken)
          (page_before s before after node cursor_index consistent split named true n),
    )
