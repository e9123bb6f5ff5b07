-- ===== src/Crdt/Sorted/Window.antt =====
-- What a page of nodes holds.
use mathlib.Core.List.{reverse, reverse-cons}
use openodin.Prelude.{
  ℕ, zero, suc, ◌+◌, ◌-◌, ◌≤◌, ◌≡◌, refl, subst, not, ◌&&◌, ◌||◌, Bool, true, false, Option, none,
  some, List, [], ◌∷◌, ◌++◌, arith, Bool-cases, inl, inr, if◌then◌else◌, length, take, drop,
  get_elem?, length-append, ◌==◌,
}
use openodin.Prelude.Int.{ℤ, pos, negsuc}
use openodin.Prelude.Buffer.{Buffer}
use openodin.Model.Props.{has_bytes}
use openodin.Crdt.Sorted.{
  get_length, NodeValues, AlgoSorted, get, cut_some, cut, window, number_from, clamp, first_window,
  cursor_window, at_cursor, find_cursor, is_zero, is_negative,
}

-- Each of the items stands at the index with it, and there are as many indexes as items.
abbrev pub AreAt : {A : Type 0} → List A → List A → List ℕ → Type 0
AreAt items [] [] = Unit
AreAt items (x ∷ xs) (i ∷ is) = (get_elem? items i ≡ some x) × AreAt items xs is
AreAt items _ _ = ⊥

module _ {A : Type 0} where
  drop_here :
      (items : List A) (start : ℕ) (x : A) (xs : List A)
      → drop start items ≡ x ∷ xs
      → (get_elem? items start ≡ some x) × (drop (suc start) items ≡ xs)
  drop_here [] zero x xs h = absurd cc
  drop_here [] (suc start) x xs h = absurd cc
  drop_here (y ∷ items) zero x xs h = (ground arith, ground arith)
  drop_here (y ∷ items) (suc start) x xs h = drop_here items start x xs h

  page-AreAt :
      (items : List A) (n start : ℕ) (rest : List A)
      → drop start items ≡ rest
      → AreAt items (take n rest) (number_from start (take n rest))
  page-AreAt items zero start rest h = tt
  page-AreAt items (suc n) start [] h = tt
  page-AreAt items (suc n) start (x ∷ rest) h =
      let (here, later) = drop_here items start x rest h in
      (here, page-AreAt items n (suc start) rest later)

  append-AreAt :
      (items xs : List A) (is : List ℕ) (x : A) (i : ℕ)
      → AreAt items xs is
      → get_elem? items i ≡ some x
      → AreAt items (xs ++ x ∷ []) (is ++ i ∷ [])
  append-AreAt items [] [] x i h k = (k, tt)
  append-AreAt items (y ∷ xs) (j ∷ is) x i h k = (h.0, append-AreAt items xs is x i h.1 k)
  append-AreAt items [] (j ∷ is) x i h k = absurd h
  append-AreAt items (y ∷ xs) [] x i h k = absurd h

  reverse-AreAt :
      (items xs : List A) (is : List ℕ) → AreAt items xs is → AreAt items (reverse xs) (reverse is)
  reverse-AreAt items [] [] h = tt
  reverse-AreAt items (x ∷ xs) (i ∷ is) h =
      rw (reverse-cons x xs, reverse-cons i is)
        (append-AreAt items (reverse xs) (reverse is) x i (reverse-AreAt items xs is h.1) h.0)
  reverse-AreAt items [] (i ∷ is) h = absurd h
  reverse-AreAt items (x ∷ xs) [] h = absurd h

  length-take : (n : ℕ) (xs : List A) → length (take n xs) ≤ n
  length-take zero xs = omega arith
  length-take (suc n) [] = omega arith
  length-take (suc n) (x ∷ xs) = omega (arith, length-take n xs)

  length-reverse : (xs : List A) → length (reverse xs) ≡ length xs
  length-reverse [] = refl
  length-reverse (x ∷ xs) =
      rw (reverse-cons x xs) (omega (arith, length-append (reverse xs) (x ∷ []), length-reverse xs))

cut-AreAt :
    (nodes : List NodeValues) (is_reverse : Bool) (w : ℕ × ℕ)
    → AreAt nodes (cut nodes is_reverse w).0 (cut nodes is_reverse w).1
unfolding cut
cut-AreAt nodes true (start, end) =
    reverse-AreAt nodes _ _ (page-AreAt nodes (end - start) start (drop start nodes) refl)
cut-AreAt nodes false (start, end) = page-AreAt nodes (end - start) start (drop start nodes) refl

length-cut :
    (nodes : List NodeValues) (is_reverse : Bool) (w : ℕ × ℕ)
    → length (cut nodes is_reverse w).0 ≤ w.1 - w.0
unfolding cut
length-cut nodes true (start, end) =
    rw length-reverse (length-take (end - start) (drop start nodes))
length-cut nodes false (start, end) = length-take (end - start) (drop start nodes)

-- How many nodes are asked for: all of them by a negative number.
abbrev pub asked : ℤ → ℕ → ℕ
asked (pos n) count = n
asked (negsuc n) count = count

clamp-le-asked : (n : ℤ) (count : ℕ) → clamp n count ≤ asked n count
unfolding clamp
clamp-le-asked (pos n) count = ground arith
clamp-le-asked (negsuc n) count = omega arith

abbrev span : Option (ℕ × ℕ) → ℕ
span none = 0
span (some w) = w.1 - w.0

first_window_bound :
    (count head tail : ℕ) → span (some (first_window count head tail)) ≤ head + tail
unfolding first_window
first_window_bound count head tail = elim (Bool-cases (tail == 0)) [
  | inl e ↦ rw e (omega arith)
  | inr e ↦ rw e (omega arith)
]

at_cursor_bound : (cursor : ℤ) (head tail : ℕ) → span (at_cursor cursor head tail) ≤ head + tail
unfolding at_cursor cursor_window
at_cursor_bound (negsuc n) head tail = omega arith
at_cursor_bound (pos cursor) head tail = elim (Bool-cases (head == 0)) [
  | inl e ↦ rw e (omega arith)
  | inr e ↦ rw e (omega arith)
]

window_bound :
    (s : AlgoSorted) (id1 : Option Buffer) (cursor_index : ℤ) (head tail : ℕ)
    → span (window s id1 cursor_index head tail) ≤ head + tail
unfolding window get_length
window_bound s id1 cursor_index head tail =
    elim (Bool-cases (has_bytes id1 || not (is_negative cursor_index))) [
      | inl e ↦ rw e (at_cursor_bound (find_cursor s id1 cursor_index) head tail)
      | inr e ↦ rw e (first_window_bound (length s.nodes) head tail)
    ]

-- An answer that is a page of the nodes, of at most so many.
abbrev IsPage : List NodeValues → ℕ → Option (List NodeValues × List ℕ) → Type 0
IsPage nodes most none = Unit
IsPage nodes most (some (page, indexes)) = AreAt nodes page indexes × (length page ≤ most)

cut_some-IsPage :
    (nodes : List NodeValues) (is_reverse : Bool) (w : Option (ℕ × ℕ)) (most : ℕ)
    → span w ≤ most
    → IsPage nodes most (cut_some nodes is_reverse w)
unfolding cut_some
cut_some-IsPage nodes is_reverse none most h = tt
cut_some-IsPage nodes is_reverse (some w) most h =
    (cut-AreAt nodes is_reverse w, omega (arith, length-cut nodes is_reverse w))

get-IsPage :
    (s : AlgoSorted) (id1 : Option Buffer) (cursor_index head tail : ℤ) (is_reverse : Bool)
    → IsPage s.nodes
        (asked head (length s.nodes) + asked tail (length s.nodes))
        (get s id1 cursor_index head tail is_reverse)
unfolding get get_length
get-IsPage s id1 cursor_index head tail is_reverse =
    elim (Bool-cases
      ((is_zero tail && is_zero head) || (not (is_zero tail) && not (is_zero head)))) [
        | inl e ↦ rw e (tt, omega arith)
        | inr e ↦ rw e (cut_some-IsPage s.nodes is_reverse _ _ (enough is_reverse))
      ]
  where
    count : ℕ
    count = length s.nodes

    enough :
        (r : Bool)
        → span (
            window s id1 cursor_index
              (if r then clamp tail count else clamp head count)
              (if r then clamp head count else clamp tail count))
          ≤ asked head count + asked tail count
    enough true = omega (
      arith,
      window_bound s id1 cursor_index (clamp tail count) (clamp head count),
      clamp-le-asked tail count,
      clamp-le-asked head count,
    )
    enough false = omega (
      arith,
      window_bound s id1 cursor_index (clamp head count) (clamp tail count),
      clamp-le-asked tail count,
      clamp-le-asked head count,
    )

-- When `get` answers with a page, each node of it stands in the model at the index that is returned
-- with it, and there are no more nodes than were asked for by head and tail, one of which is 0.
pub get-AreAt :
    (s : AlgoSorted) (id1 : Option Buffer) (cursor_index head tail : ℤ) (is_reverse : Bool)
    {page : List NodeValues} {indexes : List ℕ}
    → get s id1 cursor_index head tail is_reverse ≡ some (page, indexes)
    → AreAt s.nodes page indexes
      × (length page ≤ asked head (length s.nodes) + asked tail (length s.nodes))
get-AreAt s id1 cursor_index head tail is_reverse h =
    subst (IsPage s.nodes (asked head (length s.nodes) + asked tail (length s.nodes))) h
      (get-IsPage s id1 cursor_index head tail is_reverse)
