-- ===== src/Crdt/Sorted/Places.antt =====
-- storage/crdt/AlgoSorted.ts: where the nodes stand, and what its list operations keep.
use mathlib.Core.Option
use mathlib.Core.Option.{some_inj, some-ne-none}
use mathlib.Core.Bool.{false≢true}
use openodin.Prelude.{
  ℕ, zero, suc, ◌≡◌, ◌≢◌, refl, sym, ◌∙◌, true, false, Option, none, some, List, [], ◌∷◌, All,
  Bool-cases, inl, inr, if◌then◌else◌, get_elem?, arith,
}
use openodin.Prelude.Buffer.{Buffer, equals, equals_refl, equals→eq, differ}
use openodin.Crdt.Sorted.{NodeValues}

-- The index of the node with the identity.
unfoldable pub position : Buffer → List NodeValues → Option ℕ
position id1 [] = none
position id1 (node ∷ nodes) =
    let rest = position id1 nodes in if equals node.id1 id1 then some 0 else Option.map suc rest

-- The node with the identity.
unfoldable pub find : Buffer → List NodeValues → Option NodeValues
find id1 [] = none
find id1 (node ∷ nodes) =
    let rest = find id1 nodes in if equals node.id1 id1 then some node else rest

-- None of the nodes has the identity.
abbrev pub IsAbsent : Buffer → List NodeValues → Type 0
IsAbsent id1 nodes = All (λ node. node.id1 ≢ id1) nodes

pub position-absent :
    (id1 : Buffer) (nodes : List NodeValues) → IsAbsent id1 nodes → position id1 nodes ≡ none
unfolding position
position-absent id1 [] h = refl
position-absent id1 (node ∷ nodes) h =
    rw (differ node.id1 id1 h.0, position-absent id1 nodes h.1) refl

pub find-absent :
    (id1 : Buffer) (nodes : List NodeValues) → IsAbsent id1 nodes → find id1 nodes ≡ none
unfolding find
find-absent id1 [] h = refl
find-absent id1 (node ∷ nodes) h = rw (differ node.id1 id1 h.0, find-absent id1 nodes h.1) refl

pub position_here :
    (id1 : Buffer) (node : NodeValues) (nodes : List NodeValues)
    → equals node.id1 id1 ≡ true
    → position id1 (node ∷ nodes) ≡ some 0
unfolding position
position_here id1 node nodes e = rw e refl

pub position_there :
    (id1 : Buffer) (node : NodeValues) (nodes : List NodeValues)
    → equals node.id1 id1 ≡ false
    → position id1 (node ∷ nodes) ≡ Option.map suc (position id1 nodes)
unfolding position
position_there id1 node nodes e = rw e refl

map-suc-none : (o : Option ℕ) → Option.map suc o ≡ none → o ≡ none
map-suc-none none e = refl
map-suc-none (some n) e = absurd cc

pub map-suc-some :
    (o : Option ℕ) (i : ℕ) → Option.map suc o ≡ some i → (j : ℕ) × ((o ≡ some j) × (i ≡ suc j))
map-suc-some none i e = absurd cc
map-suc-some (some j) i e = (j, (refl, ground arith))

pub not_same : (a b : Buffer) → equals a b ≡ false → a ≢ b
not_same a b h e = false≢true (sym h ∙ rw e (equals_refl b))

pub IsAbsent-position :
    (id1 : Buffer) (nodes : List NodeValues) → position id1 nodes ≡ none → IsAbsent id1 nodes
IsAbsent-position id1 [] h = tt
IsAbsent-position id1 (node ∷ nodes) h = elim (Bool-cases (equals node.id1 id1)) [
  | inl e ↦ absurd (some-ne-none 0 (sym (position_here id1 node nodes e) ∙ h))
  | inr e ↦ (
    not_same node.id1 id1 e,
    IsAbsent-position id1 nodes
        (map-suc-none (position id1 nodes) (sym (position_there id1 node nodes e) ∙ h)),
  )
]

-- The node at its position.
pub position-get :
    (id1 : Buffer) (nodes : List NodeValues) (i : ℕ)
    → position id1 nodes ≡ some i
    → (node : NodeValues) × ((get_elem? nodes i ≡ some node)
        × ((find id1 nodes ≡ some node) × (node.id1 ≡ id1)))
unfolding position find
position-get id1 [] i h = absurd cc
position-get id1 (node ∷ nodes) i h = elim (Bool-cases (equals node.id1 id1)) [
  | inl e ↦
      let zero_i : zero ≡ i = some_inj.0 (sym (position_here id1 node nodes e) ∙ h) in
      (node, (rw (← zero_i) refl, (rw e refl, equals→eq node.id1 id1 e)))
  | inr e ↦
      let (j, (at, suc_j)) =
        map-suc-some (position id1 nodes) i (sym (position_there id1 node nodes e) ∙ h) in
      let (found, (there, (is, same))) = position-get id1 nodes j at in
      (found, (rw suc_j there, (rw e is, same)))
]
