-- ===== src/Crdt/SortedRefId/Moves.antt =====
-- storage/crdt/AlgoSortedRefId.ts: what is kept when a node is moved.
use mathlib.Core.List.{Perm}
use mathlib.Core.List.Perm
use openodin.Prelude.{
  ℕ, zero, suc, ◌≡◌, refl, ◌∙◌, ap, Bool, true, false, ◌||◌, Option, none, some, List, [], ◌∷◌,
  get_elem?, Bool-cases, inl, inr,
}
use openodin.Prelude.Buffer.{Buffer, equals}
use openodin.Crdt.SortedRefId.{
  NodeValuesRefId, is_greater, insert_by_time, sort_by_time, splice_out, splice_in,
}

-- One of the nodes has the identity.
abbrev pub occurs : Buffer → List NodeValuesRefId → Bool
occurs id1 [] = false
occurs id1 (node ∷ nodes) = equals node.id1 id1 || occurs id1 nodes

abbrev pub occurs_if : Option Buffer → List NodeValuesRefId → Bool
occurs_if none nodes = false
occurs_if (some id1) nodes = occurs id1 nodes

-- The node refers to one of the others.
abbrev pub refers : NodeValuesRefId → List NodeValuesRefId → Bool
refers node nodes = occurs_if node.ref_id nodes

-- No two nodes have one identity.
abbrev pub AreDistinct : List NodeValuesRefId → Type 0
AreDistinct [] = Unit
AreDistinct (node ∷ nodes) = (occurs node.id1 nodes ≡ false) × AreDistinct nodes

pub neither : (a b : Bool) → (a || b) ≡ false → (a ≡ false) × (b ≡ false)
neither true b h = (h, cc)
neither false b h = (refl, h)

pub second_of : (a b : Bool) → a ≡ false → (a || b) ≡ true → b ≡ true
second_of true b e h = cc
second_of false b e h = h

or-swap : (a b c : Bool) → (a || (b || c)) ≡ (b || (a || c))
or-swap true true c = refl
or-swap true false c = refl
or-swap false true c = refl
or-swap false false c = refl

pub occurs-splice_in :
    (id1 : Buffer) (j : ℕ) (node : NodeValuesRefId) (nodes : List NodeValuesRefId)
    → occurs id1 (splice_in j node nodes) ≡ (equals node.id1 id1 || occurs id1 nodes)
unfolding splice_in
occurs-splice_in id1 zero node nodes = refl
occurs-splice_in id1 (suc j) node [] = refl
occurs-splice_in id1 (suc j) node (x ∷ nodes) =
    ap (λ t. equals x.id1 id1 || t) (occurs-splice_in id1 j node nodes)
    ∙ or-swap (equals x.id1 id1) (equals node.id1 id1) (occurs id1 nodes)

pub occurs-splice_out :
    (id1 : Buffer) (i : ℕ) (node : NodeValuesRefId) (nodes : List NodeValuesRefId)
    → get_elem? nodes i ≡ some node
    → (equals node.id1 id1 || occurs id1 (splice_out i nodes)) ≡ occurs id1 nodes
unfolding splice_out
occurs-splice_out id1 i node [] h = absurd cc
occurs-splice_out id1 zero node (x ∷ nodes) h = let same : x ≡ node = cc in rw same refl
occurs-splice_out id1 (suc i) node (x ∷ nodes) h =
    or-swap (equals node.id1 id1) (equals x.id1 id1) (occurs id1 (splice_out i nodes))
    ∙ ap (λ t. equals x.id1 id1 || t) (occurs-splice_out id1 i node nodes h)

-- The move of a node, from the one index to the other among those that are left.
abbrev pub moved : ℕ → ℕ → NodeValuesRefId → List NodeValuesRefId → List NodeValuesRefId
moved i j node nodes = splice_in j node (splice_out i nodes)

pub occurs-moved :
    (id1 : Buffer) (i j : ℕ) (node : NodeValuesRefId) (nodes : List NodeValuesRefId)
    → get_elem? nodes i ≡ some node
    → occurs id1 (moved i j node nodes) ≡ occurs id1 nodes
occurs-moved id1 i j node nodes h =
    occurs-splice_in id1 j node (splice_out i nodes) ∙ occurs-splice_out id1 i node nodes h

pub refers-moved :
    (x : NodeValuesRefId) (i j : ℕ) (node : NodeValuesRefId) (nodes : List NodeValuesRefId)
    → get_elem? nodes i ≡ some node
    → refers x (moved i j node nodes) ≡ refers x nodes
refers-moved x i j node nodes h = by_ref x.ref_id
  where
    by_ref :
        (ref_id : Option Buffer) → occurs_if ref_id (moved i j node nodes) ≡ occurs_if ref_id nodes
    by_ref none = refl
    by_ref (some id1) = occurs-moved id1 i j node nodes h

splice_in-Perm :
    (j : ℕ) (node : NodeValuesRefId) (nodes : List NodeValuesRefId)
    → Perm (node ∷ nodes) (splice_in j node nodes)
unfolding splice_in
splice_in-Perm zero node nodes = Perm.refl (node ∷ nodes)
splice_in-Perm (suc j) node [] = Perm.refl (node ∷ [])
splice_in-Perm (suc j) node (x ∷ nodes) =
    Perm.trans (Perm.swap x node nodes) (Perm.cons x (splice_in-Perm j node nodes))

splice_out-Perm :
    (i : ℕ) (node : NodeValuesRefId) (nodes : List NodeValuesRefId)
    → get_elem? nodes i ≡ some node
    → Perm nodes (node ∷ splice_out i nodes)
unfolding splice_out
splice_out-Perm i node [] h = absurd cc
splice_out-Perm zero node (x ∷ nodes) h =
    let same : x ≡ node = cc in rw same (Perm.refl (node ∷ nodes))
splice_out-Perm (suc i) node (x ∷ nodes) h =
    Perm.trans (Perm.cons x (splice_out-Perm i node nodes h))
      (Perm.swap node x (splice_out i nodes))

pub moved-Perm :
    (i j : ℕ) (node : NodeValuesRefId) (nodes : List NodeValuesRefId)
    → get_elem? nodes i ≡ some node
    → Perm nodes (moved i j node nodes)
moved-Perm i j node nodes h =
    Perm.trans (splice_out-Perm i node nodes h) (splice_in-Perm j node (splice_out i nodes))

insert_by_time-Perm :
    (by_storage_time : Bool) (a : NodeValuesRefId) (nodes : List NodeValuesRefId)
    → Perm (a ∷ nodes) (insert_by_time by_storage_time a nodes)
unfolding insert_by_time
insert_by_time-Perm by_storage_time a [] = Perm.refl (a ∷ [])
insert_by_time-Perm by_storage_time a (b ∷ nodes) =
    elim (Bool-cases (is_greater by_storage_time a b)) [
      | inl gt ↦ rw gt (
          Perm.trans (Perm.swap b a nodes)
            (Perm.cons b (insert_by_time-Perm by_storage_time a nodes)))
      | inr le ↦ rw le (Perm.refl (a ∷ b ∷ nodes))
    ]

pub sort_by_time-Perm :
    (by_storage_time : Bool) (nodes : List NodeValuesRefId)
    → Perm nodes (sort_by_time by_storage_time nodes)
unfolding sort_by_time
sort_by_time-Perm by_storage_time [] = Perm.refl []
sort_by_time-Perm by_storage_time (a ∷ nodes) =
    Perm.trans (Perm.cons a (sort_by_time-Perm by_storage_time nodes))
      (insert_by_time-Perm by_storage_time a (sort_by_time by_storage_time nodes))
