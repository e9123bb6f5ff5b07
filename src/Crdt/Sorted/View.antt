-- ===== src/Crdt/Sorted/View.antt =====
-- storage/crdt/AlgoSorted.ts as a map from identities to nodes, which forgets the order and the
-- dictionary of indexes.
use mathlib.Core.Option.{some_inj, none-ne-some}
use openodin.Prelude.{
  ℕ, ◌≡◌, refl, sym, ◌∙◌, ap, not, Option, none, some, List, [], ◌∷◌, Bool-cases, inl, inr,
  if◌then◌else◌,
}
use openodin.Prelude.Buffer.{Buffer, equals, equals→eq}
use openodin.Prelude.Dict.{lookup, in_either_order}
use openodin.Crdt.Sorted.{NodeValues, AlgoSorted, get_node, node_at}
use openodin.Crdt.Sorted.Update.{
  DataNode, Outcome, returned, failed, replace_at, append_node, node_values,
}
use openodin.Crdt.Sorted.Places.{
  position, find, position-get, position_here, position_there, map-suc-some, IsAbsent-position,
  find-absent,
}
use openodin.Crdt.Sorted.Kept.{find-append, or_next}
use openodin.Crdt.Sorted.Valid.{IsConsistent}

abbrev pub NodeMap : Type 0
NodeMap = Buffer → Option NodeValues

-- The node that is kept of an old and a new one: the new one when its transient hash differs.
unfoldable pub newer : Option NodeValues → NodeValues → NodeValues
newer none values = values
newer (some old) values =
    if not (equals values.transient_hash old.transient_hash) then values else old

unfoldable pub put_newer : NodeMap → NodeValues → NodeMap
unfolding newer
put_newer nodes values id1 =
    if equals values.id1 id1 then some (newer (nodes id1) values) else nodes id1

-- A node with an identity, a parent and an owner is put into the map, any other is not.
unfoldable pub put_whole :
    NodeMap → DataNode → Option Buffer → Option Buffer → Option Buffer → NodeMap
unfolding put_newer node_values
put_whole nodes node (some id1) (some parent) (some owner) =
    put_newer nodes (node_values node id1 owner)
put_whole nodes node _ _ _ = nodes

unfoldable pub put_all : NodeMap → List DataNode → NodeMap
unfolding put_whole
put_all nodes [] = nodes
put_all nodes (node ∷ rest) = put_all (put_whole nodes node node.id1 node.parent_id node.owner) rest

-- `getAllNodes` finds the nodes by their identity.
pub get_node-find :
    (s : AlgoSorted) (id1 : Buffer) → IsConsistent s → get_node s id1 ≡ find id1 s.nodes
unfolding get_node node_at
get_node-find s id1 (distinct, places) = rw (places id1) (at (position id1 s.nodes) refl)
  where
    at : (o : Option ℕ) → position id1 s.nodes ≡ o → node_at s.nodes o ≡ find id1 s.nodes
    at none e = sym (find-absent id1 s.nodes (IsAbsent-position id1 s.nodes e))
    at (some i) e =
        let (node, (there, (found, same))) = position-get id1 s.nodes i e in there ∙ sym found

pub find-replace_at :
    (id1 : Buffer) (values : NodeValues) (nodes : List NodeValues) (i : ℕ)
    → position values.id1 nodes ≡ some i
    → find id1 (replace_at i values nodes)
      ≡ (if equals values.id1 id1 then some values else find id1 nodes)
unfolding find replace_at position
find-replace_at id1 values [] i h = absurd (none-ne-some i h)
find-replace_at id1 values (x ∷ nodes) i h = elim (Bool-cases (equals x.id1 values.id1)) [
  | inl e ↦
      let zero_i = some_inj.0 (sym (position_here values.id1 x nodes e) ∙ h) in
      rw (← zero_i) (elim (Bool-cases (equals values.id1 id1)) [
        | inl t ↦ rw t refl
        | inr t ↦ rw (t, ap (λ k. equals k id1) (equals→eq x.id1 values.id1 e) ∙ t) refl
      ])
  | inr e ↦
      let (j, (at, suc_j)) =
        map-suc-some (position values.id1 nodes) i
          (sym (position_there values.id1 x nodes e) ∙ h) in
      rw (suc_j, find-replace_at id1 values nodes j at)
        (in_either_order x.id1 values.id1 id1 (some values) (some x) (find id1 nodes) e)
]

-- The nodes of the model are those of the map.
abbrev pub Matches : NodeMap → AlgoSorted → Type 0
Matches nodes s = IsConsistent s × ((id1 : Buffer) → find id1 s.nodes ≡ nodes id1)

abbrev pub Returns : (AlgoSorted → Type 0) → Outcome → Type 0
Returns P (returned (s, out)) = P s
Returns P (failed s message) = Unit

pub append_node-Matches :
    (nodes : NodeMap) (s : AlgoSorted) (out : List NodeValues × List Buffer) (values : NodeValues)
    → Matches nodes s
    → lookup values.id1 s.node_index_by_id1 ≡ none
    → (id1 : Buffer) → find id1 (append_node (s, out) values).0.nodes ≡ put_newer nodes values id1
unfolding append_node put_newer newer
append_node-Matches nodes s out values ((distinct, places), same) missing id1 =
    find-append id1 s.nodes values ∙ elim (Bool-cases (equals values.id1 id1)) [
      | inl e ↦
          let absent : find id1 s.nodes ≡ none = find-absent id1 s.nodes (
            IsAbsent-position id1 s.nodes
              (rw (← equals→eq values.id1 id1 e) (sym (places values.id1) ∙ missing))) in
          rw (e, ← same id1, absent) refl
      | inr e ↦ rw (e, same id1) (or_none (nodes id1))
    ]
  where
    or_none : (o : Option NodeValues) → or_next o none ≡ o
    or_none none = refl
    or_none (some n) = refl
