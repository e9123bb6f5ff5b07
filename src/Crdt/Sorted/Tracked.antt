-- ===== src/Crdt/Sorted/Tracked.antt =====
-- storage/crdt/AlgoSorted.ts: which nodes `commitDeletionTracking` removes.
use mathlib.Core.Option.{some_inj}
use mathlib.Core.Bool.{false≢true}
use openodin.Prelude.{
  ℕ, ◌≡◌, ◌≢◌, refl, sym, ◌∙◌, ap, Bool, true, false, Option, none, some, List, [], ◌∷◌, map, All,
  Bool-cases, inl, inr, if◌then◌else◌, is_set, ◌==◌, ==-refl, ==→eq,
}
use openodin.Prelude.Buffer.{Buffer, equals, equals_refl, equals→eq}
use openodin.Prelude.Dict.{Dict, lookup, keys, AreDistinctKeys}
use openodin.Crdt.Sorted.{NodeValues, AlgoSorted, get_node, node_at}
use openodin.Crdt.Sorted.Update.{commit_deletion_tracking}
use openodin.Crdt.Sorted.Places.{position-get}
use openodin.Crdt.Sorted.Popped.{AreApart, HasNoRepeat, is_index, has_index}
use openodin.Crdt.Sorted.Valid.{IsConsistent}
use openodin.Crdt.Sorted.Removal.{is_among, get_node-delete}

-- Two identities with one index are equal.
same_index :
    (s : AlgoSorted) (a b : Buffer) (i : ℕ)
    → IsConsistent s
    → lookup a s.node_index_by_id1 ≡ some i
    → lookup b s.node_index_by_id1 ≡ some i
    → a ≡ b
same_index s a b i (distinct, places) h k =
    let (x, (at, (_, is_a))) = position-get a s.nodes i (sym (places a) ∙ h) in
    let (y, (there, (_, is_b))) = position-get b s.nodes i (sym (places b) ∙ k) in
    sym is_a ∙ ap (λ n. n.id1) (some_inj.0 (sym at ∙ there)) ∙ is_b

indexes_of : AlgoSorted → List Buffer → List (Option ℕ)
indexes_of s = map (λ id1. lookup id1 s.node_index_by_id1)

apart :
    (s : AlgoSorted) (a b : Buffer)
    → IsConsistent s
    → b ≢ a
    → AreApart (lookup a s.node_index_by_id1) (lookup b s.node_index_by_id1)
apart s a b h d = split (lookup a s.node_index_by_id1) (lookup b s.node_index_by_id1) refl refl
  where
    split :
        (o p : Option ℕ)
        → lookup a s.node_index_by_id1 ≡ o
        → lookup b s.node_index_by_id1 ≡ p
        → AreApart o p
    split none p e k = tt
    split (some i) none e k = tt
    split (some i) (some j) e k = λ same. d (same_index s b a j h k (e ∙ ap some same))

indexes-HasNoRepeat :
    (s : AlgoSorted) (ks : List Buffer)
    → IsConsistent s
    → AreDistinctKeys ks
    → HasNoRepeat (indexes_of s ks)
unfolding indexes_of
indexes-HasNoRepeat s [] h d = tt
indexes-HasNoRepeat s (k ∷ ks) h d = (All-IsApart ks d.0, indexes-HasNoRepeat s ks h d.1)
  where
    All-IsApart :
        (others : List Buffer)
        → All (λ other. other ≢ k) others
        → All (AreApart (lookup k s.node_index_by_id1)) (indexes_of s others)
    All-IsApart [] e = tt
    All-IsApart (other ∷ others) e = (apart s k other h e.0, All-IsApart others e.1)

-- The index of an identity is among those of the keys of a dictionary when the identity is a key.
among_keys :
    {V : Type 0} (s : AlgoSorted) (dict : Dict V) (id1 : Buffer) (i : ℕ)
    → IsConsistent s
    → lookup id1 s.node_index_by_id1 ≡ some i
    → has_index i (indexes_of s (keys dict)) ≡ is_set (lookup id1 dict)
unfolding indexes_of keys lookup
among_keys s [] id1 i h e = refl
among_keys s ((k, v) ∷ dict) id1 i h e = elim (Bool-cases (equals k id1)) [
  | inl same ↦ rw (same, equals→eq k id1 same, e, ==-refl i) refl
  | inr other ↦
      rw (other, missed (lookup k s.node_index_by_id1) refl other) (among_keys s dict id1 i h e)
]
  where
    missed :
        (o : Option ℕ)
        → lookup k s.node_index_by_id1 ≡ o
        → equals k id1 ≡ false
        → is_index i o ≡ false
    missed none p other = refl
    missed (some j) p other = elim (Bool-cases (j == i)) [
      | inl same ↦
          let k_id1 = same_index s k id1 i h (p ∙ ap some (==→eq j i same)) e in
          absurd (false≢true (sym other ∙ rw k_id1 (equals_refl id1)))
      | inr apart ↦ apart
    ]

-- `commitDeletionTracking` removes exactly the nodes that are still tracked.
pub get_node-commit :
    (s : AlgoSorted) (id1 : Buffer)
    → IsConsistent s
    → AreDistinctKeys (keys s.deletion_tracking)
    → get_node (commit_deletion_tracking s) id1
      ≡ (if is_set (lookup id1 s.deletion_tracking) then none else get_node s id1)
unfolding commit_deletion_tracking get_node node_at is_among indexes_of
get_node-commit s id1 h d =
    get_node-delete s (indexes_of s (keys s.deletion_tracking)) id1 h
      (indexes-HasNoRepeat s (keys s.deletion_tracking) h d)
    ∙ known (lookup id1 s.node_index_by_id1) refl
  where
    no_node : Option NodeValues
    no_node = none

    untouched : (test : Bool) → no_node ≡ (if test then none else none)
    untouched true = refl
    untouched false = refl

    known :
        (o : Option ℕ)
        → lookup id1 s.node_index_by_id1 ≡ o
        → (if is_among o (indexes_of s (keys s.deletion_tracking)) then none else node_at s.nodes o)
          ≡ (if is_set (lookup id1 s.deletion_tracking) then none else node_at s.nodes o)
    known none e = untouched (is_set (lookup id1 s.deletion_tracking))
    known (some i) e = rw (among_keys s s.deletion_tracking id1 i h e) refl
