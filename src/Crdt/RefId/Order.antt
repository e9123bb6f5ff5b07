-- ===== src/Crdt/RefId/Order.antt =====
-- storage/crdt/AlgoRefId.ts: `sort` orders the identities of known nodes totally.
use openodin.Prelude.{◌≡◌, refl, sym, ◌∙◌, Bool, some}
use openodin.Prelude.Buffer.{Buffer}
use openodin.Prelude.Dict.{Dict, lookup}
use openodin.Prelude.Sorting.{IsOrder}
use openodin.Crdt.Sorted.Order.{Precedes-swap, Precedes-trans, Precedes-antisym}
use openodin.Crdt.SortedRefId.{NodeValuesRefId, is_greater}
use openodin.Crdt.RefId.{greater_of, is_after}

-- There is a node under the identity, and it is its own.
abbrev pub IsKnown : Dict NodeValuesRefId → Buffer → Type 0
IsKnown nodes id1 = (node : NodeValuesRefId) × (lookup id1 nodes ≡ some node) × (node.id1 ≡ id1)

module _ (by_storage_time : Bool) (nodes : Dict NodeValuesRefId) where
  compared :
      (a b : Buffer) (x y : NodeValuesRefId)
      → lookup a nodes ≡ some x
      → lookup b nodes ≡ some y
      → is_after by_storage_time nodes a b ≡ is_greater by_storage_time x y
  unfolding is_after greater_of
  compared a b x y p q = rw (p, q) refl

  pub is_after-IsOrder : IsOrder (is_after by_storage_time nodes) (IsKnown nodes)
  unfolding is_greater
  is_after-IsOrder = record {
    one_way = λ a b (x, p, i) (y, q, j) e.
        compared b a y x q p
        ∙ Precedes-swap by_storage_time x.values y.values (sym (compared a b x y p q) ∙ e);
    step = λ a b c (x, p, i) (y, q, j) (z, r, k) e f.
        compared a c x z p r
        ∙ Precedes-trans by_storage_time x.values y.values z.values (sym (compared a b x y p q) ∙ e)
            (sym (compared b c y z q r) ∙ f);
    same = λ a b (x, p, i) (y, q, j) e f.
        sym i
        ∙ Precedes-antisym by_storage_time x.values y.values (sym (compared a b x y p q) ∙ e)
            (sym (compared b a y x q p) ∙ f)
        ∙ j;
  }
