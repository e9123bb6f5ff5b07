-- ===== src/Crdt/RefId/Runs.antt =====
-- storage/crdt/AlgoRefId.ts: two runs of `indexNodes` from levels that are the same but for sorting.
use openodin.Prelude.{
  ℕ, ◌≡◌, refl, sym, ◌∙◌, ap, subst, Bool, Option, none, some, List, [], ◌∷◌, ◌++◌, All, arith,
}
use openodin.Prelude.Buffer.{Buffer}
use openodin.Prelude.Dict.{Dict}
use openodin.Prelude.Sorting.{sorted, IsOrder}
use openodin.Crdt.SortedRefId.{NodeValuesRefId}
use openodin.Crdt.RefId.{Pushed, push_if, then_push, and_then, push_nodes, find_level, sort_pushed}
use openodin.Crdt.RefId.Pushes.{
  AllLevels, AllLevels-push_at, sort_all, push_sorted, IsSettledFrom, sort_visited-settled,
  IsSettledFrom-push_at, sort_all-push_at,
}

pub push_nodes-append :
    (fuel : ℕ) (nodes : Dict NodeValuesRefId) (first second : List NodeValuesRefId)
    (pushed : Pushed)
    → push_nodes fuel nodes (first ++ second) pushed
      ≡ and_then (push_nodes fuel nodes first pushed) (push_nodes fuel nodes second)
unfolding push_nodes
push_nodes-append fuel nodes [] second pushed = refl
push_nodes-append fuel nodes (node ∷ first) second pushed =
    by_step (then_push (find_level fuel nodes node) node.id1 pushed)
      (push_nodes-append fuel nodes first second)
  where
    by_step :
        (step : Option Pushed)
        → ((next : Pushed)
            → push_nodes fuel nodes (first ++ second) next
              ≡ and_then (push_nodes fuel nodes first next) (push_nodes fuel nodes second))
        → and_then step (push_nodes fuel nodes (first ++ second))
          ≡ and_then (and_then step (push_nodes fuel nodes first)) (push_nodes fuel nodes second)
    by_step none deeper = refl
    by_step (some next) deeper = deeper next

module _ (after : Buffer → Buffer → Bool) (Fit : Buffer → Type 0) (order : IsOrder after Fit) where
  -- What is pushed is fit, and the levels that were not visited are sorted.
  abbrev pub IsGood : Pushed → Type 0
  IsGood (levels, visited) = AllLevels Fit levels × IsSettledFrom after visited 0 levels

  abbrev pub AreAlike : Pushed → Pushed → Type 0
  AreAlike p q = (sort_all after p.0 ≡ sort_all after q.0) × (IsGood p × IsGood q)

  -- Both runs end, with levels that are alike, or both run out of fuel.
  abbrev pub RunAlike : Option Pushed → Option Pushed → Type 0
  RunAlike none none = Unit
  RunAlike (some p) (some q) = AreAlike p q
  RunAlike _ _ = ⊥

  push_if-IsGood :
      (level : Option ℕ) (id1 : Buffer) (p : Pushed)
      → Fit id1
      → IsGood p
      → IsGood (push_if level id1 p)
  unfolding push_if
  push_if-IsGood none id1 p f good = good
  push_if-IsGood (some k) id1 (levels, visited) f (all, settled) = (
    AllLevels-push_at Fit k id1 levels f all,
    IsSettledFrom-push_at after visited k 0 k id1 levels (omega arith) settled,
  )

  push_if-sort_all :
      (level : Option ℕ) (id1 : Buffer) (p q : Pushed)
      → Fit id1
      → sort_all after p.0 ≡ sort_all after q.0
      → AllLevels Fit p.0
      → AllLevels Fit q.0
      → sort_all after (push_if level id1 p).0 ≡ sort_all after (push_if level id1 q).0
  unfolding push_if
  push_if-sort_all none id1 p q f same all all2 = same
  push_if-sort_all (some k) id1 (levels, visited) (levels2, visited2) f same all all2 =
      sort_all-push_at after Fit order k id1 levels f all
      ∙ ap (push_sorted after k id1) same
      ∙ sym (sort_all-push_at after Fit order k id1 levels2 f all2)

  push_if-AreAlike :
      (level : Option ℕ) (id1 : Buffer) (p q : Pushed)
      → Fit id1
      → AreAlike p q
      → AreAlike (push_if level id1 p) (push_if level id1 q)
  push_if-AreAlike level id1 p q f (same, (good, good2)) = (
    push_if-sort_all level id1 p q f same good.0 good2.0,
    (push_if-IsGood level id1 p f good, push_if-IsGood level id1 q f good2),
  )

  pub push_nodes-RunAlike :
      (fuel : ℕ) (nodes : Dict NodeValuesRefId) (added : List NodeValuesRefId) (p q : Pushed)
      → All (λ node. Fit node.id1) added
      → AreAlike p q
      → RunAlike (push_nodes fuel nodes added p) (push_nodes fuel nodes added q)
  unfolding push_nodes
  push_nodes-RunAlike fuel nodes [] p q fit alike = alike
  push_nodes-RunAlike fuel nodes (node ∷ added) p q fit alike =
      by_level (find_level fuel nodes node) (λ level.
        push_nodes-RunAlike fuel nodes added (push_if level node.id1 p) (push_if level node.id1 q)
          fit.1 (push_if-AreAlike level node.id1 p q fit.0 alike))
    where
      by_level :
          (found : Option (Option ℕ))
          → ((level : Option ℕ)
              → RunAlike
                  (push_nodes fuel nodes added (push_if level node.id1 p))
                  (push_nodes fuel nodes added (push_if level node.id1 q)))
          → RunAlike
              (and_then (then_push found node.id1 p) (push_nodes fuel nodes added))
              (and_then (then_push found node.id1 q) (push_nodes fuel nodes added))
      by_level none rest = tt
      by_level (some level) rest = rest level

  pub sort_pushed-some :
      (p : Pushed) → IsGood p → sort_pushed (sorted after) (some p) ≡ some (sort_all after p.0)
  unfolding sort_pushed
  sort_pushed-some (levels, visited) good =
      ap some (sort_visited-settled after visited 0 levels good.1)

  pub sort_pushed-RunAlike :
      (r s : Option Pushed)
      → RunAlike r s
      → sort_pushed (sorted after) r ≡ sort_pushed (sorted after) s
  unfolding sort_pushed
  sort_pushed-RunAlike none none h = refl
  sort_pushed-RunAlike (some p) (some q) h =
      sort_pushed-some p h.1.0 ∙ ap some h.0 ∙ sym (sort_pushed-some q h.1.1)
  sort_pushed-RunAlike none (some q) h = absurd h
  sort_pushed-RunAlike (some p) none h = absurd h

  RunAlike-IsGood :
      (run : Option Pushed) (result : Pushed) → run ≡ some result → RunAlike run run → IsGood result
  RunAlike-IsGood none result e h = absurd cc
  RunAlike-IsGood (some p) result e h = let is : p ≡ result = cc in subst IsGood is h.1.0

  -- A run from no levels, of fit nodes, gives good ones.
  pub push_nodes-IsGood :
      (fuel : ℕ) (nodes : Dict NodeValuesRefId) (values : List NodeValuesRefId) (result : Pushed)
      → All (λ node. Fit node.id1) values
      → push_nodes fuel nodes values ([], []) ≡ some result
      → IsGood result
  push_nodes-IsGood fuel nodes values result fit e =
      RunAlike-IsGood (push_nodes fuel nodes values ([], [])) result e
        (push_nodes-RunAlike fuel nodes values ([], []) ([], []) fit (refl, ((tt, tt), (tt, tt))))
