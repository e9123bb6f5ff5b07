-- ===== src/Prelude/Dict.antt =====
-- Dictionaries under bytes, as JavaScript objects keep them: in the order of insertion, each key once.
use mathlib.Core.Path.{◌≡◌, refl, sym, ◌∙◌}
use mathlib.Core.Bool.{Bool, true, false, false≢true}
use mathlib.Core.Option.{Option, none, some}
use mathlib.Core.List.{List, [], ◌∷◌}
use native.Mathlib.Omega.{arith}
use mathlib.Core.Logic.{inl, inr, ◌≢◌}
use openodin.Prelude.Lists.{All}
use openodin.Prelude.Tests.{if◌then◌else◌, Bool-cases}
use openodin.Prelude.Buffer.{Buffer, equals, equals→eq, equals_refl}

abbrev pub Dict : Type 0 → Type 0
Dict V = List (Buffer × V)

pub not_both :
    (k key other : Buffer) → equals k key ≡ false → equals k other ≡ true → equals key other ≡ false
not_both k key other differ same = elim (Bool-cases (equals key other)) [
  | inl e ↦ absurd (clash (equals→eq k other same) (equals→eq key other e))
  | inr e ↦ e
]
  where
    clash : k ≡ other → key ≡ other → ⊥
    clash p q = false≢true (sym differ ∙ rw (p, q) (equals_refl other))

module _ {V : Type 0} where
  -- `dict[key]`
  unfoldable pub lookup : Buffer → Dict V → Option V
  lookup key [] = none
  lookup key ((k, v) ∷ dict) = if equals k key then some v else lookup key dict

  -- `dict[key] = v`
  unfoldable pub put : Buffer → V → Dict V → Dict V
  put key v [] = (key, v) ∷ []
  put key v ((k, w) ∷ dict) =
      let rest = put key v dict in if equals k key then (k, v) ∷ dict else (k, w) ∷ rest

  -- `delete dict[key]`
  unfoldable pub remove : Buffer → Dict V → Dict V
  remove key [] = []
  remove key ((k, w) ∷ dict) =
      let rest = remove key dict in if equals k key then rest else (k, w) ∷ rest

  -- `Object.keys(dict)`
  unfoldable pub keys : Dict V → List Buffer
  keys [] = []
  keys ((k, v) ∷ dict) = k ∷ keys dict

  -- Tests of two different keys may be made in either order.
  pub in_either_order :
      (k key other : Buffer) (v w rest : Option V)
      → equals k key ≡ false
      → (if equals k other then w else if equals key other then v else rest)
        ≡ (if equals key other then v else if equals k other then w else rest)
  in_either_order k key other v w rest differ = elim (Bool-cases (equals k other)) [
    | inl same ↦ rw (same, not_both k key other differ same) refl
    | inr e ↦ rw e refl
  ]

  pub tested_once :
      (test : Bool) (v w rest : Option V)
      → (if test then v else rest) ≡ (if test then v else if test then w else rest)
  tested_once true v w rest = refl
  tested_once false v w rest = refl

  pub lookup-put :
      (key other : Buffer) (v : V) (dict : Dict V)
      → lookup other (put key v dict) ≡ (if equals key other then some v else lookup other dict)
  unfolding lookup put
  lookup-put key other v [] = refl
  lookup-put key other v ((k, w) ∷ dict) = elim (Bool-cases (equals k key)) [
    | inl same ↦ rw same (rw (← equals→eq k key same) (ground arith))
    | inr differ ↦ rw differ (
        rw (lookup-put key other v dict)
          (in_either_order k key other (some v) (some w) (lookup other dict) differ))
  ]

  pub lookup-remove :
      (key other : Buffer) (dict : Dict V)
      → lookup other (remove key dict) ≡ (if equals key other then none else lookup other dict)
  unfolding lookup remove
  lookup-remove key other [] = ground arith
  lookup-remove key other ((k, w) ∷ dict) = elim (Bool-cases (equals k key)) [
    | inl same ↦ rw same (
        rw (lookup-remove key other dict, ← equals→eq k key same)
          (tested_once (equals k other) none (some w) (lookup other dict)))
    | inr differ ↦ rw differ (
        rw (lookup-remove key other dict)
          (in_either_order k key other none (some w) (lookup other dict) differ))
  ]

-- No key stands twice.
abbrev pub AreDistinctKeys : List Buffer → Type 0
AreDistinctKeys [] = Unit
AreDistinctKeys (k ∷ ks) = All (λ other. other ≢ k) ks × AreDistinctKeys ks

module _ {V : Type 0} where
  keys-All-put :
      (P : Buffer → Type 0) (key : Buffer) (v : V) (dict : Dict V)
      → P key
      → All P (keys dict)
      → All P (keys (put key v dict))
  unfolding put keys
  keys-All-put P key v [] this h = (this, tt)
  keys-All-put P key v ((k, w) ∷ dict) this h = elim (Bool-cases (equals k key)) [
    | inl e ↦ rw e h
    | inr e ↦ rw e (h.0, keys-All-put P key v dict this h.1)
  ]

  pub put-AreDistinctKeys :
      (key : Buffer) (v : V) (dict : Dict V)
      → AreDistinctKeys (keys dict)
      → AreDistinctKeys (keys (put key v dict))
  unfolding put keys
  put-AreDistinctKeys key v [] h = (tt, tt)
  put-AreDistinctKeys key v ((k, w) ∷ dict) h = elim (Bool-cases (equals k key)) [
    | inl e ↦ rw e h
    | inr e ↦ rw e (
      keys-All-put (λ other. other ≢ k) key v dict (λ same. not_equal e (sym same)) h.0,
      put-AreDistinctKeys key v dict h.1,
    )
  ]
    where
      not_equal : equals k key ≡ false → k ≢ key
      not_equal e same = false≢true (sym e ∙ rw same (equals_refl key))

  keys-All-remove :
      (P : Buffer → Type 0) (key : Buffer) (dict : Dict V)
      → All P (keys dict)
      → All P (keys (remove key dict))
  unfolding remove keys
  keys-All-remove P key [] h = tt
  keys-All-remove P key ((k, w) ∷ dict) h = elim (Bool-cases (equals k key)) [
    | inl e ↦ rw e (keys-All-remove P key dict h.1)
    | inr e ↦ rw e (h.0, keys-All-remove P key dict h.1)
  ]

  pub remove-AreDistinctKeys :
      (key : Buffer) (dict : Dict V)
      → AreDistinctKeys (keys dict)
      → AreDistinctKeys (keys (remove key dict))
  unfolding remove keys
  remove-AreDistinctKeys key [] h = tt
  remove-AreDistinctKeys key ((k, w) ∷ dict) h = elim (Bool-cases (equals k key)) [
    | inl e ↦ rw e (remove-AreDistinctKeys key dict h.1)
    | inr e ↦
        rw e
          (keys-All-remove (λ other. other ≢ k) key dict h.0, remove-AreDistinctKeys key dict h.1)
  ]
