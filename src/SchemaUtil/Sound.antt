-- ===== src/SchemaUtil/Sound.antt =====
-- util/SchemaUtil.ts: what `ParseSchema` returns is as its schema describes.
use openodin.Prelude.{ℕ, suc, ◌≡◌, refl, subst, Bool, inl, inr, if-eq, List, [], ◌∷◌, ◌++◌, All}
use openodin.Prelude.Result.{Result, ok, error, ◌>>=◌, >>=-eq-ok}
use openodin.SchemaUtil.Values.{
  Text, Value, undefined, null, string, number, bigint, boolean, bytes, array, object,
  class_instance, function, Values, nil, cons, Fields, end, field, is_nothing, is_truthy,
}
use openodin.SchemaUtil.Entries.{Entry}
use openodin.SchemaUtil.Parse.{
  Runtime, map_items, parse_array, any_array, unless_nothing, bad_array, to_string, to_bytes,
  parse_schema, entries_of,
}
use openodin.SchemaUtil.Conforms.{AllValues, IsArrayOf, Conforms, HasField}
use openodin.SchemaUtil.Objects.{IsSound}
use openodin.SchemaUtil.Records.{parse_object-Described}

AllValues-map_items :
    (runtime : Runtime) (allow : Bool) (parser : Text → Value → Result Value) (P : Value → Type 0)
    (path : Text) (index : ℕ) (items parsed : Values)
    → ((at : Text) (item result : Value) → parser at item ≡ ok result → P result)
    → map_items runtime allow parser path index items ≡ ok parsed
    → AllValues P parsed
unfolding map_items
AllValues-map_items runtime allow parser P path index nil parsed fits run =
    let same : nil ≡ parsed = cc in subst (λ values. AllValues P values) same tt
AllValues-map_items runtime allow parser P path index (cons item rest) parsed fits run =
    let first =
      >>=-eq-ok (parser (path ++ 91 ∷ runtime.decimal index ++ 93 ∷ []) item)
        (λ first.
          map_items runtime allow parser path (suc index) rest >>= λ others. ok (cons first others))
        run in
    let later =
      >>=-eq-ok (map_items runtime allow parser path (suc index) rest)
        (λ others. ok (cons first.0 others)) first.2 in
    let same : cons first.0 later.0 ≡ parsed = let e = later.2 in cc in
    subst (λ values. AllValues P values) same
      (
        fits (path ++ 91 ∷ runtime.decimal index ++ 93 ∷ []) item first.0 first.1,
        AllValues-map_items runtime allow parser P path (suc index) rest later.0 fits later.1,
      )

-- What is built from a conversion is as all that is built so.
built :
    {A : Type 0} (P : Value → Type 0) (make : A → Value) (value : Value) (converted : Result A)
    (result : Value)
    → ((a : A) → P (make a))
    → unless_nothing value (converted >>= λ a. ok (make a)) ≡ ok result
    → P result
unfolding unless_nothing
built P make value converted result fits run = elim (if-eq (is_nothing value) run) [
  | inl nothing ↦ absurd (let e = nothing.1 in cc)
  | inr given ↦
      let found = >>=-eq-ok converted (λ a. ok (make a)) given.1 in
      let same : make found.0 ≡ result = let e = found.2 in cc in subst P same (fits found.0)
]

AllValues-any : (items : Values) → AllValues (λ item. Unit) items
AllValues-any nil = tt
AllValues-any (cons item rest) = (tt, AllValues-any rest)

any_array-IsArrayOf :
    (value result : Value)
    → unless_nothing value (any_array value) ≡ ok result
    → IsArrayOf (λ item. Unit) result
unfolding unless_nothing any_array
any_array-IsArrayOf (array items) result run =
    let same : array items ≡ result = cc in
    subst (IsArrayOf (λ item. Unit)) same (AllValues-any items)
any_array-IsArrayOf value result run = absurd cc

parse_array-IsArrayOf :
    (runtime : Runtime) (allow : Bool) (parser : Text → Value → Result Value) (P : Value → Type 0)
    (path : Text) (value result : Value)
    → ((at : Text) (item found : Value) → parser at item ≡ ok found → P found)
    → unless_nothing value (parse_array runtime allow parser path value) ≡ ok result
    → IsArrayOf P result
unfolding unless_nothing parse_array
parse_array-IsArrayOf runtime allow parser P path (array items) result fits run =
    let found =
      >>=-eq-ok (map_items runtime allow parser path 0 items) (λ parsed. ok (array parsed)) run in
    let same : array found.0 ≡ result = let e = found.2 in cc in
    subst (IsArrayOf P) same
      (AllValues-map_items runtime allow parser P path 0 items found.0 fits found.1)
parse_array-IsArrayOf runtime allow parser P path value result fits run = absurd cc

bad_array-none : (value result : Value) → unless_nothing value (bad_array value) ≡ ok result → ⊥
unfolding unless_nothing bad_array
bad_array-none (array items) result run = cc
bad_array-none value result run = cc

unknown_type :
    (value result : Value) → unless_nothing value (error "Unknown schema type") ≡ ok result → ⊥
unfolding unless_nothing
unknown_type value result run = elim (if-eq (is_nothing value) run) [
  | inl nothing ↦ let e = nothing.1 in cc
  | inr given ↦ let e = given.1 in cc
]

module _ (runtime : Runtime) (allow : Bool) where
  widened :
      (schema rest : Fields) (key : Text) (sub : Value) (entries : List Entry)
      → All (IsSound runtime allow schema (λ k v. HasField rest k v)) entries
      → All (IsSound runtime allow schema (λ k v. HasField (field key sub rest) k v)) entries
  unfolding Conforms
  widened schema rest key sub [] h = tt
  widened schema rest key sub (entry ∷ entries) h = (
    λ path value result run. inr (h.0 path value result run),
    widened schema rest key sub entries h.1,
  )

  mutual
    unfolding parse_schema Conforms

    described :
        (schema parent : Value) (path : Text) (value result : Value)
        → parse_schema runtime allow schema parent path value ≡ ok result
        → Conforms schema result
    described (function f) parent path value result run = tt
    described (string text) parent path value result run =
        built (Conforms (string text)) string value (to_string runtime allow value) result (λ a. tt)
          run
    described (number bits) parent path value result run =
        built (Conforms (number bits)) number value (runtime.to_number value) result (λ a. tt) run
    described (bigint n) parent path value result run =
        built (Conforms (bigint n)) bigint value (runtime.to_bigint value) result (λ a. tt) run
    described (boolean b) parent path value result run =
        built (Conforms (boolean b)) boolean value (ok (is_truthy value)) result (λ a. tt) run
    described (bytes buffer) parent path value result run =
        built (Conforms (bytes buffer)) bytes value (to_bytes runtime allow value) result (λ a. tt)
          run
    described (object schema) parent path value result run =
        parse_object-Described runtime allow schema (λ k v. HasField schema k v) (object schema)
          (entries_of-IsSound schema schema (object schema)) path value result run
    described (array nil) parent path value result run = any_array-IsArrayOf value result run
    described (array (cons sub nil)) parent path value result run =
        parse_array-IsArrayOf runtime allow
          (λ at item. parse_schema runtime allow sub (array (cons sub nil)) at item)
          (λ item. Conforms sub item) path value result
          (λ at item found. described sub (array (cons sub nil)) at item found) run
    described (array (cons sub (cons other more))) parent path value result run =
        bad_array-none value result run
    described undefined parent path value result run = unknown_type value result run
    described null parent path value result run = unknown_type value result run
    described (class_instance fields) parent path value result run = unknown_type value result run

    entries_of-IsSound :
        (whole schema : Fields) (parent : Value)
        → All
            (IsSound runtime allow whole (λ k v. HasField schema k v))
            (entries_of runtime allow schema parent)
    entries_of-IsSound whole end parent = tt
    entries_of-IsSound whole (field key sub rest) parent = (
      λ path value result run. inl (refl, described sub parent path value result run),
      widened whole rest key sub (entries_of runtime allow rest parent)
          (entries_of-IsSound whole rest parent),
    )

-- What `ParseSchema` returns is as the schema describes: of the type of a scalar schema, an array of
-- what its one element describes, or an object whose properties are each described by the key that
-- governs it and that has every key but default ones, undefined ones and those with two question
-- marks. Functions of the schema return what they like, as does `_postFn`.
pub parse_schema-Conforms :
    (runtime : Runtime) (allow : Bool) (schema parent : Value) (path : Text) (value result : Value)
    → parse_schema runtime allow schema parent path value ≡ ok result
    → Conforms schema result
parse_schema-Conforms runtime allow schema parent path value result run =
    described runtime allow schema parent path value result run
