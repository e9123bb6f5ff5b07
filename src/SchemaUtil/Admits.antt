-- ===== src/SchemaUtil/Admits.antt =====
-- util/SchemaUtil.ts: the objects that `ParseSchema` takes, and those that it refuses.
use openodin.Prelude.{
  ◌≡◌, refl, subst, Bool, true, false, ◌||◌, ◌==◌, ◌⊎◌, inl, inr, Bool-cases, List, [], ◌∷◌, All,
  any, arith,
}
use openodin.Prelude.Buffer.{equals}
use openodin.Prelude.Result.{ok, ◌>>=◌, >>=-eq-ok}
use openodin.SchemaUtil.Values.{
  Text, Value, object, Fields, end, field, is_nothing, is_undefined, lookup,
}
use openodin.SchemaUtil.Entries.{
  Entry, starts_with, comment_mark, post_fn, name_of, marks, is_named, schema_keys,
}
use openodin.SchemaUtil.Parse.{
  Runtime, run_post, unknown_fields, known_fields, parse_fields_of, parse_object, unless_nothing,
  parse_schema, entries_of,
}
use openodin.SchemaUtil.Conforms.{AllFields, IsOpen}
use openodin.SchemaUtil.Keys.{All-schema_keys}
use openodin.SchemaUtil.Records.{from_keys, IsOpen-none}
use openodin.SchemaUtil.Refuses.{known_fields-given, unknown_fields-known}

-- The schema has a key of the name.
abbrev pub names : Fields → Text → Bool
names end name = false
names (field key sub rest) name = equals (name_of key) name || names rest name

-- Each property that has a value and is not a comment is named, unless there is a default key.
abbrev pub IsKnownBy : Fields → Text → Value → Type 0
IsKnownBy schema name value =
    is_nothing value ≡ false
    → starts_with name comment_mark ≡ false
    → (names schema name ≡ true) ⊎ (names schema [] ≡ true)

-- What a key without question marks asks for has a value.
abbrev pub IsGivenIn : Fields → Text → Value → Type 0
IsGivenIn fields key sub =
    equals (name_of key) post_fn ≡ false
    → equals (name_of key) [] ≡ false
    → is_undefined sub ≡ false
    → (marks key == 0) ≡ true
    → is_nothing (lookup (name_of key) fields) ≡ false

any-none : {A : Type 0} (p : A → Bool) (xs : List A) → All (λ x. p x ≡ false) xs → any p xs ≡ false
any-none p [] h = refl
any-none p (x ∷ xs) h = rw h.0 (any-none p xs h.1)

module _ (runtime : Runtime) (schema : Fields) (parent : Value) where
  entries_of-unnamed :
      (rest : Fields) (name : Text)
      → names rest name ≡ false
      → All (λ entry. is_named name entry ≡ false) (entries_of runtime false rest parent)
  unfolding parse_schema
  entries_of-unnamed end name h = tt
  entries_of-unnamed (field key sub rest) name h =
      (ground arith, entries_of-unnamed rest name (ground arith))

  -- What a sorted key names, the schema names.
  any-names :
      (name : Text)
      → any (is_named name) (schema_keys (entries_of runtime false schema parent)) ≡ true
      → names schema name ≡ true
  any-names name h = elim (Bool-cases (names schema name)) [
    | inl e ↦ e
    | inr e ↦ absurd (
        let none_named =
          any-none (is_named name) (schema_keys (entries_of runtime false schema parent)) (
            All-schema_keys (λ entry. is_named name entry ≡ false)
              (entries_of runtime false schema parent) (entries_of-unnamed schema name e)) in
        cc)
  ]

  all_known :
      (fields : Fields)
      → AllFields
          (λ name value.
            is_nothing value ≡ false
            → starts_with name comment_mark ≡ false
            → (any (is_named name) (schema_keys (entries_of runtime false schema parent)) ≡ true)
              ⊎ (any (is_named []) (schema_keys (entries_of runtime false schema parent)) ≡ true))
          fields
      → AllFields (IsKnownBy schema) fields
  all_known end h = tt
  all_known (field name value rest) h = (
    λ given plain. elim (h.0 given plain) [
      | inl known ↦ inl (any-names name known)
      | inr default ↦ inr (any-names [] default)
    ],
    all_known rest h.1,
  )

  abbrev Admits : Fields → Type 0
  Admits fields =
      IsOpen schema ⊎ (AllFields (IsKnownBy schema) fields × AllFields (IsGivenIn fields) schema)

  from_sorted :
      (sorted_keys : List Entry) (path : Text) (fields : Fields) (result : Value)
      → sorted_keys ≡ schema_keys (entries_of runtime false schema parent)
      → parse_fields_of runtime false (lookup post_fn schema) sorted_keys path fields ≡ ok result
      → Admits fields
  unfolding parse_fields_of
  from_sorted [] path fields result same run = inl (
      IsOpen-none schema (
        from_keys runtime false schema parent (λ key sub. ⊥)
          (subst (λ es. All (λ entry. ⊥) es) same tt)))
  from_sorted (entry ∷ rest) path fields result same run =
      let found =
        >>=-eq-ok (unknown_fields runtime false (entry ∷ rest) path fields end)
          (λ aliens. known_fields runtime false (entry ∷ rest) path fields aliens >>= λ parsed.
            run_post runtime.call_post (lookup post_fn schema) (object parsed))
          run in
      let later =
        >>=-eq-ok (known_fields runtime false (entry ∷ rest) path fields found.0)
          (λ parsed. run_post runtime.call_post (lookup post_fn schema) (object parsed)) found.2 in
      inr (
        all_known fields (
            subst
              (λ es.
                AllFields
                  (λ name value.
                    is_nothing value ≡ false
                    → starts_with name comment_mark ≡ false
                    → (any (is_named name) es ≡ true) ⊎ (any (is_named []) es ≡ true))
                  fields)
              same (unknown_fields-known runtime (entry ∷ rest) path fields end found.0 found.1)),
        from_keys runtime false schema parent
            (λ key sub.
              equals (name_of key) [] ≡ false
              → is_undefined sub ≡ false
              → (marks key == 0) ≡ true
              → is_nothing (lookup (name_of key) fields) ≡ false)
            (subst
              (λ es.
                All
                  (λ e.
                    equals (name_of e.key) [] ≡ false
                    → is_undefined e.sub ≡ false
                    → (marks e.key == 0) ≡ true
                    → is_nothing (lookup (name_of e.key) fields) ≡ false)
                  es)
              same
              (known_fields-given runtime false (entry ∷ rest) path fields found.0 later.0
                later.1)),
      )

-- Without alien keys, an object that is parsed by an object schema has a value for each key without
-- question marks whose schema is not undefined, and each of its properties that has a value and is no
-- comment is a key of the schema, unless the schema has a default key; or the schema has no keys.
pub parse_schema-Admits :
    (runtime : Runtime) (schema : Fields) (parent : Value) (path : Text) (fields : Fields)
    (result : Value)
    → parse_schema runtime false (object schema) parent path (object fields) ≡ ok result
    → IsOpen schema ⊎ (AllFields (IsKnownBy schema) fields × AllFields (IsGivenIn fields) schema)
unfolding parse_schema parse_object unless_nothing
parse_schema-Admits runtime schema parent path fields result run =
    from_sorted runtime schema (object schema)
      (schema_keys (entries_of runtime false schema (object schema))) path fields result refl run
