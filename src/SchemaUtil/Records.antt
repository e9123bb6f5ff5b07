-- ===== src/SchemaUtil/Records.antt =====
-- util/SchemaUtil.ts: the objects that `ParseSchema` returns for schemas that are objects.
use openodin.Prelude.{
  ◌⊎◌, Bool-cases, ℕ, ◌≡◌, refl, sym, subst, Bool, true, false, inl, inr, if-eq, if◌then◌else◌,
  List, [], ◌∷◌, All, any,
}
use openodin.Prelude.Buffer.{equals}
use openodin.Prelude.Result.{Result, ok, error, ◌>>=◌, >>=-eq-ok}
use openodin.SchemaUtil.Values.{
  Text, Value, object, function, Fields, end, field, is_truthy, lookup, deep_copy, deep_copy_fields,
}
use openodin.SchemaUtil.Entries.{Entry, post_fn, name_of, is_named, schema_keys}
use openodin.SchemaUtil.Parse.{
  Runtime, run_post, unknown_fields, known_fields, parse_fields_of, parse_object, unless_nothing,
  entries_of,
}
use openodin.SchemaUtil.Conforms.{AllFields, IsObject, IsUnnamed, IsOpen, IsRecordOf}
use openodin.SchemaUtil.Keys.{All-schema_keys, schema_keys-All, entries_of-All}
use openodin.SchemaUtil.Objects.{IsSound, any-All, unknown_fields-Governed}
use openodin.SchemaUtil.Known.{IsSetIn, known_fields-Governed, known_fields-IsSetIn}

unless_truthy :
    (none_such value result : Value)
    → (if is_truthy none_such then error "schema._postFn is not a function" else ok value)
      ≡ ok result
    → (is_truthy none_such ≡ true) ⊎ (value ≡ result)
unless_truthy none_such value result run = elim (if-eq (is_truthy none_such) run) [
  | inl called ↦ inl called.0
  | inr unset ↦ inr (let e = unset.1 in cc)
]

-- `_postFn` is called only when it is set.
run_post-eq :
    (post : ℕ → Value → Result Value) (none_such value result : Value)
    → run_post post none_such value ≡ ok result
    → (is_truthy none_such ≡ true) ⊎ (value ≡ result)
unfolding run_post is_truthy
run_post-eq post (function f) value result run = inl refl
run_post-eq post none_such value result run = unless_truthy none_such value result run

deep_copy-IsObject :
    (fields : Fields) (copied : Value) → deep_copy (object fields) ≡ ok copied → IsObject copied
unfolding deep_copy
deep_copy-IsObject fields copied run =
    let found = >>=-eq-ok (deep_copy_fields fields) (λ copied. ok (object copied)) run in
    let same : object found.0 ≡ copied = let e = found.2 in cc in subst IsObject same tt

pub IsOpen-none :
    (schema : Fields)
    → AllFields (λ key sub. equals (name_of key) post_fn ≡ false → ⊥) schema
    → IsOpen schema
IsOpen-none end h = tt
IsOpen-none (field key sub rest) h = (
  elim (Bool-cases (equals (name_of key) post_fn)) [ inl e ↦ e | inr e ↦ absurd (h.0 e) ],
  IsOpen-none rest h.1,
)

-- What holds of the sorted keys holds of the keys of the schema.
pub from_keys :
    (runtime : Runtime) (allow : Bool) (schema : Fields) (parent : Value)
    (P : Text → Value → Type 0)
    → All (λ entry. P entry.key entry.sub) (schema_keys (entries_of runtime allow schema parent))
    → AllFields (λ key sub. equals (name_of key) post_fn ≡ false → P key sub) schema
from_keys runtime allow schema parent P h =
    entries_of-All runtime allow (λ key sub. equals (name_of key) post_fn ≡ false → P key sub)
      schema parent
      (schema_keys-All (λ entry. P entry.key entry.sub) (entries_of runtime allow schema parent) h)

module _ (runtime : Runtime) (allow : Bool) (schema : Fields) (Describes : Text → Value → Type 0)
    (parent : Value)
    (sound : All
      (IsSound runtime allow schema Describes)
      (entries_of runtime allow schema parent)) where
  abbrev entries : List Entry
  entries = entries_of runtime allow schema parent

  abbrev keys : List Entry
  keys = schema_keys entries

  unnamed : (name : Text) → any (is_named name) keys ≡ false → IsUnnamed schema name
  unnamed name h =
      from_keys runtime allow schema parent (λ key sub. equals (name_of key) name ≡ false)
        (any-All (is_named name) keys h)

  abbrev Described : Value → Type 0
  Described value =
      (is_truthy (lookup post_fn schema) ≡ true)
      ⊎ (IsOpen schema × IsObject value)
      ⊎ IsRecordOf schema Describes value

  parse_fields_of-Described :
      (sorted_keys : List Entry) (path : Text) (fields : Fields) (result : Value)
      → sorted_keys ≡ keys
      → parse_fields_of runtime allow (lookup post_fn schema) sorted_keys path fields ≡ ok result
      → Described result
  unfolding parse_fields_of
  parse_fields_of-Described [] path fields result same run =
      let found =
        >>=-eq-ok (deep_copy (object fields))
          (λ copied. run_post runtime.call_post (lookup post_fn schema) copied) run in
      elim (run_post-eq runtime.call_post (lookup post_fn schema) found.0 result found.2) [
        | inl called ↦ inl called
        | inr unset ↦
            inr (inl (no_keys, subst IsObject unset (deep_copy-IsObject fields found.0 found.1)))
      ]
    where
      no_keys : IsOpen schema
      no_keys = IsOpen-none schema (
          from_keys runtime allow schema parent (λ key sub. ⊥)
            (subst (λ es. All (λ entry. ⊥) es) same tt))
  parse_fields_of-Described (entry ∷ rest) path fields result same run =
      let found =
        >>=-eq-ok (unknown_fields runtime allow (entry ∷ rest) path fields end)
          (λ aliens. known_fields runtime allow (entry ∷ rest) path fields aliens >>= λ parsed.
            run_post runtime.call_post (lookup post_fn schema) (object parsed))
          run in
      let later =
        >>=-eq-ok (known_fields runtime allow (entry ∷ rest) path fields found.0)
          (λ parsed. run_post runtime.call_post (lookup post_fn schema) (object parsed)) found.2 in
      elim (run_post-eq runtime.call_post (lookup post_fn schema) (object later.0) result later.2) [
        | inl called ↦ inl called
        | inr unset ↦ inr (
            inr (
              subst (λ value. IsRecordOf schema Describes value) unset
                (
                  known_fields-Governed runtime allow schema Describes (entry ∷ rest) path fields
                      found.0 later.0 all_sound
                      (unknown_fields-Governed runtime allow schema Describes (entry ∷ rest)
                        all_sound
                        (λ name.
                          subst (λ es. any (is_named name) es ≡ false → IsUnnamed schema name)
                            (sym same) (unnamed name))
                        path fields end found.0 tt found.1)
                      later.1,
                  from_keys runtime allow schema parent
                      (λ key sub.
                        IsSetIn later.0
                          (record { key = key; sub = sub; run = λ at value. ok value }))
                      (subst (λ es. All (IsSetIn later.0) es) same
                        (known_fields-IsSetIn runtime allow (entry ∷ rest) path fields found.0
                          later.0 later.1)),
                )))
      ]
    where
      all_sound : All (IsSound runtime allow schema Describes) (entry ∷ rest)
      all_sound =
          subst (λ es. All (IsSound runtime allow schema Describes) es) (sym same)
            (All-schema_keys (IsSound runtime allow schema Describes) entries sound)

  pub parse_object-Described :
      (path : Text) (value result : Value)
      → unless_nothing value (parse_object runtime allow (lookup post_fn schema) entries path value)
        ≡ ok result
      → Described result
  unfolding parse_object unless_nothing
  parse_object-Described path (object fields) result run =
      parse_fields_of-Described keys path fields result refl run
  parse_object-Described path value result run = absurd cc
