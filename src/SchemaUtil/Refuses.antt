-- ===== src/SchemaUtil/Refuses.antt =====
-- util/SchemaUtil.ts: what the keys and the properties have to be for an object to be parsed.
use openodin.Prelude.{
  ◌≡◌, refl, Bool, true, false, ◌||◌, ◌==◌, ◌⊎◌, inl, inr, if-eq, List, [], ◌∷◌, All, any, arith,
}
use openodin.Prelude.Buffer.{equals}
use openodin.Prelude.Result.{ok, >>=-eq-ok}
use openodin.SchemaUtil.Values.{Text, Value, Fields, end, field, is_nothing, is_undefined, lookup}
use openodin.SchemaUtil.Entries.{Entry, starts_with, comment_mark, name_of, marks, is_named}
use openodin.SchemaUtil.Parse.{
  Runtime, unnamed_field, unknown_field, unknown_fields, missing_field, known_field, known_fields,
}
use openodin.SchemaUtil.Conforms.{AllFields}

module _ (runtime : Runtime) (allow : Bool) where
  missing_field-optional :
      (entry : Entry) (path : Text) (value : Value) (parsed next : Fields)
      → missing_field runtime allow entry path value parsed ≡ ok next
      → (marks entry.key == 0) ≡ false
  unfolding missing_field
  missing_field-optional entry path value parsed next run =
      elim (if-eq (marks entry.key == 0) run) [
        | inl required ↦ absurd (let e = required.1 in cc)
        | inr optional ↦ optional.0
      ]

  known_field-given :
      (entry : Entry) (path : Text) (fields parsed next : Fields)
      → known_field runtime allow entry path fields parsed ≡ ok next
      → equals (name_of entry.key) [] ≡ false
      → is_undefined entry.sub ≡ false
      → (marks entry.key == 0) ≡ true
      → is_nothing (lookup (name_of entry.key) fields) ≡ false
  unfolding known_field
  known_field-given entry path fields parsed next run named defined required =
      elim (if-eq (is_named [] entry || is_undefined entry.sub) run) [
        | inl skipped ↦ absurd (let e = skipped.0 in ground arith)
        | inr known ↦ elim (if-eq (is_nothing (lookup (name_of entry.key) fields)) known.1) [
          | inl missing ↦ absurd (
              let optional =
                missing_field-optional entry path (lookup (name_of entry.key) fields) parsed next
                  missing.1 in
              cc)
          | inr given ↦ given.0
        ]
      ]

  pub known_fields-given :
      (entries : List Entry) (path : Text) (fields parsed next : Fields)
      → known_fields runtime allow entries path fields parsed ≡ ok next
      → All
          (λ entry.
            equals (name_of entry.key) [] ≡ false
            → is_undefined entry.sub ≡ false
            → (marks entry.key == 0) ≡ true
            → is_nothing (lookup (name_of entry.key) fields) ≡ false)
          entries
  unfolding known_fields
  known_fields-given [] path fields parsed next run = tt
  known_fields-given (entry ∷ entries) path fields parsed next run =
      let found =
        >>=-eq-ok (known_field runtime allow entry path fields parsed)
          (λ later. known_fields runtime allow entries path fields later) run in
      (
        known_field-given entry path fields parsed found.0 found.1,
        known_fields-given entries path fields found.0 next found.2,
      )

module _ (runtime : Runtime) where
  unnamed_field-default :
      (entries : List Entry) (path name : Text) (value : Value) (parsed next : Fields)
      → unnamed_field runtime false entries path name value parsed ≡ ok next
      → any (is_named []) entries ≡ true
  unfolding unnamed_field
  unnamed_field-default [] path name value parsed next run = cc
  unnamed_field-default (first ∷ rest) path name value parsed next run =
      elim (if-eq (is_named [] first) run) [
        | inl taken ↦ rw taken.0 refl
        | inr other ↦ absurd (let e = other.1 in cc)
      ]

  -- A property is skipped, or a key has its name, or there is a default key.
  unknown_field-known :
      (entries : List Entry) (path name : Text) (value : Value) (parsed next : Fields)
      → unknown_field runtime false entries path name value parsed ≡ ok next
      → is_nothing value ≡ false
      → starts_with name comment_mark ≡ false
      → (any (is_named name) entries ≡ true) ⊎ (any (is_named []) entries ≡ true)
  unfolding unknown_field
  unknown_field-known entries path name value parsed next run given plain =
      elim (if-eq (is_nothing value || starts_with name comment_mark) run) [
        | inl skipped ↦ absurd (let e = skipped.0 in ground arith)
        | inr taken ↦ elim (if-eq (any (is_named name) entries) taken.1) [
          | inl known ↦ inl known.0
          | inr alien ↦ inr (unnamed_field-default entries path name value parsed next alien.1)
        ]
      ]

  pub unknown_fields-known :
      (entries : List Entry) (path : Text) (fields parsed next : Fields)
      → unknown_fields runtime false entries path fields parsed ≡ ok next
      → AllFields
          (λ name value.
            is_nothing value ≡ false
            → starts_with name comment_mark ≡ false
            → (any (is_named name) entries ≡ true) ⊎ (any (is_named []) entries ≡ true))
          fields
  unfolding unknown_fields
  unknown_fields-known entries path end parsed next run = tt
  unknown_fields-known entries path (field name value rest) parsed next run =
      let found =
        >>=-eq-ok (unknown_field runtime false entries path name value parsed)
          (λ later. unknown_fields runtime false entries path rest later) run in
      (
        unknown_field-known entries path name value parsed found.0 found.1,
        unknown_fields-known entries path rest found.0 next found.2,
      )
