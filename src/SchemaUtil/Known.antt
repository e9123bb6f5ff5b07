-- ===== src/SchemaUtil/Known.antt =====
-- util/SchemaUtil.ts: the properties that the keys of the schema give.
use openodin.Prelude.{
  ◌⊎◌, arith, ◌≡◌, refl, subst, Bool, true, false, ◌||◌, ◌==◌, inl, inr, if-eq, List, [], ◌∷◌, All,
}
use openodin.Prelude.Buffer.{equals}
use openodin.Prelude.Result.{ok, >>=-eq-ok}
use openodin.SchemaUtil.Values.{Text, Value, Fields, is_nothing, is_undefined, lookup}
use openodin.SchemaUtil.Entries.{Entry, name_of, marks, is_named}
use openodin.SchemaUtil.Parse.{
  Runtime, parse_into, default_of, missing_field, known_field, known_fields, member,
}
use openodin.SchemaUtil.Conforms.{AllFields, Contains}
use openodin.SchemaUtil.Objects.{
  Governed, IsSound, parse_into-AllFields, parse_into-Contains, Contains-parse_into,
}

module _ (runtime : Runtime) (allow : Bool) (entry : Entry) (path : Text)
    (parsed next : Fields) where
  -- A known key is left out, or it is parsed from a value.
  abbrev IsLeftOut : Type 0
  IsLeftOut =
      (ok parsed ≡ ok next)
      × ((equals (name_of entry.key) [] || is_undefined entry.sub || marks entry.key == 2) ≡ true)

  abbrev IsParsed : Type 0
  IsParsed =
      (value : Value) × (parse_into runtime allow entry path (name_of entry.key) value parsed
        ≡ ok next)

  missing_field-eq :
      (value : Value)
      → missing_field runtime allow entry path value parsed ≡ ok next
      → ((ok parsed ≡ ok next) × ((marks entry.key == 2) ≡ true)) ⊎ IsParsed
  unfolding missing_field
  missing_field-eq value run = elim (if-eq (marks entry.key == 0) run) [
    | inl required ↦ absurd (let e = required.1 in cc)
    | inr optional ↦ elim (if-eq (marks entry.key == 2) optional.1) [
      | inl left_out ↦ inl (left_out.1, left_out.0)
      | inr set ↦
          let found =
            >>=-eq-ok (default_of entry.sub value)
              (λ default. parse_into runtime allow entry path (name_of entry.key) default parsed)
              set.1 in
          inr (found.0, found.2)
    ]
  ]

  known_field-eq :
      (fields : Fields)
      → known_field runtime allow entry path fields parsed ≡ ok next
      → IsLeftOut ⊎ IsParsed
  unfolding known_field
  known_field-eq fields run = elim (if-eq (is_named [] entry || is_undefined entry.sub) run) [
    | inl skipped ↦ inl (skipped.1, ground (arith, skipped.0))
    | inr known ↦ elim (if-eq (is_nothing (lookup (name_of entry.key) fields)) known.1) [
      | inl missing ↦ elim (missing_field-eq (lookup (name_of entry.key) fields) missing.1) [
        | inl left_out ↦ inl (left_out.0, ground (arith, left_out.1))
        | inr set ↦ inr set
      ]
      | inr given ↦ inr (lookup (name_of entry.key) fields, given.1)
    ]
  ]

  Contains-known_field :
      (name : Text) (fields : Fields)
      → known_field runtime allow entry path fields parsed ≡ ok next
      → Contains name parsed
      → Contains name next
  Contains-known_field name fields run h = elim (known_field-eq fields run) [
    | inl left_out ↦
        let same : parsed ≡ next = let e = left_out.0 in cc in
        subst (λ set. Contains name set) same h
    | inr set ↦
        Contains-parse_into runtime allow entry path (name_of entry.key) name set.0 parsed next
          set.1 h
  ]

  known_field-Governed :
      (schema : Fields) (Describes : Text → Value → Type 0) (fields : Fields)
      → IsSound runtime allow schema Describes entry
      → AllFields (Governed runtime allow schema Describes) parsed
      → known_field runtime allow entry path fields parsed ≡ ok next
      → AllFields (Governed runtime allow schema Describes) next
  known_field-Governed schema Describes fields sound h run = elim (known_field-eq fields run) [
    | inl left_out ↦
        let same : parsed ≡ next = let e = left_out.0 in cc in
        subst (λ set. AllFields (Governed runtime allow schema Describes) set) same h
    | inr set ↦
        parse_into-AllFields runtime allow (Governed runtime allow schema Describes) entry path
          (name_of entry.key) set.0 parsed next
          (λ result found.
            (entry.key, inl refl, sound (member path (name_of entry.key)) set.0 result found))
          h set.1
  ]

-- A key that has to be set is there.
abbrev pub IsSetIn : Fields → Entry → Type 0
IsSetIn parsed entry =
    equals (name_of entry.key) [] ≡ false
    → is_undefined entry.sub ≡ false
    → (marks entry.key == 2) ≡ false
    → Contains (name_of entry.key) parsed

module _ (runtime : Runtime) (allow : Bool) where
  known_field-IsSetIn :
      (entry : Entry) (path : Text) (fields parsed next : Fields)
      → known_field runtime allow entry path fields parsed ≡ ok next
      → IsSetIn next entry
  known_field-IsSetIn entry path fields parsed next run named given marked =
      elim (known_field-eq runtime allow entry path parsed next fields run) [
        | inl left_out ↦ absurd (let some_reason = left_out.1 in ground arith)
        | inr set ↦
            parse_into-Contains runtime allow entry path (name_of entry.key) set.0 parsed next set.1
      ]

  Contains-known_fields :
      (entries : List Entry) (name path : Text) (fields parsed next : Fields)
      → known_fields runtime allow entries path fields parsed ≡ ok next
      → Contains name parsed
      → Contains name next
  unfolding known_fields
  Contains-known_fields [] name path fields parsed next run h =
      let same : parsed ≡ next = cc in subst (λ set. Contains name set) same h
  Contains-known_fields (entry ∷ entries) name path fields parsed next run h =
      let found =
        >>=-eq-ok (known_field runtime allow entry path fields parsed)
          (λ later. known_fields runtime allow entries path fields later) run in
      Contains-known_fields entries name path fields found.0 next found.2
        (Contains-known_field runtime allow entry path parsed found.0 name fields found.1 h)

  pub known_fields-IsSetIn :
      (entries : List Entry) (path : Text) (fields parsed next : Fields)
      → known_fields runtime allow entries path fields parsed ≡ ok next
      → All (IsSetIn next) entries
  unfolding known_fields
  known_fields-IsSetIn [] path fields parsed next run = tt
  known_fields-IsSetIn (entry ∷ entries) path fields parsed next run =
      let found =
        >>=-eq-ok (known_field runtime allow entry path fields parsed)
          (λ later. known_fields runtime allow entries path fields later) run in
      (
        λ named given marked.
            Contains-known_fields entries (name_of entry.key) path fields found.0 next found.2
              (known_field-IsSetIn entry path fields parsed found.0 found.1 named given marked),
        known_fields-IsSetIn entries path fields found.0 next found.2,
      )

  pub known_fields-Governed :
      (schema : Fields) (Describes : Text → Value → Type 0) (entries : List Entry) (path : Text)
      (fields parsed next : Fields)
      → All (IsSound runtime allow schema Describes) entries
      → AllFields (Governed runtime allow schema Describes) parsed
      → known_fields runtime allow entries path fields parsed ≡ ok next
      → AllFields (Governed runtime allow schema Describes) next
  unfolding known_fields
  known_fields-Governed schema Describes [] path fields parsed next sound h run =
      let same : parsed ≡ next = cc in
      subst (λ set. AllFields (Governed runtime allow schema Describes) set) same h
  known_fields-Governed schema Describes (entry ∷ entries) path fields parsed next sound h run =
      let found =
        >>=-eq-ok (known_field runtime allow entry path fields parsed)
          (λ later. known_fields runtime allow entries path fields later) run in
      known_fields-Governed schema Describes entries path fields found.0 next sound.1
        (known_field-Governed runtime allow entry path parsed found.0 schema Describes fields
          sound.0 h found.1)
        found.2
