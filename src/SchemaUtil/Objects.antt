-- ===== src/SchemaUtil/Objects.antt =====
-- util/SchemaUtil.ts: the properties that `ParseSchema` sets, and those that it has to set.
use openodin.Prelude.{
  ◌≡◌, refl, sym, subst, Bool, true, false, ◌||◌, inl, inr, if-eq, Bool-cases, List, [], ◌∷◌, All,
  any,
}
use openodin.Prelude.Buffer.{equals, equals→eq}
use openodin.Prelude.Result.{ok, >>=-eq-ok}
use openodin.SchemaUtil.Values.{Text, Value, Fields, end, field, is_nothing, put}
use openodin.SchemaUtil.Entries.{Entry, starts_with, comment_mark, name_of, is_named}
use openodin.SchemaUtil.Parse.{
  Runtime, parse_into, unnamed_field, unknown_field, unknown_fields, member,
}
use openodin.SchemaUtil.Conforms.{AllFields, Contains, IsUnnamed, Governs}

AllFields-put :
    (P : Text → Value → Type 0) (name : Text) (value : Value) (fields : Fields)
    → P name value
    → AllFields P fields
    → AllFields P (put name value fields)
unfolding put
AllFields-put P name value end p h = (p, tt)
AllFields-put P name value (field k v rest) p h = elim (Bool-cases (equals name k)) [
  | inl e ↦ rw e (subst (λ key. P key value) (equals→eq name k e) p, h.1)
  | inr e ↦ rw e (h.0, AllFields-put P name value rest p h.1)
]

Contains-put :
    (name : Text) (value : Value) (fields : Fields) → Contains name (put name value fields)
unfolding put
Contains-put name value end = inl refl
Contains-put name value (field k v rest) = elim (Bool-cases (equals name k)) [
  | inl e ↦ rw e (inl (sym (equals→eq name k e)))
  | inr e ↦ rw e (inr (Contains-put name value rest))
]

put-Contains :
    (other name : Text) (value : Value) (fields : Fields)
    → Contains name fields
    → Contains name (put other value fields)
unfolding put
put-Contains other name value end h = elim h [ ]
put-Contains other name value (field k v rest) h = elim (Bool-cases (equals other k)) [
  | inl e ↦ rw e h
  | inr e ↦
      rw e (elim h [
        | inl here ↦ inl here
        | inr later ↦ inr (put-Contains other name value rest later)
      ])
]

-- What `any` misses, each test misses.
pub any-All :
    {A : Type 0} (p : A → Bool) (xs : List A) → any p xs ≡ false → All (λ x. p x ≡ false) xs
any-All p [] h = tt
any-All p (x ∷ xs) h = at_test (p x) h (any-All p xs)
  where
    at_test :
        (test : Bool)
        → (test || any p xs) ≡ false
        → (any p xs ≡ false → All (λ x. p x ≡ false) xs)
        → (test ≡ false) × All (λ x. p x ≡ false) xs
    at_test true no_way deeper = cc
    at_test false rest deeper = (refl, deeper rest)

module _ (runtime : Runtime) (allow : Bool) where
  parse_into-eq :
      (entry : Entry) (path name : Text) (value : Value) (parsed next : Fields)
      → parse_into runtime allow entry path name value parsed ≡ ok next
      → (result : Value) × (entry.run (member path name) value ≡ ok result)
        × (ok (put name result parsed) ≡ ok next)
  unfolding parse_into
  parse_into-eq entry path name value parsed next run =
      >>=-eq-ok (entry.run (member path name) value) (λ result. ok (put name result parsed)) run

  pub parse_into-AllFields :
      (P : Text → Value → Type 0) (entry : Entry) (path name : Text) (value : Value)
      (parsed next : Fields)
      → ((result : Value) → entry.run (member path name) value ≡ ok result → P name result)
      → AllFields P parsed
      → parse_into runtime allow entry path name value parsed ≡ ok next
      → AllFields P next
  parse_into-AllFields P entry path name value parsed next fits h run =
      let found = parse_into-eq entry path name value parsed next run in
      let same : put name found.0 parsed ≡ next = let set = found.2 in cc in
      subst (λ fields. AllFields P fields) same
        (AllFields-put P name found.0 parsed (fits found.0 found.1) h)

  pub parse_into-Contains :
      (entry : Entry) (path name : Text) (value : Value) (parsed next : Fields)
      → parse_into runtime allow entry path name value parsed ≡ ok next
      → Contains name next
  parse_into-Contains entry path name value parsed next run =
      let found = parse_into-eq entry path name value parsed next run in
      let same : put name found.0 parsed ≡ next = let set = found.2 in cc in
      subst (λ fields. Contains name fields) same (Contains-put name found.0 parsed)

  pub Contains-parse_into :
      (entry : Entry) (path other name : Text) (value : Value) (parsed next : Fields)
      → parse_into runtime allow entry path other value parsed ≡ ok next
      → Contains name parsed
      → Contains name next
  Contains-parse_into entry path other name value parsed next run h =
      let found = parse_into-eq entry path other value parsed next run in
      let same : put other found.0 parsed ≡ next = let set = found.2 in cc in
      subst (λ fields. Contains name fields) same (put-Contains other name found.0 parsed h)

  module _ (schema : Fields) (Describes : Text → Value → Type 0) where
    abbrev pub Governed : Text → Value → Type 0
    Governed name value = (key : Text) × Governs schema key name × Describes key value

    abbrev pub IsSound : Entry → Type 0
    IsSound entry =
        (path : Text) (value result : Value)
        → entry.run path value ≡ ok result
        → Describes entry.key result

    unnamed_field-Governed :
        (entries : List Entry) (path name : Text) (value : Value) (parsed next : Fields)
        → All IsSound entries
        → IsUnnamed schema name
        → AllFields Governed parsed
        → unnamed_field runtime allow entries path name value parsed ≡ ok next
        → AllFields Governed next
    unfolding unnamed_field
    unnamed_field-Governed [] path name value parsed next sound unnamed h run = absurd cc
    unnamed_field-Governed (first ∷ rest) path name value parsed next sound unnamed h run =
        elim (if-eq (is_named [] first) run) [
          | inl taken ↦
              parse_into-AllFields Governed first path name value parsed next
                (λ result found. (
                  first.key,
                  inr (equals→eq (name_of first.key) [] taken.0, unnamed),
                  sound.0 (member path name) value result found,
                ))
                h taken.1
          | inr other ↦ elim (if-eq allow other.1) [
            | inl skipped ↦
                let same : parsed ≡ next = let e = skipped.1 in cc in
                subst (λ fields. AllFields Governed fields) same h
            | inr refused ↦ absurd (let e = refused.1 in cc)
          ]
        ]

    module _ (entries : List Entry) (sound : All IsSound entries)
        (unnamed : (name : Text)
          → any (is_named name) entries ≡ false
          → IsUnnamed schema name) where
      unknown_field-Governed :
          (path name : Text) (value : Value) (parsed next : Fields)
          → AllFields Governed parsed
          → unknown_field runtime allow entries path name value parsed ≡ ok next
          → AllFields Governed next
      unfolding unknown_field
      unknown_field-Governed path name value parsed next h run =
          elim (if-eq (is_nothing value || starts_with name comment_mark) run) [
            | inl skipped ↦ kept skipped.1
            | inr given ↦ elim (if-eq (any (is_named name) entries) given.1) [
              | inl known ↦ kept known.1
              | inr alien ↦
                  unnamed_field-Governed entries path name value parsed next sound
                    (unnamed name alien.0) h alien.1
            ]
          ]
        where
          kept : ok parsed ≡ ok next → AllFields Governed next
          kept e =
              let same : parsed ≡ next = cc in subst (λ fields. AllFields Governed fields) same h

      pub unknown_fields-Governed :
          (path : Text) (fields parsed next : Fields)
          → AllFields Governed parsed
          → unknown_fields runtime allow entries path fields parsed ≡ ok next
          → AllFields Governed next
      unfolding unknown_fields
      unknown_fields-Governed path end parsed next h run =
          let same : parsed ≡ next = cc in subst (λ fields. AllFields Governed fields) same h
      unknown_fields-Governed path (field name value rest) parsed next h run =
          let found =
            >>=-eq-ok (unknown_field runtime allow entries path name value parsed)
              (λ later. unknown_fields runtime allow entries path rest later) run in
          unknown_fields-Governed path rest found.0 next
            (unknown_field-Governed path name value parsed found.0 h found.1) found.2
