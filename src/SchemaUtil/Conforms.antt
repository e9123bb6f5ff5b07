-- ===== src/SchemaUtil/Conforms.antt =====
-- util/SchemaUtil.ts: what a value has to be for a schema to describe it.
use openodin.Prelude.{◌≡◌, true, false, ◌==◌, ◌⊎◌, []}
use openodin.Prelude.Buffer.{equals}
use openodin.SchemaUtil.Values.{
  Text, Value, string, number, bigint, boolean, bytes, array, object, function, Values, nil, cons,
  Fields, end, field, is_undefined, is_truthy, lookup,
}
use openodin.SchemaUtil.Entries.{post_fn, name_of, marks}

abbrev pub AllFields : (Text → Value → Type 0) → Fields → Type 0
AllFields P end = Unit
AllFields P (field key value rest) = P key value × AllFields P rest

abbrev pub AllValues : (Value → Type 0) → Values → Type 0
AllValues P nil = Unit
AllValues P (cons value rest) = P value × AllValues P rest

-- An array of values that satisfy the predicate.
abbrev pub IsArrayOf : (Value → Type 0) → Value → Type 0
IsArrayOf P (array items) = AllValues P items
IsArrayOf P _ = ⊥

abbrev pub IsObject : Value → Type 0
IsObject (object fields) = Unit
IsObject _ = ⊥

abbrev pub Contains : Text → Fields → Type 0
Contains name end = ⊥
Contains name (field key value rest) = (key ≡ name) ⊎ Contains name rest

-- No key of the schema but those of `_postFn` has the name.
abbrev pub IsUnnamed : Fields → Text → Type 0
IsUnnamed schema name =
    AllFields (λ key sub. equals (name_of key) post_fn ≡ false → equals (name_of key) name ≡ false)
      schema

-- The schema has no key but those of `_postFn`.
abbrev pub IsOpen : Fields → Type 0
IsOpen schema = AllFields (λ key sub. equals (name_of key) post_fn ≡ true) schema

-- The key of the schema gives the name, or it is the default key and no key gives the name.
abbrev pub Governs : Fields → Text → Text → Type 0
Governs schema key name = (name_of key ≡ name) ⊎ ((name_of key ≡ []) × IsUnnamed schema name)

-- Unless it is marked by two question marks, left undefined, a default key or that of `_postFn`.
abbrev pub IsPresentIn : Fields → Text → Value → Type 0
IsPresentIn parsed key sub =
    equals (name_of key) post_fn ≡ false
    → equals (name_of key) [] ≡ false
    → is_undefined sub ≡ false
    → (marks key == 2) ≡ false
    → Contains (name_of key) parsed

-- Each property is governed by a key whose schema describes it, and each key that has to be is there.
abbrev pub IsRecordOf : Fields → (Text → Value → Type 0) → Value → Type 0
IsRecordOf schema Describes (object parsed) =
    AllFields (λ name value. (key : Text) × Governs schema key name × Describes key value) parsed
    × AllFields (IsPresentIn parsed) schema
IsRecordOf schema Describes _ = ⊥

abbrev IsText : Value → Type 0
IsText (string text) = Unit
IsText _ = ⊥

abbrev IsNumber : Value → Type 0
IsNumber (number bits) = Unit
IsNumber _ = ⊥

abbrev IsBigint : Value → Type 0
IsBigint (bigint n) = Unit
IsBigint _ = ⊥

abbrev IsBoolean : Value → Type 0
IsBoolean (boolean b) = Unit
IsBoolean _ = ⊥

abbrev IsBuffer : Value → Type 0
IsBuffer (bytes buffer) = Unit
IsBuffer _ = ⊥

-- Functions, also `_postFn`, return what they like.
unfoldable mutual
  pub Conforms : Value → Value → Type 0
  Conforms (function f) value = Unit
  Conforms (string text) value = IsText value
  Conforms (number bits) value = IsNumber value
  Conforms (bigint n) value = IsBigint value
  Conforms (boolean b) value = IsBoolean value
  Conforms (bytes buffer) value = IsBuffer value
  Conforms (object schema) value =
      (is_truthy (lookup post_fn schema) ≡ true)
      ⊎ (IsOpen schema × IsObject value)
      ⊎ IsRecordOf schema (λ key sub. HasField schema key sub) value
  Conforms (array nil) value = IsArrayOf (λ item. Unit) value
  Conforms (array (cons sub nil)) value = IsArrayOf (λ item. Conforms sub item) value
  Conforms _ value = ⊥

  -- The schema of the key describes the value.
  pub HasField : Fields → Text → Value → Type 0
  HasField end key value = ⊥
  HasField (field k sub rest) key value = ((key ≡ k) × Conforms sub value) ⊎ HasField rest key value
