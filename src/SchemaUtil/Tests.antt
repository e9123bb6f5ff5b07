-- ===== src/SchemaUtil/Tests.antt =====
-- The schema of the documentation in util/SchemaUtil.ts, and objects that it parses and refuses.
use openodin.Prelude.{ℕ, ◌+◌, ◌≡◌, refl, Bool, true, false, List, [], ◌∷◌, ◌⊎◌}
use openodin.Prelude.Buffer.{equals}
use openodin.Prelude.Compare.{compare_bytes}
use openodin.Prelude.Result.{Result, ok, error}
use openodin.Prelude.Sorting.{insert_sorted}
use openodin.SchemaUtil.Values.{
  Text, Value, undefined, string, number, boolean, array, object, nil, cons, Fields, end, field,
  is_truthy, lookup, put, deep_copy,
}
use openodin.SchemaUtil.Entries.{starts_with, name_of, marks, filtered, schema_keys}
use openodin.SchemaUtil.Parse.{
  Runtime, run_post, to_string, parse_into, unnamed_field, unknown_field, unknown_fields,
  default_of, missing_field, known_field, known_fields, parse_fields_of, parse_object, map_items,
  parse_array, unless_nothing, parse_schema,
}
use openodin.SchemaUtil.Conforms.{Conforms, AllFields, IsOpen}
use openodin.SchemaUtil.Sound.{parse_schema-Conforms}
use openodin.SchemaUtil.Admits.{IsKnownBy, IsGivenIn, parse_schema-Admits}

abbrev text_of : Value → Result Text
text_of (string text) = ok text
text_of (number digit) = ok ((48 + digit) ∷ [])
text_of value = ok []

abbrev number_of : Value → Result ℕ
number_of (number bits) = ok bits
number_of value = error "NaN"

abbrev runtime : Runtime
runtime = record {
  to_text = text_of;
  stringify = λ value. ok [];
  to_number = number_of;
  to_bigint = λ value. error "Cannot convert to a BigInt";
  decode = λ encoding text. text;
  buffer_from = λ value. error "Received an unexpected type";
  decimal = λ index. (48 + index) ∷ [];
  call = λ f parent value path allow. ok value;
  call_post = λ f value. ok value;
}

-- "name", "age?", "pets?" and "type"
abbrev name_key : Text
name_key = 110 ∷ 97 ∷ 109 ∷ 101 ∷ []

abbrev age_key : Text
age_key = 97 ∷ 103 ∷ 101 ∷ []

abbrev age_optional : Text
age_optional = 97 ∷ 103 ∷ 101 ∷ 63 ∷ []

abbrev pets_key : Text
pets_key = 112 ∷ 101 ∷ 116 ∷ 115 ∷ []

abbrev pets_optional : Text
pets_optional = 112 ∷ 101 ∷ 116 ∷ 115 ∷ 63 ∷ []

abbrev type_key : Text
type_key = 116 ∷ 121 ∷ 112 ∷ 101 ∷ []

abbrev comment_key : Text
comment_key = 32 ∷ 35 ∷ 35 ∷ 32 ∷ []

abbrev pet : Value → Value
pet kind = object (field type_key kind end)

-- { "name": "", "age?": 99, "pets?": [{ "type": "" }] }
abbrev person : Fields
person =
    field name_key (string []) (
      field age_optional (number 99) (field pets_optional (array (cons (pet (string [])) nil)) end))

-- { "pets": [{ "type": 7 }], "name": 3, " ## ": null }
abbrev given : Fields
given =
    field pets_key (array (cons (pet (number 7)) nil))
      (field name_key (number 3) (field comment_key (boolean true) end))

abbrev parsed : Value
parsed = object (
    field age_key (number 99) (
      field name_key (string (51 ∷ []))
        (field pets_key (array (cons (pet (string (55 ∷ []))) nil)) end)))

parses : parse_schema runtime false (object person) undefined [] (object given) ≡ ok parsed
unfolding parse_schema unless_nothing parse_object parse_fields_of schema_keys filtered
    openodin.Prelude.Sorting.sorted insert_sorted compare_bytes equals name_of unknown_fields
    unknown_field starts_with known_fields known_field lookup parse_into unnamed_field default_of
    map_items marks missing_field parse_array run_post to_string deep_copy is_truthy put
parses = refl

-- An age without a name is refused, and so is what the schema has no key for.
nameless :
    parse_schema runtime false (object person) undefined [] (object (field age_key (number 5) end))
    ≡ error "Key required by schema but no value provided"
unfolding parse_schema unless_nothing parse_object parse_fields_of schema_keys filtered
    openodin.Prelude.Sorting.sorted insert_sorted compare_bytes equals name_of unknown_fields
    unknown_field starts_with known_fields known_field lookup parse_into unnamed_field default_of
    map_items marks missing_field parse_array run_post to_string deep_copy is_truthy put
nameless = refl

unknown :
    parse_schema runtime false
      (object person)
      undefined
      []
      (object (field name_key (number 5) (field type_key (number 5) end)))
    ≡ error "Unknown key provided in object but not in schema"
unfolding parse_schema unless_nothing parse_object parse_fields_of schema_keys filtered
    openodin.Prelude.Sorting.sorted insert_sorted compare_bytes equals name_of unknown_fields
    unknown_field starts_with known_fields known_field lookup parse_into unnamed_field default_of
    map_items marks missing_field parse_array run_post to_string deep_copy is_truthy put
unknown = refl

-- The text "false" is parsed as true.
false_is_true :
    parse_schema runtime false
      (boolean false)
      undefined
      []
      (string (102 ∷ 97 ∷ 108 ∷ 115 ∷ 101 ∷ []))
    ≡ ok (boolean true)
unfolding parse_schema unless_nothing parse_object parse_fields_of schema_keys filtered
    openodin.Prelude.Sorting.sorted insert_sorted compare_bytes equals name_of unknown_fields
    unknown_field starts_with known_fields known_field lookup parse_into unnamed_field default_of
    map_items marks missing_field parse_array run_post to_string deep_copy is_truthy put
false_is_true = refl

parse_schema-Conforms_example : Conforms (object person) parsed
parse_schema-Conforms_example =
    parse_schema-Conforms runtime false (object person) undefined [] (object given) parsed parses

parse_schema-Admits_example :
    IsOpen person ⊎ (AllFields (IsKnownBy person) given × AllFields (IsGivenIn given) person)
parse_schema-Admits_example = parse_schema-Admits runtime person undefined [] given parsed parses
