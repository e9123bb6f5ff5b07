-- ===== src/SchemaUtil/Parse.antt =====
-- util/SchemaUtil.ts: `ParseSchema`.
use openodin.Prelude.{ℕ, suc, Bool, ◌||◌, ◌==◌, if◌then◌else◌, List, [], ◌∷◌, ◌++◌, drop, any}
use openodin.Prelude.Buffer.{Buffer}
use openodin.Prelude.Int.{ℤ}
use openodin.Prelude.Result.{Result, ok, error, ◌>>=◌}
use openodin.SchemaUtil.Values.{
  Text, Value, null, string, number, bigint, boolean, bytes, array, object, function, Values, nil,
  cons, Fields, end, field, is_nothing, is_undefined, is_truthy, lookup, put, deep_copy,
}
use openodin.SchemaUtil.Entries.{
  starts_with, post_fn, comment_mark, name_of, marks, Entry, is_named, schema_keys,
}

pub data Encoding : Type 0 where
  ascii utf8 base64 hex : Encoding

-- The conversions of the JavaScript runtime, and what the functions of a schema do when called.
pub record Runtime : Type 0 where
  -- `String(v)`, `JSON.stringify(v)`, `Number(v)` and `BigInt(v)`
  pub to_text : Value → Result Text
  pub stringify : Value → Result Text
  pub to_number : Value → Result ℕ
  pub to_bigint : Value → Result ℤ
  -- `Buffer.from(text, encoding)` and `Buffer.from(v)`
  pub decode : Encoding → Text → Buffer
  pub buffer_from : Value → Result Buffer
  -- `${index}`
  pub decimal : ℕ → Text
  -- `schema(parentSchema, obj, pKey, allowAlienKeys)` and `schema._postFn(obj)`
  pub call : ℕ → Value → Value → Text → Bool → Result Value
  pub call_post : ℕ → Value → Result Value

-- The prefixes of texts by their encoding
abbrev ascii_prefix : Text
ascii_prefix = 97 ∷ 115 ∷ 99 ∷ 105 ∷ 105 ∷ 58 ∷ []

abbrev utf8_prefix : Text
utf8_prefix = 117 ∷ 116 ∷ 102 ∷ 56 ∷ 58 ∷ []

abbrev base64_prefix : Text
base64_prefix = 98 ∷ 97 ∷ 115 ∷ 101 ∷ 54 ∷ 52 ∷ 58 ∷ []

abbrev hex_prefix : Text
hex_prefix = 104 ∷ 101 ∷ 120 ∷ 58 ∷ []

-- `${pKey}.${name}`
abbrev pub member : Text → Text → Text
member path name = path ++ 46 ∷ name

unfoldable pub run_post : (ℕ → Value → Result Value) → Value → Value → Result Value
run_post post (function f) value = post f value
run_post post none_such value =
    if is_truthy none_such then error "schema._postFn is not a function" else ok value

unfoldable pub default_of : Value → Value → Result Value
default_of (object fields) value = ok (object end)
default_of (array items) value = ok (array nil)
default_of (function f) value = ok value
default_of null value = error "Cannot read properties of null"
default_of schema value = deep_copy schema

unfoldable pub any_array : Value → Result Value
any_array (array items) = ok (array items)
any_array value = error "Expected value to be of array type"

unfoldable pub bad_array : Value → Result Value
bad_array (array items) = error "Expected schema value to be of array with exactly a single element"
bad_array value = error "Expected value to be of array type"

unfoldable pub when_parsing : Result Value → Result Value
when_parsing (ok value) = ok value
when_parsing (error message) = error "Error when parsing with function"

unfoldable pub unless_nothing : Value → Result Value → Result Value
unless_nothing value parsed =
    if is_nothing value
    then error "undefined or null provided as value in conflict with schema"
    else parsed

module _ (runtime : Runtime) (allow_alien_keys : Bool) where
  unfoldable pub to_string : Value → Result Text
  to_string (object fields) = runtime.stringify (object fields)
  to_string (array items) = runtime.stringify (array items)
  to_string value = runtime.to_text value

  unfoldable pub decode_text : Text → Buffer
  decode_text text =
      if starts_with text ascii_prefix
      then runtime.decode ascii (drop 6 text)
      else if starts_with text utf8_prefix
      then runtime.decode utf8 (drop 5 text)
      else if starts_with text base64_prefix
      then runtime.decode base64 (drop 7 text)
      else if starts_with text hex_prefix
      then runtime.decode hex (drop 4 text)
      else runtime.decode hex text

  unfoldable pub to_bytes : Value → Result Buffer
  to_bytes (string text) = ok (decode_text text)
  to_bytes (object fields) =
      runtime.stringify (object fields) >>= λ text. ok (runtime.decode utf8 text)
  to_bytes (array items) = runtime.stringify (array items) >>= λ text. ok (runtime.decode utf8 text)
  to_bytes (bytes buffer) = ok buffer
  to_bytes value = runtime.buffer_from value

  -- `obj2[name] = ParseSchema(subSchema, v, ...)`
  unfoldable pub parse_into : Entry → Text → Text → Value → Fields → Result Fields
  parse_into entry path name value parsed =
      entry.run (member path name) value >>= λ result. ok (put name result parsed)

  -- A key that the schema does not name, which the default key may take.
  unfoldable pub unnamed_field : List Entry → Text → Text → Value → Fields → Result Fields
  unnamed_field [] path name value parsed = error "schemaKeys[0] is undefined"
  unnamed_field (first ∷ rest) path name value parsed =
      if is_named [] first
      then parse_into first path name value parsed
      else if allow_alien_keys
      then ok parsed
      else error "Unknown key provided in object but not in schema"

  unfoldable pub unknown_field : List Entry → Text → Text → Value → Fields → Result Fields
  unknown_field entries path name value parsed =
      if is_nothing value || starts_with name comment_mark
      then ok parsed
      else if any (is_named name) entries
      then ok parsed
      else unnamed_field entries path name value parsed

  -- `objKeys.forEach`
  unfoldable pub unknown_fields : List Entry → Text → Fields → Fields → Result Fields
  unknown_fields entries path end parsed = ok parsed
  unknown_fields entries path (field name value rest) parsed =
      unknown_field entries path name value parsed >>= λ next. unknown_fields entries path rest next

  unfoldable pub missing_field : Entry → Text → Value → Fields → Result Fields
  missing_field entry path value parsed =
      if marks entry.key == 0
      then error "Key required by schema but no value provided"
      else if marks entry.key == 2
      then ok parsed
      else default_of entry.sub value >>= λ default.
          parse_into entry path (name_of entry.key) default parsed

  unfoldable pub known_field : Entry → Text → Fields → Fields → Result Fields
  known_field entry path fields parsed =
      let value = lookup (name_of entry.key) fields in
      if is_named [] entry || is_undefined entry.sub
      then ok parsed
      else if is_nothing value
      then missing_field entry path value parsed
      else parse_into entry path (name_of entry.key) value parsed

  -- `schemaKeys.forEach`
  unfoldable pub known_fields : List Entry → Text → Fields → Fields → Result Fields
  known_fields [] path fields parsed = ok parsed
  known_fields (entry ∷ entries) path fields parsed =
      known_field entry path fields parsed >>= λ next. known_fields entries path fields next

  unfoldable pub parse_fields_of : Value → List Entry → Text → Fields → Result Value
  parse_fields_of post [] path fields =
      deep_copy (object fields) >>= λ copied. run_post runtime.call_post post copied
  parse_fields_of post (entry ∷ entries) path fields =
      unknown_fields (entry ∷ entries) path fields end >>= λ aliens.
      known_fields (entry ∷ entries) path fields aliens >>= λ parsed.
      run_post runtime.call_post post (object parsed)

  unfoldable pub parse_object : Value → List Entry → Text → Value → Result Value
  parse_object post entries path (object fields) =
      parse_fields_of post (schema_keys entries) path fields
  parse_object post entries path value = error "Expected value to be of object type"

  unfoldable pub map_items : (Text → Value → Result Value) → Text → ℕ → Values → Result Values
  map_items parser path index nil = ok nil
  map_items parser path index (cons item rest) =
      parser (path ++ 91 ∷ runtime.decimal index ++ 93 ∷ []) item >>= λ first.
      map_items parser path (suc index) rest >>= λ others. ok (cons first others)

  unfoldable pub parse_array : (Text → Value → Result Value) → Text → Value → Result Value
  parse_array parser path (array items) =
      map_items parser path 0 items >>= λ parsed. ok (array parsed)
  parse_array parser path value = error "Expected value to be of array type"

  -- `ParseSchema(schema, obj, pKey, allowAlienKeys, parentSchema)`
  unfoldable mutual
    pub parse_schema : Value → Value → Text → Value → Result Value
    parse_schema (function f) parent path value =
        when_parsing (runtime.call f parent value path allow_alien_keys)
    parse_schema (string text) parent path value =
        unless_nothing value (to_string value >>= λ parsed. ok (string parsed))
    parse_schema (number bits) parent path value =
        unless_nothing value (runtime.to_number value >>= λ parsed. ok (number parsed))
    parse_schema (bigint n) parent path value =
        unless_nothing value (runtime.to_bigint value >>= λ parsed. ok (bigint parsed))
    parse_schema (boolean b) parent path value =
        unless_nothing value (ok (boolean (is_truthy value)))
    parse_schema (bytes buffer) parent path value =
        unless_nothing value (to_bytes value >>= λ parsed. ok (bytes parsed))
    parse_schema (object fields) parent path value =
        unless_nothing value
          (parse_object (lookup post_fn fields) (entries_of fields (object fields)) path value)
    parse_schema (array nil) parent path value = unless_nothing value (any_array value)
    parse_schema (array (cons sub nil)) parent path value =
        unless_nothing value
          (parse_array (λ at item. parse_schema sub (array (cons sub nil)) at item) path value)
    parse_schema (array (cons sub (cons other more))) parent path value =
        unless_nothing value (bad_array value)
    parse_schema _ parent path value = unless_nothing value (error "Unknown schema type")

    pub entries_of : Fields → Value → List Entry
    entries_of end parent = []
    entries_of (field key sub rest) parent =
        record { key = key; sub = sub; run = λ path value. parse_schema sub parent path value }
        ∷ entries_of rest parent
