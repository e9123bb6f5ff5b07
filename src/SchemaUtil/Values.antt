-- ===== src/SchemaUtil/Values.antt =====
-- util/SchemaUtil.ts and util/common.ts: the JavaScript values that are parsed, with `DeepCopy`.
use openodin.Prelude.{ℕ, ◌*◌, ◌%◌, ◌^◌, Bool, true, false, not, ◌||◌, ◌==◌, ltb, if◌then◌else◌, []}
use openodin.Prelude.Buffer.{Buffer, equals}
use openodin.Prelude.Int.{ℤ, pos}
use openodin.Prelude.Result.{Result, ok, error, ◌>>=◌}

-- A string as its UTF-16 code units.
abbrev pub Text : Type 0
Text = Buffer

-- A number is the bit pattern of its double. A function is known by a number of its own. The
-- properties of an object stand in the order in which they were set.
mutual
  pub data Value : Type 0 where
    undefined null : Value
    string : Text → Value
    number : ℕ → Value
    bigint : ℤ → Value
    boolean : Bool → Value
    bytes : Buffer → Value
    array : Values → Value
    object : Fields → Value
    class_instance : Fields → Value
    function : ℕ → Value

  pub data Values : Type 0 where
    nil : Values
    cons : Value → Values → Values

  pub data Fields : Type 0 where
    end : Fields
    field : Text → Value → Fields → Fields

-- `v === undefined || v === null`
abbrev pub is_nothing : Value → Bool
is_nothing undefined = true
is_nothing null = true
is_nothing _ = false

abbrev pub is_undefined : Value → Bool
is_undefined undefined = true
is_undefined _ = false

-- Neither a zero nor not a number.
abbrev is_nonzero : ℕ → Bool
is_nonzero bits =
    let magnitude = bits % 2 ^ 63 in not (magnitude == 0 || ltb (2047 * 2 ^ 52) magnitude)

-- `Boolean(v)`
unfoldable pub is_truthy : Value → Bool
is_truthy undefined = false
is_truthy null = false
is_truthy (string text) = not (equals text [])
is_truthy (number bits) = is_nonzero bits
is_truthy (bigint n) = elim n [ pos a ↦ not (a == 0) | _ ↦ true ]
is_truthy (boolean b) = b
is_truthy _ = true

-- `obj[key]`
unfoldable pub lookup : Text → Fields → Value
lookup key end = undefined
lookup key (field k v rest) = if equals key k then v else lookup key rest

-- `obj[key] = value`
unfoldable pub put : Text → Value → Fields → Fields
put key value end = field key value end
put key value (field k v rest) =
    let later = put key value rest in if equals key k then field k value rest else field k v later

unfoldable mutual
  pub deep_copy : Value → Result Value
  deep_copy (array items) = deep_copy_all items >>= λ copied. ok (array copied)
  deep_copy (object fields) = deep_copy_fields fields >>= λ copied. ok (object copied)
  deep_copy (class_instance fields) = deep_copy_fields fields >>= λ copied. ok (object copied)
  deep_copy (function f) = error "Type not recognized"
  deep_copy value = ok value

  pub deep_copy_all : Values → Result Values
  deep_copy_all nil = ok nil
  deep_copy_all (cons value rest) =
      deep_copy value >>= λ copied. deep_copy_all rest >>= λ others. ok (cons copied others)

  pub deep_copy_fields : Fields → Result Fields
  deep_copy_fields end = ok end
  deep_copy_fields (field key value rest) =
      deep_copy value >>= λ copied. deep_copy_fields rest >>= λ others. ok (field key copied others)
