-- ===== src/Schema/Pack.antt =====
-- PackSchema and UnpackSchema of datamodel/PackSchema.ts on schemas of objects, UnpackSchema without
-- `deepUnpack`. `props` is a function from keys. The object that UnpackSchema fills is the list of its
-- assignments `obj[key] = value`, in order.
pub mod Index
pub mod Sorted
pub mod Roundtrip
pub mod Fuel
use text.Mathlib.Text.{◌==◌ as str_eq}
use openodin.Prelude.{
  ℕ, zero, suc, ◌+◌, Bool, true, false, not, Option, none, some, List, [], ◌∷◌, ◌++◌, String, leb,
  ◌==◌, if◌then◌else◌, length,
}
use openodin.Prelude.Buffer.{Buffer}
use openodin.Prelude.Result.{Result, ok, error, assert, ◌>>=◌, ◌>>◌}
use openodin.Schema.Types.{PackedSchemaField, Value, code_of}
use openodin.Schema.Field.{TextCodec, pack_value, unpack_value}
use openodin.Schema.Iterator.{Iterator, UnpackedField, field_iterator, has_next, next}

-- `Fields`, in the order of `Object.keys`.
abbrev pub Fields : Type 0
Fields = List (String × PackedSchemaField)

abbrev pub or_this : {A : Type 0} → Option A → Option A → Option A
or_this (some later) this = some later
or_this none this = this

-- `schemaByIndex[index]`: the last field that has the index.
pub by_index : ℕ → Fields → Option (String × PackedSchemaField)
by_index i [] = none
by_index i (entry ∷ fields) =
    or_this (by_index i fields) (if entry.1.index == i then some entry else none)

abbrev pub indexes : Fields → List ℕ
indexes [] = []
indexes (entry ∷ fields) = entry.1.index ∷ indexes fields

-- `indexes.sort( (a, b) => a - b )`
pub insert : ℕ → List ℕ → List ℕ
insert index [] = index ∷ []
insert index (first ∷ others) =
    let after = insert index others in
    if leb index first then index ∷ first ∷ others else first ∷ after

pub sort : List ℕ → List ℕ
sort [] = []
sort (index ∷ others) = insert index (sort others)

abbrev pub is_last : ℕ → Option ℕ → Bool
is_last i none = false
is_last i (some last) = i == last

abbrev pub or_empty : Option Buffer → Buffer
or_empty none = []
or_empty (some b) = b

abbrev pub append_results : {A : Type 0} → Result (List A) → Result (List A) → Result (List A)
append_results first others = first >>= λ a. others >>= λ b. ok (a ++ b)

module _ (utf8 : TextCodec) (fields : Fields) (max_index : ℕ) where
  module _ (props : String → Option Value) where
    -- A round of the loop over the indexes: what is pushed. The empty key is left out (`!key`).
    pub pack_entry : Option (String × PackedSchemaField) → Result Buffer
    pack_entry none = ok []
    pack_entry (some (key, f)) =
        let pushed = pack_value utf8 f (props key) >>= λ packed. ok (or_empty packed) in
        if str_eq key "" then ok [] else pushed

    pub pack_indexes : Option ℕ → List ℕ → Result Buffer
    pack_indexes last [] = ok []
    pack_indexes last (i ∷ is) =
        let rest = pack_indexes (some i) is in
        assert (not (is_last i last)) "index must only be used once"
        >> (if leb i max_index then append_results (pack_entry (by_index i fields)) rest else rest)

    unfoldable pub pack_schema : Result Buffer
    unfolding pack_indexes pack_entry by_index sort insert
    pack_schema = pack_indexes none (sort (indexes fields))

  -- A round of the loop over the packed fields: the assignment it makes, if any.
  pub assign : UnpackedField → Option (String × PackedSchemaField) → Result (List (String × Value))
  assign field none = ok []
  assign field (some (key, f)) =
      let value = unpack_value utf8 field.value f >>= λ v. ok ((key, v) ∷ []) in
      assert (code_of field.type == code_of f.type) "Type mismatch in packed and schema"
      >> (if leb f.index max_index then value else ok [])

  pub unpack_from : ℕ → Iterator → Result (List (String × Value))
  unpack_from zero it = ok []
  unpack_from (suc fuel) it =
      let more = next it >>= λ found.
      append_results (assign found.0 (by_index found.0.index fields)) (unpack_from fuel found.1) in
      if has_next it then more else ok []

  -- Each round takes three bytes at least.
  unfoldable pub unpack_schema : Buffer → Result (List (String × Value))
  unfolding unpack_from assign by_index
  unpack_schema packed = unpack_from (length packed + 1) (field_iterator packed)
