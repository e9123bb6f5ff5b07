-- ===== src/SchemaUtil/Entries.antt =====
-- util/SchemaUtil.ts: the keys of a schema, sorted, with their parsers.
use openodin.Prelude.{ℕ, suc, Bool, true, false, ◌==◌, if◌then◌else◌, List, [], ◌∷◌}
use openodin.Prelude.Buffer.{equals}
use openodin.Prelude.Compare.{compare_bytes, is_gt}
use openodin.Prelude.Result.{Result}
use openodin.Prelude.Sorting.{sorted}
use openodin.SchemaUtil.Values.{Text, Value}

unfoldable pub starts_with : Text → Text → Bool
starts_with text [] = true
starts_with [] (c ∷ prefix) = false
starts_with (x ∷ text) (c ∷ prefix) =
    let rest = starts_with text prefix in if x == c then rest else false

-- `"_postFn"` and `" ## "`
abbrev pub post_fn : Text
post_fn = 95 ∷ 112 ∷ 111 ∷ 115 ∷ 116 ∷ 70 ∷ 110 ∷ []

abbrev pub comment_mark : Text
comment_mark = 32 ∷ 35 ∷ 35 ∷ 32 ∷ []

-- `key.split("?")[0]`, and the length of `key.split("?")` less one
unfoldable pub name_of : Text → Text
name_of [] = []
name_of (c ∷ key) = let rest = name_of key in if c == 63 then [] else c ∷ rest

unfoldable pub marks : Text → ℕ
marks [] = 0
marks (c ∷ key) = let rest = marks key in if c == 63 then suc rest else rest

-- A key of the schema, its schema, and the parser of that schema.
pub record Entry : Type 0 where
  pub key : Text
  pub sub : Value
  pub run : Text → Value → Result Value

abbrev pub is_named : Text → Entry → Bool
is_named name entry = equals (name_of entry.key) name

unfoldable pub filtered : List Entry → List Entry
filtered [] = []
filtered (entry ∷ entries) =
    let rest = filtered entries in if is_named post_fn entry then rest else entry ∷ rest

abbrev pub sorts_after : Entry → Entry → Bool
sorts_after one other = is_gt (compare_bytes one.key other.key)

-- `schemaKeys`
unfoldable pub schema_keys : List Entry → List Entry
schema_keys entries = filtered (sorted sorts_after entries)
