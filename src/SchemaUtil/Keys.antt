-- ===== src/SchemaUtil/Keys.antt =====
-- util/SchemaUtil.ts: the keys of a schema, which `ParseSchema` sorts.
use openodin.Prelude.{
  if◌then◌else◌, ◌≡◌, Bool, true, false, inl, inr, Bool-cases, List, [], ◌∷◌, All,
}
use openodin.Prelude.Sorting.{insert_sorted, sorted, All-sorted}
use openodin.SchemaUtil.Values.{Text, Value, Fields, end, field}
use openodin.SchemaUtil.Entries.{Entry, is_named, post_fn, filtered, sorts_after, schema_keys}
use openodin.SchemaUtil.Parse.{Runtime, parse_schema, entries_of}
use openodin.SchemaUtil.Conforms.{AllFields}

-- What holds of all sorted elements holds of all elements.
module _ {A : Type 0} (after : A → A → Bool) (P : A → Type 0) where
  insert_sorted-All : (a : A) (xs : List A) → All P (insert_sorted after a xs) → P a × All P xs
  unfolding insert_sorted
  insert_sorted-All a [] h = h
  insert_sorted-All a (b ∷ xs) h = at_place (after a b) h (insert_sorted-All a xs)
    where
      at_place :
          (test : Bool)
          → All P (if test then b ∷ insert_sorted after a xs else a ∷ b ∷ xs)
          → (All P (insert_sorted after a xs) → P a × All P xs)
          → P a × All P (b ∷ xs)
      at_place true later deeper = let found = deeper later.1 in (found.0, (later.0, found.1))
      at_place false here deeper = here

  sorted-All : (xs : List A) → All P (sorted after xs) → All P xs
  unfolding sorted
  sorted-All [] h = tt
  sorted-All (a ∷ xs) h =
      let found = insert_sorted-All a (sorted after xs) h in (found.0, sorted-All xs found.1)

module _ (P : Entry → Type 0) where
  All-filtered : (entries : List Entry) → All P entries → All P (filtered entries)
  unfolding filtered
  All-filtered [] h = tt
  All-filtered (entry ∷ entries) h = elim (Bool-cases (is_named post_fn entry)) [
    | inl e ↦ rw e (All-filtered entries h.1)
    | inr e ↦ rw e (h.0, All-filtered entries h.1)
  ]

  pub All-schema_keys : (entries : List Entry) → All P entries → All P (schema_keys entries)
  unfolding schema_keys
  All-schema_keys entries h =
      All-filtered (sorted sorts_after entries) (All-sorted sorts_after P entries h)

  filtered-All :
      (entries : List Entry)
      → All P (filtered entries)
      → All (λ entry. is_named post_fn entry ≡ false → P entry) entries
  unfolding filtered
  filtered-All [] h = tt
  filtered-All (entry ∷ entries) h = at_test (is_named post_fn entry) h (filtered-All entries)
    where
      at_test :
          (test : Bool)
          → All P (if test then filtered entries else entry ∷ filtered entries)
          → (All P (filtered entries)
              → All (λ other. is_named post_fn other ≡ false → P other) entries)
          → (test ≡ false → P entry)
            × All (λ other. is_named post_fn other ≡ false → P other) entries
      at_test true kept deeper = ((λ e. cc), deeper kept)
      at_test false kept deeper = ((λ e. kept.0), deeper kept.1)

  pub schema_keys-All :
      (entries : List Entry)
      → All P (schema_keys entries)
      → All (λ entry. is_named post_fn entry ≡ false → P entry) entries
  unfolding schema_keys
  schema_keys-All entries h =
      sorted-All sorts_after (λ entry. is_named post_fn entry ≡ false → P entry) entries
        (filtered-All (sorted sorts_after entries) h)

-- The entries of the keys of a schema are of these keys.
pub entries_of-All :
    (runtime : Runtime) (allow : Bool) (P : Text → Value → Type 0) (schema : Fields)
    (parent : Value)
    → All (λ entry. P entry.key entry.sub) (entries_of runtime allow schema parent)
    → AllFields P schema
unfolding parse_schema
entries_of-All runtime allow P end parent h = tt
entries_of-All runtime allow P (field key sub rest) parent h =
    (h.0, entries_of-All runtime allow P rest parent h.1)
