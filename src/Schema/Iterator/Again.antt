-- ===== src/Schema/Iterator/Again.antt =====
-- An iterator of datamodel/PackSchema.ts that is reset to read the fields again.
use openodin.Prelude.{
  ℕ, ◌≤◌, ◌≡◌, refl, sym, ◌∙◌, ap, false, arith, le→leb, ltb, length, Option, some, none, [], ◌∷◌,
  drop, if-eq, inl, inr,
}
use openodin.Prelude.Buffer.{Buffer}
use openodin.Prelude.Result.{ok, error}
use openodin.Schema.Types.{FieldType, field_length}
use openodin.Schema.Iterator.{
  UnpackedField, Iterator, field_iterator, reset, next, next_in, take_field, take_typed,
  take_dynamic, take_value, from_code, not_after,
}

-- The iterator over the bytes has given a field at least. It may have been reset in between.
pub data HasRead (packed : Buffer) : Iterator → Type 0 where
  first :
      {field : UnpackedField} {it : Iterator}
      → next (field_iterator packed) ≡ ok (field, it)
      → HasRead packed it
  more :
      {field : UnpackedField} {it later : Iterator}
      → HasRead packed it
      → next it ≡ ok (field, later)
      → HasRead packed later
  again : {it : Iterator} → HasRead packed it → HasRead packed (reset it)

-- After a field the iterator is over the same bytes, and has the index of the field.
abbrev Follows : Iterator → ℕ → Iterator → Type 0
Follows it index later = (later.packed ≡ it.packed) × (later.last_index ≡ some index)

take_value-Follows :
    (it : Iterator) (index : ℕ) (type : FieldType) (n : ℕ) (head after : Buffer)
    {field : UnpackedField} {later : Iterator}
    → take_value it index type n head after ≡ ok (field, later)
    → Follows it index later
unfolding take_value
take_value-Follows it index type n head after {field} {later} h =
    elim (if-eq (ltb (length after) n) h) [
      | inl short ↦ absurd (let e = short.1 in cc)
      | inr enough ↦
          let e : record it { rest = drop n after; last_index = some index } ≡ later =
            let taken = enough.1 in cc in
          (ap (λ i. i.packed) (sym e), ap (λ i. i.last_index) (sym e))
    ]

take_typed-Follows :
    (it : Iterator) (index : ℕ) (type : FieldType) (n : Option ℕ) (after : Buffer)
    {field : UnpackedField} {later : Iterator}
    → take_typed it index type n after ≡ ok (field, later)
    → Follows it index later
unfolding take_typed take_dynamic
take_typed-Follows it index type (some n) after h = take_value-Follows it index type n _ after h
take_typed-Follows it index type none [] h = absurd cc
take_typed-Follows it index type none (a ∷ []) h = absurd cc
take_typed-Follows it index type none (a ∷ b ∷ after) h =
    take_value-Follows it index type _ _ after h

take_field-Follows :
    (it : Iterator) (index : ℕ) (type : Option FieldType) (after : Buffer) {field : UnpackedField}
    {later : Iterator}
    → take_field it index type after ≡ ok (field, later)
    → Follows it index later
unfolding take_field
take_field-Follows it index none after h = absurd cc
take_field-Follows it index (some type) after h =
    take_typed-Follows it index type (field_length type) after h

-- The bytes are those of a field that `next` reaches only with an index above the last one.
abbrev StartsWith : ℕ → Buffer → Type 0
StartsWith index bytes = (code c : ℕ) × (rest : Buffer) × (bytes ≡ index ∷ code ∷ c ∷ rest)

next_in-ok :
    (it : Iterator) (bytes : Buffer) {field : UnpackedField} {later : Iterator}
    → next_in it bytes ≡ ok (field, later)
    → (index : ℕ) × StartsWith index bytes
      × (not_after index it.last_index ≡ false)
      × Follows it index later
unfolding next_in
next_in-ok it [] h = absurd cc
next_in-ok it (a ∷ []) h = absurd cc
next_in-ok it (a ∷ b ∷ []) h = absurd cc
next_in-ok it (index ∷ code ∷ c ∷ rest) h = elim (if-eq (not_after index it.last_index) h) [
  | inl refused ↦ absurd (let e = refused.1 in cc)
  | inr taken ↦ (
    index,
    (code, c, rest, refl),
    taken.0,
    take_field-Follows it index (from_code code) (c ∷ rest) taken.1,
  )
]

-- The index that the bytes start with is not above the last one of the iterator over them.
abbrev IsPast : Buffer → Iterator → Type 0
IsPast packed it =
    (index last : ℕ) × StartsWith index packed
    × (it.packed ≡ packed)
    × (it.last_index ≡ some last)
    × (index ≤ last)

above : (index last : ℕ) → not_after index (some last) ≡ false → last ≤ index
above index last h = ground arith

HasRead-IsPast : {packed : Buffer} {it : Iterator} → HasRead packed it → IsPast packed it
unfolding next field_iterator reset
HasRead-IsPast {packed} (first run) =
    let (index, starts, _, (same, last)) = next_in-ok (field_iterator packed) packed run in
    (index, index, starts, same, last, omega arith)
HasRead-IsPast {packed} (more {it = it} read run) =
    let (index, last, starts, same, was, le) = HasRead-IsPast read in
    let (now, _, later, (kept, is)) = next_in-ok it it.rest run in
    let step = above now last (ap (not_after now) (sym was) ∙ later) in
    (index, now, starts, kept ∙ same, is, omega arith)
HasRead-IsPast {packed} (again read) = HasRead-IsPast read

-- An iterator that has given a field cannot be read from the start again: after `reset`, `next` throws.
pub next-reset :
    {packed : Buffer} {it : Iterator}
    → HasRead packed it
    → next (reset it) ≡ error "Error in packed, index must always increase"
unfolding next next_in reset
next-reset {packed} {it} read =
    let (index, last, (code, c, rest, starts), same, was, le) = HasRead-IsPast read in
    rw (same ∙ starts, was, le→leb index last le) refl
