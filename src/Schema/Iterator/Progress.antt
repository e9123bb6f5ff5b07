-- ===== src/Schema/Iterator/Progress.antt =====
-- Every round of the iterator takes bytes.
use openodin.Prelude.{
  ℕ, zero, suc, ◌≤◌, ◌<◌, arith, ltb, length, drop, Option, some, none, [], ◌∷◌, Bool-cases, inl,
  inr,
}
use openodin.Prelude.Buffer.{Buffer}
use openodin.Prelude.Result.{Result, ok, error}
use openodin.Schema.Types.{FieldType, field_length}
use openodin.Schema.Iterator.{
  UnpackedField, Iterator, next, next_in, take_field, take_typed, take_dynamic, take_value,
  from_code, not_after,
}

-- The bytes that are left after a step, none after an error.
abbrev pub rest_of : Result (UnpackedField × Iterator) → Buffer
rest_of (ok found) = found.1.rest
rest_of (error e) = []

length-drop : (n : ℕ) (xs : Buffer) → length (drop n xs) ≤ length xs
length-drop zero xs = omega arith
length-drop (suc n) [] = omega arith
length-drop (suc n) (x ∷ xs) = omega (arith, length-drop n xs)

take_value_rest :
    (it : Iterator) (index : ℕ) (type : FieldType) (n : ℕ) (head after : Buffer)
    → length (rest_of (take_value it index type n head after)) ≤ length after
unfolding take_value
take_value_rest it index type n head after = elim (Bool-cases (ltb (length after) n)) [
  | inl e ↦ rw e (omega arith)
  | inr e ↦ rw e (length-drop n after)
]

take_typed_rest :
    (it : Iterator) (index : ℕ) (type : FieldType) (n : Option ℕ) (after : Buffer)
    → length (rest_of (take_typed it index type n after)) ≤ length after
unfolding take_typed take_dynamic
take_typed_rest it index type (some n) after = take_value_rest it index type n _ after
take_typed_rest it index type none [] = omega arith
take_typed_rest it index type none (a ∷ []) = omega arith
take_typed_rest it index type none (a ∷ b ∷ after) =
    omega (arith, take_value_rest it index type _ _ after)

take_field_rest :
    (it : Iterator) (index : ℕ) (type : Option FieldType) (after : Buffer)
    → length (rest_of (take_field it index type after)) ≤ length after
unfolding take_field
take_field_rest it index none after = omega arith
take_field_rest it index (some type) after = take_typed_rest it index type (field_length type) after

next_in_rest :
    (it : Iterator) (b : Buffer) → 0 < length b → length (rest_of (next_in it b)) < length b
unfolding next_in
next_in_rest it [] h = h
next_in_rest it (a ∷ []) h = omega arith
next_in_rest it (a ∷ c ∷ []) h = omega arith
next_in_rest it (index ∷ code ∷ c ∷ rest) h = elim (Bool-cases (not_after index it.last_index)) [
  | inl e ↦ rw e (omega arith)
  | inr e ↦ rw e (omega (arith, take_field_rest it index (from_code code) (c ∷ rest)))
]

-- A step leaves fewer bytes than it found.
pub next_shortens :
    (it : Iterator) → 0 < length it.rest → length (rest_of (next it)) < length it.rest
unfolding next
next_shortens it h = next_in_rest it it.rest h
