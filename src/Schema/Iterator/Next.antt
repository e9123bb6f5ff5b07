-- ===== src/Schema/Iterator/Next.antt =====
-- The iterator over packed fields.
use openodin.Prelude.{
  ℕ, ◌<◌, ◌≡◌, refl, sym, ap, ◌∙◌, false, arith, ltb, length, Option, some, none, ◌/◌, ◌%◌, [], ◌∷◌,
  ◌++◌, take-append, drop-append, length-append,
}
use openodin.Prelude.Buffer.{Buffer}
use openodin.Prelude.Result.{ok}
use openodin.Schema.Bytes.{write_be, write_le, read-write_be, length-write_be}
use openodin.Schema.Types.{FieldType, int8, code_of, field_length, PackedSchemaField, Value}
use openodin.Schema.Field.{TextCodec, FieldData, unpack_value}
use openodin.Schema.Field.Framing.{IsFramed}
use openodin.Schema.Field.Whole.{IsPacked}
use openodin.Schema.Iterator.{
  Iterator, next, next_in, take_field, take_typed, take_dynamic, take_value, from_code, find_type,
  not_after,
}

abbrev or_one : Option ℕ → ℕ
or_one none = 1
or_one (some n) = n

from_code-code_of : (type : FieldType) → from_code (code_of type) ≡ some type
unfolding from_code find_type
from_code-code_of int8 = refl
from_code-code_of type = refl

take_value_append :
    (it : Iterator) (index : ℕ) (type : FieldType) (n : ℕ) (head content more : Buffer)
    → length content ≡ n
    → take_value it index type n head (content ++ more)
      ≡ ok (
        record { index = index; type = type; value = content; packed_field = head ++ content },
        record it { rest = more; last_index = some index },
      )
unfolding take_value
take_value_append it index type n head content more h =
    let enough : ltb (length (content ++ more)) n ≡ false =
      ground (arith, length-append content more) in
    rw (enough, take-append content more n (sym h), drop-append content more n (sym h)) refl

take_typed_framed :
    (it : Iterator) (index : ℕ) (type : FieldType) (n : Option ℕ) (d : FieldData) (more : Buffer)
    → IsFramed n d
    → take_typed it index type n ((d.length_bytes ++ d.content) ++ more)
      ≡ ok (
        record {
          index = index;
          type = type;
          value = d.content;
          packed_field = index ∷ code_of type ∷ (d.length_bytes ++ d.content);
        },
        record it { rest = more; last_index = some index },
      )
unfolding take_typed take_dynamic write_be write_le
take_typed_framed it index type (some n) d more (no_length, width) =
    rw no_length
      (take_value_append it index type n (index ∷ code_of type ∷ []) d.content more width)
take_typed_framed it index type none d more (two, fits) =
    let n = length d.content in
    rw two (
      rw (read-write_be 2 n (omega arith)) (
        take_value_append it index type n (index ∷ code_of type ∷ (n / 256 % 256) ∷ (n % 256) ∷ [])
          d.content more refl))

-- There are three bytes at least.
starts :
    (type : FieldType) (d : FieldData)
    → IsFramed (field_length type) d
    → (c : ℕ) × (rest : Buffer) × ((d.length_bytes ++ d.content) ≡ c ∷ rest)
starts type d h = at_least (field_length type) d h (positive type)
  where
    positive : (type : FieldType) → 0 < or_one (field_length type)
    positive int8 = omega arith
    positive type = omega arith

    nonempty : (b : Buffer) → 0 < length b → (c : ℕ) × (rest : Buffer) × (b ≡ c ∷ rest)
    nonempty [] h = absurd (omega arith)
    nonempty (c ∷ rest) h = (c, rest, refl)

    at_least :
        (n : Option ℕ) (d : FieldData)
        → IsFramed n d
        → 0 < or_one n
        → (c : ℕ) × (rest : Buffer) × ((d.length_bytes ++ d.content) ≡ c ∷ rest)
    at_least (some n) d (no_length, width) p = nonempty _ (rw no_length (omega (arith, width)))
    at_least none d (two, fits) p = nonempty _ (
        omega (
          arith,
          length-append d.length_bytes d.content,
          ap length two,
          length-write_be 2 (length d.content),
        ))

next_in_body :
    (it : Iterator) (index : ℕ) (type : FieldType) (body more : Buffer)
    → (c : ℕ) × (rest : Buffer) × (body ≡ c ∷ rest)
    → not_after index it.last_index ≡ false
    → next_in it (index ∷ code_of type ∷ (body ++ more))
      ≡ take_typed it index type (field_length type) (body ++ more)
unfolding next_in take_field
next_in_body it index type body more (c, rest, e) later = rw (e, later, from_code-code_of type) refl

module _ (utf8 : TextCodec) where
  -- `next` gives the field that stands at the pointer, moves the pointer behind it and keeps its index,
  -- when that index is above the last one. What follows does not matter.
  pub next-IsPacked :
      (it : Iterator) (f : PackedSchemaField) (v : Value) {b more : Buffer}
      → IsPacked utf8 f v b
      → it.rest ≡ b ++ more
      → not_after f.index it.last_index ≡ false
      → (content : Buffer) × (next it
          ≡ ok (
            record { index = f.index; type = f.type; value = content; packed_field = b },
            record it { rest = more; last_index = some f.index },
          ))
        × (unpack_value utf8 content f ≡ ok v)
  unfolding next
  next-IsPacked it f v {b} {more} p at later =
      let body = p.parts.length_bytes ++ p.parts.content in
      let step =
        next_in_body it f.index f.type body more (starts f.type p.parts p.framed) later
        ∙ take_typed_framed it f.index f.type (field_length f.type) p.parts more p.framed in
      (p.parts.content, rw (at, p.bytes_eq) step, p.read_back)
