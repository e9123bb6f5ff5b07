-- ===== src/Schema/Field/Whole.antt =====
-- A whole field: what PackValue writes for it, and what UnpackValue makes of the content.
use openodin.Prelude.{
  ℕ, ◌≡◌, refl, sym, ap, ◌∙◌, Bool, true, false, not, String, leb, le→leb, ◌==◌, length, Option,
  some, none, [], ◌∷◌, ◌++◌,
}
use openodin.Prelude.Buffer.{Buffer, equals, equals_refl, equals→eq}
use openodin.Prelude.Result.{Result, ok, error, >>=-eq-ok}
use openodin.Schema.Types.{
  FieldType, uint64le, uint64be, string, bytes, byte1, byte2, byte3, byte4, byte5, byte6, byte7,
  byte8, byte16, byte32, byte64, schema, code_of, field_length, PackedSchemaField, Value, number,
  bigint, text, buffer,
}
use openodin.Schema.Number.{unpack_number, unpack_bigint}
use openodin.Schema.Field.{
  TextCodec, FieldData, pack_value, pack_typed, unpack_value, unpack_typed, unpack_fixed,
  unpack_bytes, unpack_text, check_max_size, static_value, check_static, pack_optional,
  pack_present,
}
use openodin.Schema.Field.Roundtrip.{IsNarrow, assert_ok, typed}
use openodin.Schema.Field.Framing.{IsFramed, pack_typed-IsFramed, IsFramed-short}

abbrev value_of : Result Value → Buffer
value_of (ok (buffer b)) = b
value_of _ = []

module _ (utf8 : TextCodec) where
  fixed_content : (n : ℕ) (c : Buffer) {b : Buffer} → unpack_fixed n c ≡ ok (buffer b) → c ≡ b
  unfolding unpack_fixed
  fixed_content n c h = ap value_of (assert_ok (length c == n) _ h).1

  -- Only a buffer is read as a buffer.
  unpack_typed_buffer :
      (type : FieldType) (max_size : Option ℕ) (c : Buffer) {b : Buffer}
      → unpack_typed utf8 type max_size c ≡ ok (buffer b)
      → c ≡ b
  unfolding unpack_typed unpack_bytes unpack_text
  unpack_typed_buffer uint64le m c h =
      let (n, r, e) = >>=-eq-ok (unpack_bigint uint64le c) _ h in absurd cc
  unpack_typed_buffer uint64be m c h =
      let (n, r, e) = >>=-eq-ok (unpack_bigint uint64be c) _ h in absurd cc
  unpack_typed_buffer string m c h =
      let (u, r, e) = >>=-eq-ok (check_max_size m c _) _ h in absurd cc
  unpack_typed_buffer bytes m c h =
      let (u, r, e) = >>=-eq-ok (check_max_size m c _) _ h in ap value_of e
  unpack_typed_buffer byte1 m c h = fixed_content 1 c h
  unpack_typed_buffer byte2 m c h = fixed_content 2 c h
  unpack_typed_buffer byte3 m c h = fixed_content 3 c h
  unpack_typed_buffer byte4 m c h = fixed_content 4 c h
  unpack_typed_buffer byte5 m c h = fixed_content 5 c h
  unpack_typed_buffer byte6 m c h = fixed_content 6 c h
  unpack_typed_buffer byte7 m c h = fixed_content 7 c h
  unpack_typed_buffer byte8 m c h = fixed_content 8 c h
  unpack_typed_buffer byte16 m c h = fixed_content 16 c h
  unpack_typed_buffer byte32 m c h = fixed_content 32 c h
  unpack_typed_buffer byte64 m c h = fixed_content 64 c h
  unpack_typed_buffer schema m c h = ap value_of h
  unpack_typed_buffer type m c h = let (n, r, e) = >>=-eq-ok (unpack_number type c) _ h in absurd cc

  -- A static value that PackValue let through is the one that was given, and what UnpackValue finds.
  chosen_same :
      (static : Option Buffer) (prefix : Bool) (v : Value) {w : Value}
      → static_value static prefix (some v) ≡ ok (some w)
      → v ≡ w
  unfolding static_value
  chosen_same none prefix v h = cc
  chosen_same (some s) true v h = cc
  chosen_same (some s) false (number x) h = cc
  chosen_same (some s) false (bigint x) h = cc
  chosen_same (some s) false (text x) h = cc
  chosen_same (some s) false (buffer x) h = let e = (assert_ok (equals s x) _ h).1 in cc

  static_again :
      (static : Option Buffer) (prefix : Bool) (type : FieldType) (max_size : Option ℕ) (v : Value)
      (c : Buffer) {w : Value}
      → static_value static prefix (some v) ≡ ok (some w)
      → unpack_typed utf8 type max_size c ≡ ok v
      → check_static static prefix c ≡ ok tt
  unfolding static_value check_static
  static_again none prefix type m v c h k = refl
  static_again (some s) true type m v c h k = cc
  static_again (some s) false type m (number x) c h k = cc
  static_again (some s) false type m (bigint x) c h k = cc
  static_again (some s) false type m (text x) c h k = cc
  static_again (some s) false type m (buffer x) c h k =
      let same = (assert_ok (equals s x) _ h).0 in
      rw (unpack_typed_buffer type m c k, equals→eq s x same, equals_refl x) refl

  abbrev list_of : Result Buffer → Buffer
  list_of (ok b) = b
  list_of (error e) = []

  abbrev buffer_of : Result (Option Buffer) → Buffer
  buffer_of (ok (some b)) = b
  buffer_of _ = []

  -- What `pack_optional` wrote, taken apart.
  written :
      (f : PackedSchemaField) (chosen : Option Value) {b : Buffer}
      → pack_optional utf8 f chosen ≡ ok (some b)
      → (w : Value) × (d : FieldData) × (chosen ≡ some w)
        × (pack_typed utf8 f.type f.max_size w ≡ ok d)
        × (b ≡ f.index ∷ code_of f.type ∷ (d.length_bytes ++ d.content))
  unfolding pack_optional pack_present
  written f none h = absurd (let e = (assert_ok (not f.required) _ h).1 in cc)
  written f (some w) h =
      let (packed, p, e) = >>=-eq-ok _ _ h in
      let (d, t, r) = >>=-eq-ok (pack_typed utf8 f.type f.max_size w) _ p in
      let (small, q) = assert_ok (leb f.index 255) _ r in
      (w, d, refl, t, sym (ap list_of q ∙ ap buffer_of e))

-- What stands in the bytes of the field `f` with the value `v`.
pub record IsPacked (utf8 : TextCodec) (f : PackedSchemaField) (v : Value) (b : Buffer)
    : Type 0 where
  pub parts : FieldData
  pub bytes_eq : b ≡ f.index ∷ code_of f.type ∷ (parts.length_bytes ++ parts.content)
  pub framed : IsFramed (field_length f.type) parts
  pub read_back : unpack_value utf8 parts.content f ≡ ok v

module _ (utf8 : TextCodec) (decode-encode : (s : String) → utf8.decode (utf8.encode s) ≡ s) where
  -- What PackValue writes for a value has the length of its type, or its length in front, and
  -- UnpackValue reads the value back from the content. Of a UINT24LE this needs a value below 2^24.
  pub unpack-pack_value :
      (f : PackedSchemaField) (v : Value) {b : Buffer}
      → pack_value utf8 f (some v) ≡ ok (some b)
      → IsNarrow f.type v
      → IsPacked utf8 f v b
  unfolding pack_value pack_optional pack_present unpack_value
  unpack-pack_value f v h k =
      let (chosen, s, p) = >>=-eq-ok (static_value f.static f.static_prefix (some v)) _ h in
      let (w, d, e, t, bytes_eq) = written utf8 f chosen p in
      let picked : static_value f.static f.static_prefix (some v) ≡ ok (some w) = s ∙ ap ok e in
      let same : v ≡ w = chosen_same utf8 f.static f.static_prefix v picked in
      let t' : pack_typed utf8 f.type f.max_size v ≡ ok d =
        ap (pack_typed utf8 f.type f.max_size) same ∙ t in
      let back = typed utf8 decode-encode f.type f.max_size v t' k in
      let framed = pack_typed-IsFramed utf8 f.type f.max_size v t' in
      let checked =
        static_again utf8 f.static f.static_prefix f.type f.max_size v d.content picked back in
      record {
        parts = d;
        bytes_eq = bytes_eq;
        framed = framed;
        read_back =
            rw (le→leb (length d.content) 65535 (IsFramed-short f.type d framed), checked) back;
      }

-- The value that is packed for a field: the static one, or the one that is given.
abbrev pub chosen : PackedSchemaField → Option Value → Option Value
chosen f v = picked (static_value f.static f.static_prefix v)
  where
    picked : Result (Option Value) → Option Value
    picked (ok w) = w
    picked (error e) = none

static_twice :
    (static : Option Buffer) (prefix : Bool) (v : Option Value) {w : Value}
    → static_value static prefix v ≡ ok (some w)
    → static_value static prefix (some w) ≡ ok (some w)
unfolding static_value
static_twice none prefix v h = refl
static_twice (some s) true v h = cc
static_twice (some s) false none {w} h = let e : buffer s ≡ w = cc in rw (← e, equals_refl s) refl
static_twice (some s) false (some (buffer x)) {w} h =
    let (same, r) = assert_ok (equals s x) _ h in let e : buffer x ≡ w = cc in rw (← e, same) refl
static_twice (some s) false (some v) h = cc

module _ (utf8 : TextCodec) (f : PackedSchemaField) where
  pub pack_value-chosen :
      (v : Option Value) {b : Buffer}
      → pack_value utf8 f v ≡ ok (some b)
      → (w : Value) × (chosen f v ≡ some w) × (pack_value utf8 f (some w) ≡ ok (some b))
  unfolding pack_value
  pack_value-chosen v h =
      let (given, s, p) = >>=-eq-ok (static_value f.static f.static_prefix v) _ h in
      let (w, d, e, t, bytes_eq) = written utf8 f given p in
      (
        w,
        rw s e,
        rw (static_twice f.static f.static_prefix v (s ∙ ap ok e))
            (ap (pack_optional utf8 f) (sym e) ∙ p),
      )

  pub pack_value-none : (v : Option Value) → pack_value utf8 f v ≡ ok none → chosen f v ≡ none
  unfolding pack_value pack_optional
  pack_value-none v h =
      let (given, s, p) = >>=-eq-ok (static_value f.static f.static_prefix v) _ h in
      rw s (skipped given p)
    where
      skipped : (given : Option Value) → pack_optional utf8 f given ≡ ok none → given ≡ none
      skipped none p = refl
      skipped (some w) p = let (packed, r, e) = >>=-eq-ok (pack_present utf8 f w) _ p in absurd cc
