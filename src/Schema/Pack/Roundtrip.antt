-- ===== src/Schema/Pack/Roundtrip.antt =====
-- UnpackSchema reads what PackSchema wrote.
use text.Mathlib.Text.{◌==◌ as str_eq}
use openodin.Prelude.{
  ℕ, zero, suc, ◌+◌, ◌≤◌, ◌<◌, ◌≡◌, refl, sym, ap, ◌∙◌, Bool, true, false, not, Option, none, some,
  List, [], ◌∷◌, ◌++◌, String, arith, leb, ltb, lt→ltb, ==-refl, Bool-cases, ◌⊎◌, inl, inr, length,
  length-append, if◌then◌else◌, All, subst,
}
use openodin.Prelude.Buffer.{Buffer}
use openodin.Prelude.Result.{Result, ok, error, >>=-eq-ok}
use openodin.Schema.Types.{PackedSchemaField, Value, code_of}
use openodin.Schema.Field.{TextCodec, pack_value}
use openodin.Schema.Field.Roundtrip.{IsNarrow, assert_ok}
use openodin.Schema.Field.Whole.{
  IsPacked, chosen, pack_value-chosen, pack_value-none, unpack-pack_value,
}
use openodin.Schema.Iterator.{Iterator, field_iterator, has_next, not_after}
use openodin.Schema.Iterator.Next.{next-IsPacked}
use openodin.Schema.Pack.{
  Fields, by_index, indexes, sort, is_last, or_empty, append_results, pack_entry, pack_indexes,
  pack_schema, assign, unpack_from, unpack_schema,
}
use openodin.Schema.Pack.Index.{by_index-index, by_index-All}
use openodin.Schema.Pack.Sorted.{IsFrom, IsAtLeast, sort-IsFrom}

abbrev list_of : {A : Type 0} → Result (List A) → List A
list_of (ok v) = v
list_of (error e) = []

-- The iterator is not ahead of the loop that packs.
abbrev IsBehind : Option ℕ → Option ℕ → Type 0
IsBehind none last = Unit
IsBehind (some read) none = ⊥
IsBehind (some read) (some last) = read ≤ last

fresh :
    (i : ℕ) (read last : Option ℕ)
    → IsBehind read last
    → IsAtLeast i last
    → not (is_last i last) ≡ true
    → (not_after i read ≡ false) × IsBehind read (some i)
fresh i none last b h new = (refl, tt)
fresh i (some read) none b h new = absurd b
fresh i (some read) (some last) b h new = (ground arith, ground arith)

if-true : {A : Type 0} (c : Bool) (a b : A) → c ≡ true → (if c then a else b) ≡ a
if-true c a b h = rw h refl

if-false : {A : Type 0} (c : Bool) (a b : A) → c ≡ false → (if c then a else b) ≡ b
if-false c a b h = rw h refl

-- A field without a value leaves nothing.
abbrev pub given : String → Option Value → List (String × Value)
given key none = []
given key (some w) = (key, w) ∷ []

module _ (utf8 : TextCodec) (fields : Fields) (max_index : ℕ) (props : String → Option Value) where
  abbrev pub entry_of : Option (String × PackedSchemaField) → List (String × Value)
  entry_of none = []
  entry_of (some (key, f)) = if str_eq key "" then [] else given key (chosen f (props key))

  -- The values of the fields at these indexes.
  abbrev pub entries : List ℕ → List (String × Value)
  entries [] = []
  entries (i ∷ is) = (if leb i max_index then entry_of (by_index i fields) else []) ++ entries is

  -- Of a UINT24LE the value is below 2^24.
  abbrev pub IsNarrowEntry : String × PackedSchemaField → Type 0
  IsNarrowEntry (key, f) = (w : Value) → chosen f (props key) ≡ some w → IsNarrow f.type w

  step :
      (it : Iterator) (fuel : ℕ) (key : String) (f : PackedSchemaField) (w : Value) (a r : Buffer)
      → IsPacked utf8 f w a
      → it.rest ≡ a ++ r
      → not_after f.index it.last_index ≡ false
      → leb f.index max_index ≡ true
      → by_index f.index fields ≡ some (key, f)
      → unpack_from utf8 fields max_index (suc fuel) it
        ≡ append_results (ok ((key, w) ∷ [])) (
            unpack_from utf8 fields max_index fuel
              (record it { rest = r; last_index = some f.index }))
  unfolding unpack_from assign has_next
  step it fuel key f w a r p at later small found =
      let (content, n, back) = next-IsPacked utf8 it f w p at later in
      let more : ltb 0 (length it.rest) ≡ true = rw (at, p.bytes_eq) (lt→ltb 0 _ (omega arith)) in
      rw (more, n, found, ==-refl (code_of f.type), small, back) refl

  nothing_left :
      (it : Iterator) (fuel : ℕ)
      → it.rest ≡ []
      → unpack_from utf8 fields max_index (suc fuel) it ≡ ok []
  unfolding unpack_from has_next
  nothing_left it fuel at = rw at refl

  -- What a round of the loop that packs did: it pushed nothing, or a field with its value.
  abbrev IsRound : ℕ → Option (String × PackedSchemaField) → Buffer → Type 0
  IsRound i o a =
      ((a ≡ []) × (entry_of o ≡ []))
      ⊎ ((key : String) × (f : PackedSchemaField) × (w : Value) × (o ≡ some (key, f))
          × (f.index ≡ i)
          × IsPacked utf8 f w a
          × (entry_of o ≡ (key, w) ∷ []))

  module _ (decode-encode : (s : String) → utf8.decode (utf8.encode s) ≡ s)
      (narrow : All IsNarrowEntry fields) where
    pushed :
        (i : ℕ) (key : String) (f : PackedSchemaField)
        → by_index i fields ≡ some (key, f)
        → str_eq key "" ≡ false
        → (packed : Option Buffer) {a : Buffer} → pack_value utf8 f (props key) ≡ ok packed
        → ok (or_empty packed) ≡ ok a
        → IsRound i (some (key, f)) a
    pushed i key f e has_key none p q =
        rw has_key (inl (sym (ap list_of q), ap (given key) (pack_value-none utf8 f (props key) p)))
    pushed i key f e has_key (some b) p q =
        let (w, c, p') = pack_value-chosen utf8 f (props key) p in
        let small = by_index-All IsNarrowEntry i fields (key, f) narrow e w c in
        let is_packed = unpack-pack_value utf8 decode-encode f w p' small in
        inr (
          key,
          f,
          w,
          refl,
          by_index-index i fields (key, f) e,
          subst (IsPacked utf8 f w) (ap list_of q) is_packed,
          rw has_key (ap (given key) c),
        )

    round :
        (i : ℕ) (o : Option (String × PackedSchemaField)) {a : Buffer}
        → by_index i fields ≡ o
        → pack_entry utf8 fields max_index props o ≡ ok a
        → IsRound i o a
    unfolding pack_entry
    round i none e h = inl (sym (ap list_of h), refl)
    round i (some (key, f)) e h = elim (Bool-cases (str_eq key "")) [
      | inl no_key ↦ rw no_key (inl (sym (ap list_of (sym (if-true _ _ _ no_key) ∙ h)), refl))
      | inr has_key ↦
          let (packed, p, q) =
            >>=-eq-ok (pack_value utf8 f (props key)) _ (sym (if-false _ _ _ has_key) ∙ h) in
          pushed i key f e has_key packed p q
    ]

    -- What packs the later indexes is read when the iterator has come there.
    abbrev AreRead : ℕ → List ℕ → Type 0
    AreRead i is =
        (it : Iterator) (fuel : ℕ) (b : Buffer)
        → pack_indexes utf8 fields max_index props (some i) is ≡ ok b
        → IsFrom (some i) is
        → IsBehind it.last_index (some i)
        → it.rest ≡ b
        → length b < fuel
        → unpack_from utf8 fields max_index fuel it ≡ ok (entries is)

    kept :
        (i : ℕ) (is : List ℕ) (it : Iterator) (fuel : ℕ) {b : Buffer}
        → AreRead i is
        → append_results
            (pack_entry utf8 fields max_index props (by_index i fields))
            (pack_indexes utf8 fields max_index props (some i) is)
          ≡ ok b
        → leb i max_index ≡ true
        → IsFrom (some i) is
        → not_after i it.last_index ≡ false
        → IsBehind it.last_index (some i)
        → it.rest ≡ b
        → length b < suc fuel
        → unpack_from utf8 fields max_index (suc fuel) it
          ≡ ok (entry_of (by_index i fields) ++ entries is)
    kept i is it fuel {b} are_read h small from later behind at enough =
        let (a, pa, h') =
          >>=-eq-ok (pack_entry utf8 fields max_index props (by_index i fields)) _ h in
        let (r, pr, e) = >>=-eq-ok (pack_indexes utf8 fields max_index props (some i) is) _ h' in
        let parts : a ++ r ≡ b = ap list_of e in
        elim (round i (by_index i fields) refl pa) [
          | inl (empty, no_entry) ↦
              let same : b ≡ r = sym parts ∙ ap (λ x. x ++ r) empty in
              rw no_entry (are_read it (suc fuel) r pr from behind (at ∙ same) (rw (← same) enough))
          | inr (key, f, w, found, index, is_packed, entry) ↦
              let shorter : length r < fuel =
                omega (
                  arith,
                  enough,
                  ap length parts,
                  length-append a r,
                  ap length is_packed.bytes_eq,
                ) in
              rw entry (
                step it fuel key f w a r is_packed (at ∙ sym parts) (rw index later)
                  (rw index small) (ap (λ j. by_index j fields) index ∙ found)
                ∙ ap (append_results (ok ((key, w) ∷ []))) (
                    are_read (record it { rest = r; last_index = some f.index }) fuel r pr from
                      (omega (arith, index)) refl shorter))
        ]

    loop :
        (is : List ℕ) (last : Option ℕ) (it : Iterator) (fuel : ℕ) {b : Buffer}
        → pack_indexes utf8 fields max_index props last is ≡ ok b
        → IsFrom last is
        → IsBehind it.last_index last
        → it.rest ≡ b
        → length b < fuel
        → unpack_from utf8 fields max_index fuel it ≡ ok (entries is)
    unfolding pack_indexes
    loop is last it zero h from behind at enough = absurd (omega arith)
    loop [] last it (suc fuel) h from behind at enough =
        nothing_left it fuel (at ∙ sym (ap list_of h))
    loop (i ∷ is) last it (suc fuel) {b} h from behind at enough =
        let (new, h') = assert_ok (not (is_last i last)) _ h in
        let (later, behind') = fresh i it.last_index last behind from.0 new in
        let next_is : AreRead i is = λ it fuel b. loop is (some i) it fuel in
        elim (Bool-cases (leb i max_index)) [
          | inl e ↦ rw e (
              kept i is it fuel next_is (sym (if-true _ _ _ e) ∙ h') e from.1 later behind' at
                enough)
          | inr e ↦
              rw e (next_is it (suc fuel) b (sym (if-false _ _ _ e) ∙ h') from.1 behind' at enough)
        ]

    -- What PackSchema packs of an object is what UnpackSchema makes an object of again: it has the value
    -- that was packed of each field up to the highest index allowed, in the order of the indexes, and
    -- nothing else. A field of the empty key is left out. Texts are encoded so that they are decoded again, and a UINT24LE is below 2^24.
    pub unpack-pack_schema :
        {b : Buffer}
        → pack_schema utf8 fields max_index props ≡ ok b
        → unpack_schema utf8 fields max_index b ≡ ok (entries (sort (indexes fields)))
    unfolding pack_schema unpack_schema field_iterator
    unpack-pack_schema {b} h =
        loop (sort (indexes fields)) none (field_iterator b) (length b + 1) h
          (sort-IsFrom (indexes fields)) tt refl (omega arith)
