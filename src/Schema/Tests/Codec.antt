-- ===== src/Schema/Tests/Codec.antt =====
-- An encoding of texts to test with: the numbers of their characters.
use Prim.Native.Char.{char, code, IsLt, IsScalar}
use Prim.Native.Nat.{ℕ, Ordering, compare as compare_ℕ}
use Prim.Native.String.{String, [] as empty, ◌∷◌ as ◌◂◌}
use text.Mathlib.TextEquality.{Char-path}
use openodin.Prelude.{◌≡◌, refl, ap, Option, none, some, [], ◌∷◌}
use openodin.Prelude.Buffer.{Buffer}
use openodin.Schema.Field.{TextCodec}

abbrev BothLt : Ordering → Ordering → Type 0
BothLt Ordering.lt o = IsLt o
BothLt Ordering.eq o = ⊥
BothLt Ordering.gt o = ⊥

-- The clauses of `IsScalar`.
abbrev Scalar : Ordering → Ordering → Ordering → Type 0
Scalar Ordering.lt o p = Unit
Scalar Ordering.eq o p = BothLt o p
Scalar Ordering.gt o p = BothLt o p

find : (a b c : Ordering) → Option (Scalar a b c)
find Ordering.lt b c = some tt
find Ordering.eq Ordering.lt Ordering.lt = some tt
find Ordering.gt Ordering.lt Ordering.lt = some tt
find Ordering.eq b c = none
find Ordering.gt b c = none

find_found : (a b c : Ordering) (p : Scalar a b c) → (q : Scalar a b c) × (find a b c ≡ some q)
unfolding find
find_found Ordering.lt b c p = (tt, refl)
find_found Ordering.eq Ordering.lt Ordering.lt p = (tt, refl)
find_found Ordering.gt Ordering.lt Ordering.lt p = (tt, refl)
find_found Ordering.eq b c p = absurd p
find_found Ordering.gt b c p = absurd p

abbrev add : (n : ℕ) → Option (IsScalar n) → String → String
add n none s = s
add n (some p) s = char n p ◂ s

encode_text : String → Buffer
encode_text empty = []
encode_text (c ◂ s) = code c ∷ encode_text s

decode_text : Buffer → String
unfolding find
decode_text [] = empty
decode_text (n ∷ rest) =
    add n (find (compare_ℕ n 55296) (compare_ℕ 57343 n) (compare_ℕ n 1114112)) (decode_text rest)

pub codec : TextCodec
codec = record { encode = encode_text; decode = decode_text }

pub decode-encode_text : (s : String) → codec.decode (codec.encode s) ≡ s
unfolding decode_text encode_text codec
decode-encode_text empty = refl
decode-encode_text (char n p ◂ s) =
    let (q, e) = find_found (compare_ℕ n 55296) (compare_ℕ 57343 n) (compare_ℕ n 1114112) p in
    rw (e, decode-encode_text s) (ap (λ c. c ◂ s) (Char-path (char n q) (char n p) refl))
