-- ===== src/Schema/Pack/Index.antt =====
-- The field that stands under an index.
use openodin.Prelude.{
  ℕ, ◌≡◌, refl, sym, ap, ◌∙◌, Bool, true, false, Option, none, some, [], ◌∷◌, String, ◌==◌, ==→eq,
  if◌then◌else◌, All, subst,
}
use openodin.Schema.Types.{PackedSchemaField}
use openodin.Schema.Pack.{Fields, by_index, or_this}

abbrev index_or_zero : Option (String × PackedSchemaField) → ℕ
index_or_zero none = 0
index_or_zero (some entry) = entry.1.index

pub by_index-index :
    (i : ℕ) (fields : Fields) (entry : String × PackedSchemaField)
    → by_index i fields ≡ some entry
    → entry.1.index ≡ i
unfolding by_index
by_index-index i [] entry h = cc
by_index-index i (first ∷ fields) entry h =
    pick (by_index i fields) (first.1.index == i) refl (by_index-index i fields entry) h
  where
    pick :
        (later : Option (String × PackedSchemaField)) (c : Bool)
        → (first.1.index == i) ≡ c
        → (later ≡ some entry → entry.1.index ≡ i)
        → or_this later (if c then some first else none) ≡ some entry
        → entry.1.index ≡ i
    pick (some later) c e same h = same h
    pick none true e same h = sym (ap index_or_zero h) ∙ ==→eq first.1.index i e
    pick none false e same h = cc

abbrev Maybe : (String × PackedSchemaField → Type 0) → Option (String × PackedSchemaField) → Type 0
Maybe P none = Unit
Maybe P (some x) = P x

pub by_index-All :
    (P : String × PackedSchemaField → Type 0) (i : ℕ) (fields : Fields)
    (entry : String × PackedSchemaField)
    → All P fields
    → by_index i fields ≡ some entry
    → P entry
unfolding by_index
by_index-All P i [] entry ps h = cc
by_index-All P i (first ∷ fields) entry ps h =
    pick (by_index i fields) (first.1.index == i) (by_index-All P i fields entry ps.1) h
  where
    pick :
        (later : Option (String × PackedSchemaField)) (c : Bool)
        → (later ≡ some entry → P entry)
        → or_this later (if c then some first else none) ≡ some entry
        → P entry
    pick (some later) c same h = same h
    pick none true same h = subst (Maybe P) h ps.0
    pick none false same h = cc
