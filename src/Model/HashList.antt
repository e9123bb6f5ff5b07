-- ===== src/Model/HashList.antt =====
-- HashList of datamodel/BaseModel.ts.
use openodin.Prelude.{Option, none, some, List, [], ◌∷◌, ◌++◌}
use openodin.Prelude.Buffer.{Buffer}

module _ (blake2b : Buffer → Buffer) where
  -- The second argument is what `hfn` was updated with.
  hash_from : List (Option Buffer) → Buffer → Buffer
  hash_from [] updates = blake2b updates
  hash_from (none ∷ rest) updates = hash_from rest (blake2b updates)
  hash_from (some v ∷ rest) updates = hash_from rest (updates ++ v)

  unfoldable pub hash_list : List (Option Buffer) → Buffer
  unfolding hash_from
  hash_list values = hash_from values []
