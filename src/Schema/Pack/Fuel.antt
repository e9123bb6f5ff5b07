-- ===== src/Schema/Pack/Fuel.antt =====
-- The rounds that UnpackSchema is given are enough for any bytes.
use openodin.Prelude.{
  ℕ, zero, suc, ◌+◌, ◌-◌, ◌≤◌, ◌<◌, ◌≡◌, refl, sym, ap, ◌∙◌, arith, ltb, ltb→lt, length, Bool-cases,
  inl, inr,
}
use openodin.Prelude.Buffer.{Buffer}
use openodin.Prelude.Result.{Result, ok, error, ◌>>=◌}
use openodin.Schema.Field.{TextCodec}
use openodin.Schema.Iterator.{UnpackedField, Iterator, next, has_next, field_iterator}
use openodin.Schema.Iterator.Progress.{rest_of, next_shortens}
use openodin.Schema.Pack.{Fields, unpack_from, unpack_schema, assign, by_index, append_results}

module _ (utf8 : TextCodec) (fields : Fields) (max_index : ℕ) where
  continue :
      (fuel : ℕ) (step : Result (UnpackedField × Iterator))
      → ((it : Iterator)
          → length it.rest ≤ length (rest_of step)
          → unpack_from utf8 fields max_index fuel it
            ≡ unpack_from utf8 fields max_index (suc fuel) it)
      → (step >>= λ found.
          append_results
            (assign utf8 fields max_index found.0 (by_index found.0.index fields))
            (unpack_from utf8 fields max_index fuel found.1))
        ≡ (step >>= λ found.
            append_results
              (assign utf8 fields max_index found.0 (by_index found.0.index fields))
              (unpack_from utf8 fields max_index (suc fuel) found.1))
  continue fuel (error e) h = refl
  continue fuel (ok (field, it)) h =
      ap (append_results (assign utf8 fields max_index field (by_index field.index fields)))
        (h it (omega arith))

  one_more :
      (fuel : ℕ) (it : Iterator)
      → length it.rest < fuel
      → unpack_from utf8 fields max_index fuel it ≡ unpack_from utf8 fields max_index (suc fuel) it
  unfolding unpack_from has_next
  one_more zero it h = absurd (omega arith)
  one_more (suc fuel) it h = elim (Bool-cases (ltb 0 (length it.rest))) [
    | inl e ↦
        let shorter = next_shortens it (ltb→lt 0 (length it.rest) e) in
        rw e (
          continue fuel (next it)
            (λ later short. one_more fuel later (omega (arith, shorter, short, h))))
    | inr e ↦ rw e refl
  ]

  more :
      (extra fuel base : ℕ) (it : Iterator)
      → length it.rest < base
      → fuel ≡ extra + base
      → unpack_from utf8 fields max_index fuel it ≡ unpack_from utf8 fields max_index base it
  more zero fuel base it h e = ap (λ n. unpack_from utf8 fields max_index n it) (omega (arith, e))
  more (suc extra) fuel base it h e =
      let next_fuel : fuel ≡ suc (extra + base) = omega (arith, e) in
      ap (λ n. unpack_from utf8 fields max_index n it) next_fuel
      ∙ sym (one_more (extra + base) it (omega (arith, h)))
      ∙ more extra (extra + base) base it h refl

  -- UnpackSchema ends for any bytes, and any number of rounds above their length gives what it gives:
  -- the bound on the rounds of the model never cuts a result short.
  pub unpack_schema_enough :
      (packed : Buffer) (fuel : ℕ)
      → length packed < fuel
      → unpack_from utf8 fields max_index fuel (field_iterator packed)
        ≡ unpack_schema utf8 fields max_index packed
  unfolding unpack_schema field_iterator
  unpack_schema_enough packed fuel h =
      more (fuel - (length packed + 1)) fuel (length packed + 1) (field_iterator packed)
        (omega arith) (omega arith)
