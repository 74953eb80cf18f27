-- ===== src/Inflate/Fresh.antt =====
-- The inflater that `Inflater::new` of src/inflate.rs makes.
use robinhood_feed_bench.Common.{ℕ, ◌≡◌, refl, false, Option-cases, inl, inr}
use robinhood_feed_bench.Common.Results.{Result}
use robinhood_feed_bench.Inflate.{Flate, Mode, Fault, Inflater, new_inflater, reset}

module _ (flate : Flate) where
  open flate use {D, restart, set_dictionary}

  -- For this mode and limit, with a stream that has not ended.
  abbrev pub IsFresh : Mode → ℕ → Result Fault (Inflater flate) → Type 0
  IsFresh mode max (Result.err e) = Unit {0}
  IsFresh mode max (Result.ok inf) = (inf.mode ≡ mode) × (inf.max ≡ max) × (inf.ended ≡ false)

  pub new_inflater-IsFresh :
      (de : D) (mode : Mode) (max : ℕ) → IsFresh mode max (new_inflater flate de mode max)
  unfolding new_inflater reset
  new_inflater-IsFresh de Mode.nitro max = elim (Option-cases (set_dictionary (restart de))) [
    | inl refused ↦ rw (new_inflater, reset, refused) tt
    | inr (d, set) ↦ rw (new_inflater, reset, set) (refl, refl, refl)
  ]
  new_inflater-IsFresh de (Mode.standard flag) max = (refl, refl, refl)
