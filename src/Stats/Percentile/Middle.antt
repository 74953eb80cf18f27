-- ===== src/Stats/Percentile/Middle.antt =====
-- `median` of src/stats.rs reads within the samples.
use robinhood_feed_bench.Common.{
  ◌-◌, ◌/◌, ◌%◌, ◌≡◌, refl, List, [], ◌∷◌, some, length, get_elem?-in, ◌==◌, Bool-cases, inl, inr,
  arith,
}
use robinhood_feed_bench.Stats.Percentile.{Floats, median}

module _ (floats : Floats) where
  open floats use {F}

  pub median-total : (xs : List F) → (a : F) × (median floats xs ≡ some a)
  unfolding median
  median-total [] = (floats.zero, refl)
  median-total (x ∷ xs) = elim (Bool-cases (length (x ∷ xs) % 2 == 1)) [
    | inl odd ↦
        let (a, e) = get_elem?-in (x ∷ xs) (length (x ∷ xs) / 2) (omega arith) in
        (a, rw (median, odd) e)
    | inr even ↦
        let (a, e) = get_elem?-in (x ∷ xs) (length (x ∷ xs) / 2 - 1) (omega arith) in
        let (b, k) = get_elem?-in (x ∷ xs) (length (x ∷ xs) / 2) (omega arith) in
        (floats.half_sum a b, rw (median, even, e, k) refl)
  ]
