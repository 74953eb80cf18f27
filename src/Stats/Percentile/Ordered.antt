-- ===== src/Stats/Percentile/Ordered.antt =====
-- Sorting the samples of src/stats.rs, and the order of their percentiles.
use robinhood_feed_bench.Common.{
  ℕ, zero, suc, ◌-◌, ◌≤◌, ◌≡◌, refl, ap, ◌∙◌, true, false, List, [], ◌∷◌, some, length, get_elem?,
  get_elem?-in, All, All-get, subst, Ensures, Bool-cases, inl, inr, arith,
}
use robinhood_feed_bench.Stats.Percentile.{
  Floats, rank, nearest_rank, insert_sorted, sorted, last_or_zero, percentiles, Percentiles,
}
use robinhood_feed_bench.Stats.Percentile.Ranks.{rank-bounds, rank_mono}

-- `partial_cmp` on numbers is a total order.
pub record IsOrder (floats : Floats) : Type 0 where
  pub asym : (a b : floats.F) → floats.greater a b ≡ true → floats.greater b a ≡ false
  pub trans :
      (a b c : floats.F)
      → floats.greater a b ≡ false
      → floats.greater b c ≡ false
      → floats.greater a c ≡ false

module _ (floats : Floats) (order : IsOrder floats) where
  open floats use {F, greater}

  abbrev pub Upto : F → F → Type 0
  Upto a b = greater a b ≡ false

  abbrev pub Sorted : List F → Type 0
  Sorted [] = Unit {0}
  Sorted (x ∷ xs) = All (Upto x) xs × Sorted xs

  Upto-refl : (a : F) → Upto a a
  Upto-refl a = elim (Bool-cases (greater a a)) [
    | inl above ↦ order.asym a a above
    | inr upto ↦ upto
  ]

  All-Upto : (x y : F) (ys : List F) → Upto x y → All (Upto y) ys → All (Upto x) ys
  All-Upto x y [] h all = tt
  All-Upto x y (z ∷ zs) h all = (order.trans x y z h all.0, All-Upto x y zs h all.1)

  insert_sorted-All :
      (z x : F) (ys : List F)
      → Upto z x
      → All (Upto z) ys
      → All (Upto z) (insert_sorted floats x ys)
  unfolding insert_sorted
  insert_sorted-All z x [] h all = (h, tt)
  insert_sorted-All z x (y ∷ ys) h all = elim (Bool-cases (greater x y)) [
    | inl above ↦ rw above (all.0, insert_sorted-All z x ys h all.1)
    | inr upto ↦ rw upto (h, all)
  ]

  insert_sorted-Sorted : (x : F) (ys : List F) → Sorted ys → Sorted (insert_sorted floats x ys)
  unfolding insert_sorted
  insert_sorted-Sorted x [] h = (tt, tt)
  insert_sorted-Sorted x (y ∷ ys) h = elim (Bool-cases (greater x y)) [
    | inl above ↦
        rw above
          (insert_sorted-All y x ys (order.asym x y above) h.0, insert_sorted-Sorted x ys h.1)
    | inr upto ↦ rw upto ((upto, All-Upto x y ys upto h.0), h)
  ]

  length-insert_sorted :
      (x : F) (ys : List F) → length (insert_sorted floats x ys) ≡ suc (length ys)
  unfolding insert_sorted
  length-insert_sorted x [] = refl
  length-insert_sorted x (y ∷ ys) = elim (Bool-cases (greater x y)) [
    | inl above ↦ rw (above, length-insert_sorted x ys) refl
    | inr upto ↦ rw upto refl
  ]

  sorted-Sorted : (xs : List F) → Sorted (sorted floats xs)
  unfolding sorted
  sorted-Sorted [] = tt
  sorted-Sorted (x ∷ xs) = insert_sorted-Sorted x (sorted floats xs) (sorted-Sorted xs)

  pub length-sorted : (xs : List F) → length (sorted floats xs) ≡ length xs
  unfolding sorted
  length-sorted [] = refl
  length-sorted (x ∷ xs) = length-insert_sorted x (sorted floats xs) ∙ ap suc (length-sorted xs)

  -- Later elements of a sorted list are no less.
  get-Upto :
      (xs : List F) (i j : ℕ) (a b : F)
      → Sorted xs
      → i ≤ j
      → get_elem? xs i ≡ some a
      → get_elem? xs j ≡ some b
      → Upto a b
  get-Upto [] i j a b s le ea eb = cc
  get-Upto (x ∷ xs) zero j a b s le ea eb =
      let same : x ≡ a = cc in
      subst (λ z. Upto z b) same (All-get (Upto x) (x ∷ xs) j b (Upto-refl x, s.0) eb)
  get-Upto (x ∷ xs) (suc i) zero a b s le ea eb = absurd (omega arith)
  get-Upto (x ∷ xs) (suc i) (suc j) a b s le ea eb = get-Upto xs i j a b s.1 (omega arith) ea eb

  pub nearest_rank-total : (xs : List F) (p : ℕ) → (a : F) × (nearest_rank floats xs p ≡ some a)
  unfolding nearest_rank
  nearest_rank-total [] p = (floats.zero, refl)
  nearest_rank-total (x ∷ xs) p =
      get_elem?-in (x ∷ xs) (rank p (length (x ∷ xs)) - 1)
        (omega (arith, rank-bounds p (length (x ∷ xs)) (omega arith)))

  nearest_rank-Upto :
      (xs : List F) (p q : ℕ) (a b : F)
      → Sorted xs
      → p ≤ q
      → nearest_rank floats xs p ≡ some a
      → nearest_rank floats xs q ≡ some b
      → Upto a b
  unfolding nearest_rank
  nearest_rank-Upto [] p q a b s le ea eb =
      let same : a ≡ b = cc in subst (Upto a) same (Upto-refl a)
  nearest_rank-Upto (x ∷ xs) p q a b s le ea eb =
      get-Upto (x ∷ xs) _ _ a b s (omega (arith, rank_mono p q (length (x ∷ xs)) le)) ea eb

  last-get :
      (x : F) (xs : List F) → get_elem? (x ∷ xs) (length xs) ≡ some (last_or_zero floats (x ∷ xs))
  unfolding last_or_zero
  last-get x [] = refl
  last-get x (y ∷ ys) = last-get y ys

  nearest_rank-last :
      (xs : List F) (p : ℕ) (a : F)
      → Sorted xs
      → nearest_rank floats xs p ≡ some a
      → Upto a (last_or_zero floats xs)
  unfolding nearest_rank
  nearest_rank-last [] p a s ea =
      let same : a ≡ floats.zero = cc in unfold last_or_zero in subst (Upto a) same (Upto-refl a)
  nearest_rank-last (x ∷ xs) p a s ea =
      get-Upto (x ∷ xs) _ (length xs) a _ s
        (omega (arith, rank-bounds p (length (x ∷ xs)) (omega arith))) ea (last-get x xs)

  -- `Percentiles::of` does not panic: it counts the samples, and the percentiles rise from the
  -- tenth to the largest sample, for a total order on the samples.
  pub percentiles-ordered :
      (samples : List F)
      → Ensures
          (λ (p : Percentiles floats).
            (p.n ≡ length samples)
            × Upto p.p10 p.p50
            × Upto p.p50 p.p75
            × Upto p.p75 p.p90
            × Upto p.p90 p.p95
            × Upto p.p95 p.p99
            × Upto p.p99 p.p999
            × Upto p.p999 p.max)
          (percentiles floats samples)
  unfolding percentiles
  percentiles-ordered samples =
      let s = sorted floats samples in
      let ok = sorted-Sorted samples in
      let (a, ea) = nearest_rank-total s 100 in
      let (b, eb) = nearest_rank-total s 500 in
      let (c, ec) = nearest_rank-total s 750 in
      let (d, ed) = nearest_rank-total s 900 in
      let (e, ee) = nearest_rank-total s 950 in
      let (f, ef) = nearest_rank-total s 990 in
      let (g, eg) = nearest_rank-total s 999 in
      rw (ea, eb, ec, ed, ee, ef, eg)
        (
          length-sorted samples,
          nearest_rank-Upto s 100 500 a b ok (omega arith) ea eb,
          nearest_rank-Upto s 500 750 b c ok (omega arith) eb ec,
          nearest_rank-Upto s 750 900 c d ok (omega arith) ec ed,
          nearest_rank-Upto s 900 950 d e ok (omega arith) ed ee,
          nearest_rank-Upto s 950 990 e f ok (omega arith) ee ef,
          nearest_rank-Upto s 990 999 f g ok (omega arith) ef eg,
          nearest_rank-last s 999 g ok eg,
        )
