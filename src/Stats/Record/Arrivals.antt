-- ===== src/Stats/Record/Arrivals.antt =====
-- What `arrive` and `arrive_tx` of the records of src/stats.rs keep true of a record.
use robinhood_feed_bench.Common.{
  ℕ, zero, suc, ◌≤◌, ◌≡◌, ◌≢◌, refl, ap, replicate, length-replicate, ◌∙◌, ◌⊎◌, inl, inr, List, [],
  ◌∷◌, Option, none, some, length, get_elem?, set, length-set, get_elem?-set_self, get_elem?-set_ne,
  get_elem?-lt, All, ltb, leb, is_some, arith, Bool-cases,
}
use robinhood_feed_bench.Event.{Instant}
use robinhood_feed_bench.Stats.{BlockRec, TxRec}
use robinhood_feed_bench.Stats.Record.{arrive, arrive_tx}

abbrev pub count_arrived : List (Option Instant) → ℕ
count_arrived [] = 0
count_arrived (none ∷ rest) = count_arrived rest
count_arrived (some a ∷ rest) = suc (count_arrived rest)

abbrev pub NotBefore : Instant → Option Instant → Type 0
NotBefore first none = Unit
NotBefore first (some a) = first ≤ a

abbrev pub NoneBefore : Instant → List (Option Instant) → Type 0
NoneBefore first = All (NotBefore first)

count_arrived-set :
    (xs : List (Option Instant)) (s : ℕ) (t : Instant)
    → get_elem? xs s ≡ some none
    → count_arrived (set xs s (some t)) ≡ suc (count_arrived xs)
count_arrived-set [] s t h = cc
count_arrived-set (x ∷ xs) zero t h = ground arith
count_arrived-set (none ∷ xs) (suc s) t h = count_arrived-set xs s t h
count_arrived-set (some a ∷ xs) (suc s) t h = ap suc (count_arrived-set xs s t h)

NotBefore-le : {f g : Instant} (o : Option Instant) → g ≤ f → NotBefore f o → NotBefore g o
NotBefore-le none h b = tt
NotBefore-le (some a) h b = omega arith

NoneBefore-set :
    (f g : Instant) (xs : List (Option Instant)) (s : ℕ) (t : Instant)
    → g ≤ f
    → g ≤ t
    → NoneBefore f xs
    → NoneBefore g (set xs s (some t))
NoneBefore-set f g [] s t h k b = tt
NoneBefore-set f g (x ∷ xs) zero t h k b = (k, all_le xs b.1)
  where
    all_le : (ys : List (Option Instant)) → NoneBefore f ys → NoneBefore g ys
    all_le [] c = tt
    all_le (y ∷ ys) c = (NotBefore-le y h c.0, all_le ys c.1)
NoneBefore-set f g (x ∷ xs) (suc s) t h k b =
    (NotBefore-le x h b.0, NoneBefore-set f g xs s t h k b.1)

-- A block record of a collector with `n` sources that completes blocks at `m` of them.
pub record BlockWf (n m : ℕ) (r : BlockRec) : Type 0 where
  pub size : length r.arrivals ≡ n
  pub counted : r.seen ≡ count_arrived r.arrivals
  pub some_seen : 1 ≤ r.seen
  pub winner : get_elem? r.arrivals r.first_src ≡ some (some r.first)
  pub earliest : NoneBefore r.first r.arrivals
  pub complete : is_some r.completed_at ≡ leb m r.seen

pub record TxWf (n : ℕ) (r : TxRec) : Type 0 where
  pub size : length r.arrivals ≡ n
  pub counted : r.seen ≡ count_arrived r.arrivals
  pub some_seen : 1 ≤ r.seen
  pub earliest : NoneBefore r.first r.arrivals

-- Where a new entry starts, or a known one stands.
abbrev pub Starts : ℕ → Instant → BlockRec → Type 0
Starts s t r =
    ((r.first ≡ t) × (r.first_src ≡ s)) ⊎ (get_elem? r.arrivals r.first_src ≡ some (some r.first))

module _ (m s : ℕ) (t : Instant) (r : BlockRec) (free : get_elem? r.arrivals s ≡ some none) where
  arrive-winner :
      Starts s t r
      → get_elem? (arrive m s t r).arrivals (arrive m s t r).first_src
        ≡ some (some (arrive m s t r).first)
  unfolding arrive
  arrive-winner st = elim (Bool-cases (ltb t r.first)) [
    | inl e ↦ rw e (get_elem?-set_self r.arrivals s (some t) (get_elem?-lt r.arrivals s free))
    | inr late ↦ rw late (stays st)
  ]
    where
      stays : Starts s t r → get_elem? (set r.arrivals s (some t)) r.first_src ≡ some (some r.first)
      stays (inl (f, e)) =
          rw (f, e) (get_elem?-set_self r.arrivals s (some t) (get_elem?-lt r.arrivals s free))
      stays (inr w) =
          get_elem?-set_ne r.arrivals (some t) (λ e. cc (ap (get_elem? r.arrivals) e)) ∙ w

  pub arrive-BlockWf :
      {n : ℕ}
      → 1 ≤ m
      → length r.arrivals ≡ n
      → r.seen ≡ count_arrived r.arrivals
      → NoneBefore r.first r.arrivals
      → is_some r.completed_at ≡ leb m r.seen
      → Starts s t r
      → BlockWf n m (arrive m s t r)
  unfolding arrive
  arrive-BlockWf pos size counted earliest complete starts = record {
    size = length-set r.arrivals s (some t) ∙ size;
    counted = omega (arith, count_arrived-set r.arrivals s t free);
    some_seen = omega arith;
    winner = arrive-winner starts;
    earliest = NoneBefore-set r.first _ r.arrivals s t (ground arith) (ground arith) earliest;
    complete = ground arith;
  }

module _ (s : ℕ) (t : Instant) (r : TxRec) (free : get_elem? r.arrivals s ≡ some none) where
  pub arrive_tx-TxWf :
      {n : ℕ}
      → length r.arrivals ≡ n
      → r.seen ≡ count_arrived r.arrivals
      → NoneBefore r.first r.arrivals
      → TxWf n (arrive_tx s t r)
  unfolding arrive_tx
  arrive_tx-TxWf size counted earliest = record {
    size = length-set r.arrivals s (some t) ∙ size;
    counted = omega (arith, count_arrived-set r.arrivals s t free);
    some_seen = omega arith;
    earliest = NoneBefore-set r.first _ r.arrivals s t (ground arith) (ground arith) earliest;
  }

-- No source has delivered a new entry yet.
pub new_arrivals :
    (n : ℕ) (f : Instant)
    → (length {A = Option Instant} (replicate n none) ≡ n)
      × (0 ≡ count_arrived (replicate n none))
      × NoneBefore f (replicate n none)
new_arrivals n f = (length-replicate n none, none_arrived n, none_before n)
  where
    none_arrived : (k : ℕ) → 0 ≡ count_arrived (replicate k none)
    none_arrived zero = refl
    none_arrived (suc k) = none_arrived k

    none_before : (k : ℕ) → NoneBefore f (replicate k none)
    none_before zero = tt
    none_before (suc k) = (tt, none_before k)

pub get_elem?-replicate : (n s : ℕ) (a : Instant) → get_elem? (replicate n none) s ≢ some (some a)
get_elem?-replicate zero s a e = cc
get_elem?-replicate (suc n) zero a e = cc
get_elem?-replicate (suc n) (suc s) a e = get_elem?-replicate n s a e
