-- ===== src/Stats/Seconds/Counts.antt =====
-- `window_seconds` of src/stats.rs against `in_window`, with whole nanoseconds in place of f64.
use robinhood_feed_bench.Common.{
  ℕ, zero, suc, ◌+◌, ◌-◌, ◌≤◌, ◌≡◌, refl, sym, min, Bool, true, false, ◌&&◌, ◌||◌, List, [], ◌∷◌,
  map, none, some, unwrap_or, ap, Option, ltb, leb, if◌then◌else◌, arith,
}
use robinhood_feed_bench.Event.{Instant}
use robinhood_feed_bench.Stats.{Windows, Collector}
use robinhood_feed_bench.Stats.Windows.{in_windows, in_window}
use robinhood_feed_bench.Stats.Windows.Timely.{Timely, later-some}
use robinhood_feed_bench.Stats.Windows.Order.{After, Ordered}
use robinhood_feed_bench.Stats.Seconds.{Seconds, span, spans, window_seconds}

abbrev pub total : List ℕ → ℕ
total [] = 0
total (d ∷ ds) = d + total ds

-- Nanoseconds, added up exactly.
abbrev pub nanoseconds : Seconds
nanoseconds = record { F = ℕ; zero = 0; as_secs = λ d. d; sum = total; at_least_zero = λ d. d }

-- How many instants before `now` pass a test.
abbrev pub count_below : ℕ → (ℕ → Bool) → ℕ
count_below zero test = 0
count_below (suc t) test = (if test t then 1 else 0) + count_below t test

count_below-none : (n : ℕ) → count_below n (λ t. false) ≡ 0
count_below-none zero = refl
count_below-none (suc n) = omega (arith, count_below-none n)

count_below-span : (x y n : ℕ) → count_below n (λ t. leb x t && ltb t y) ≡ min n y - x
count_below-span x y zero = omega arith
count_below-span x y (suc n) = ground (arith, count_below-span x y n)

count_below-from : (x n : ℕ) → count_below n (λ t. leb x t && true) ≡ n - x
count_below-from x zero = omega arith
count_below-from x (suc n) = ground (arith, count_below-from x n)

count_below-or :
    (p q : ℕ → Bool) (n : ℕ)
    → ((t : ℕ) → p t ≡ true → q t ≡ true → ⊥)
    → count_below n (λ t. p t || q t) ≡ count_below n p + count_below n q
count_below-or p q zero apart = omega arith
count_below-or p q (suc n) apart = ground (arith, apart n, count_below-or p q n apart)

-- Windows that follow an instant have none before it.
in_windows-late :
    (warmup now b t : ℕ) (ws : Windows)
    → After b ws
    → Ordered now ws
    → in_windows warmup t ws ≡ true
    → b ≤ t
unfolding in_windows
in_windows-late warmup now b t [] after o h = cc
in_windows-late warmup now b t ((a, none) ∷ []) after o h = ground arith
in_windows-late warmup now b t ((a, none) ∷ v ∷ ws) after o h = cc
in_windows-late warmup now b t ((a, some e) ∷ ws) after o h =
    ground (arith, in_windows-late warmup now e t ws o.2 o.3)

module _ (warmup now : ℕ) where
  -- The seconds of a window when no sum overflows.
  abbrev length_of : Instant × Option Instant → ℕ
  length_of (a, b) =
      let end = unwrap_or b now in
      let begin = a + warmup in if ltb begin end then end - begin else 0

  spans-some :
      (ws : Windows) → Timely warmup ws → spans nanoseconds warmup now ws ≡ some (map length_of ws)
  unfolding spans span
  spans-some [] h = refl
  spans-some ((a, b) ∷ ws) h = rw (later-some a warmup h.0, spans-some ws h.1) refl

  spans-count :
      (ws : Windows)
      → Ordered now ws
      → total (map length_of ws) ≡ count_below now (λ t. in_windows warmup t ws)
  unfolding in_windows
  spans-count [] o = sym (count_below-none now)
  spans-count ((a, none) ∷ []) o =
      let x = a + warmup in
      ground (
        arith,
        count_below-from x now,
        count_below-none now,
        count_below-or (λ t. leb x t && true) (λ t. false) now (λ t p q. cc),
      )
  spans-count ((a, none) ∷ v ∷ ws) o = cc
  spans-count ((a, some b) ∷ ws) o =
      let x = a + warmup in
      ground (
        arith,
        count_below-span x b now,
        spans-count ws o.3,
        count_below-or (λ t. leb x t && ltb t b) (λ t. in_windows warmup t ws) now
            (λ t p q. apart t p (in_windows-late warmup now b t ws o.2 o.3 q)),
      )
    where
      apart : (t : ℕ) → (leb (a + warmup) t && ltb t b) ≡ true → b ≤ t → ⊥
      apart t p q = ground arith

-- When the windows are in order and none is later than `now`, `window_seconds` counts the instants
-- before `now` that are in the window, once each.
pub window_seconds-count :
    (c : Collector) (now : Instant)
    → Timely c.warmup c.all_up
    → Ordered now c.all_up
    → window_seconds nanoseconds c now ≡ some (count_below now (in_window c))
unfolding window_seconds in_window
window_seconds-count c now timely o =
    rw (spans-some c.warmup now c.all_up timely) (ap some (spans-count c.warmup now c.all_up o))
