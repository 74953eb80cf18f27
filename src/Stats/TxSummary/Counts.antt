-- ===== src/Stats/TxSummary/Counts.antt =====
-- The counters of `tx_summary` of src/stats.rs against the transactions that they count.
use robinhood_feed_bench.Common.{
  ℕ, zero, suc, ◌+◌, ◌≡◌, refl, sym, ap, subst, ◌∙◌, Bool, true, false, ◌&&◌, List, [], ◌∷◌, map,
  Option, none, some, get_elem?, ltb, leb, ◌==◌, is_some, if◌then◌else◌, ◌>>=◌, >>=-eq-some,
  Bool-cases, inl, inr, arith,
}
use robinhood_feed_bench.Event.{Instant}
use robinhood_feed_bench.Stats.{Collector, TxRec}
use robinhood_feed_bench.Stats.Windows.{in_window}
use robinhood_feed_bench.Stats.Windows.Timely.{Timely, try_in_window-some}
use robinhood_feed_bench.Stats.Percentile.{Floats}
use robinhood_feed_bench.Stats.Summary.{push_delays}
use robinhood_feed_bench.Stats.TxSummary.{bump, is_at, ahead_flags, match_tx, tally_txs, TxTally}

-- How many transactions pass a test.
abbrev pub tally_of : (TxRec → Bool) → List TxRec → ℕ
tally_of test [] = 0
tally_of test (r ∷ rs) = (if test r then 1 else 0) + tally_of test rs

-- Whether a test holds for the arrival at source `i`.
abbrev pub arrival : (Option Instant → Bool) → ℕ → List (Option Instant) → Bool
arrival p i [] = false
arrival p zero (a ∷ ts) = p a
arrival p (suc i) (a ∷ ts) = arrival p i ts

abbrev pub came : Option Instant → Bool
came none = false
came (some t) = true

abbrev pub came_at : Instant → Option Instant → Bool
came_at first none = false
came_at first (some t) = t == first

-- First seen in the window; and delivered by enough sources.
abbrev pub inside : Collector → TxRec → Bool
inside c r = in_window c r.first

abbrev pub enough : Collector → TxRec → Bool
enough c r = inside c r && leb c.min_sources r.seen

arrival-same :
    (p q : Option Instant → Bool) (i : ℕ) (ts : List (Option Instant))
    → ((a : Option Instant) → p a ≡ q a)
    → arrival p i ts ≡ arrival q i ts
arrival-same p q i [] h = refl
arrival-same p q zero (a ∷ ts) h = h a
arrival-same p q (suc i) (a ∷ ts) h = arrival-same p q i ts h

bumped :
    (flag : Bool) (flags : List Bool) (x : ℕ) (counts : List ℕ) {rest : List ℕ}
    → bump (flag ∷ flags) (x ∷ counts) ≡ some rest
    → (more : List ℕ) × (bump flags counts ≡ some more)
      × (rest ≡ (if flag then x + 1 else x) ∷ more)
unfolding bump
bumped true flags x counts h =
    let (more, f, g) = >>=-eq-some (bump flags counts) _ h in (more, f, ground (arith, g))
bumped false flags x counts h =
    let (more, f, g) = >>=-eq-some (bump flags counts) _ h in (more, f, ground (arith, g))

bump-at :
    (p : Option Instant → Bool) (ts : List (Option Instant)) (counts : List ℕ) (i : ℕ) {k : ℕ}
    {rest : List ℕ}
    → bump (map p ts) counts ≡ some rest
    → get_elem? counts i ≡ some k
    → get_elem? rest i ≡ some (k + (if arrival p i ts then 1 else 0))
unfolding bump
bump-at p [] counts i {k} {rest} h e =
    let same : rest ≡ counts = ground (arith, h) in
    ap (λ l. get_elem? l i) same ∙ e ∙ ap some (omega arith)
bump-at p (a ∷ ts) [] i h e = cc
bump-at p (a ∷ ts) (x ∷ counts) zero h e =
    let (more, f, g) = bumped (p a) (map p ts) x counts h in
    ap (λ l. get_elem? l 0) g ∙ ap some (ground (arith, e))
bump-at p (a ∷ ts) (x ∷ counts) (suc i) h e =
    let (more, f, g) = bumped (p a) (map p ts) x counts h in
    ap (λ l. get_elem? l (suc i)) g ∙ bump-at p ts counts i f e

module _ (floats : Floats) (ms : ℕ → floats.F) (pct : ℕ → ℕ → floats.F) where
  -- The counters behind a tally, with those of source `i`.
  pub record At (i total matched swaps k f : ℕ) (t : TxTally floats ms pct) : Type 0 where
    pub total_at : t.total ≡ total
    pub matched_at : t.matched ≡ matched
    pub swaps_at : t.swaps ≡ swaps
    pub seen_at : get_elem? t.seen i ≡ some k
    pub first_at : get_elem? t.first i ≡ some f

  abbrev pub one : Bool → ℕ
  one b = if b then 1 else 0

  match_tx-At :
      (r : TxRec) (i n m w k f : ℕ) (t : TxTally floats ms pct) {q : TxTally floats ms pct}
      → match_tx floats ms pct r t ≡ some q
      → At i n m w k f t
      → At i n
          (m + 1)
          (w + one r.synthetic_swap)
          k
          (f + one (arrival (came_at r.first) i r.arrivals))
          q
  unfolding match_tx
  match_tx-At r i n m w k f t {q} h now =
      let (lags, _, h1) = >>=-eq-some (push_delays floats ms pct r.first r.arrivals t.lags) _ h in
      let (first, e, h2) = >>=-eq-some (bump (map (is_at r.first) r.arrivals) t.first) _ h1 in
      let (ahead, _, h3) =
        >>=-eq-some (bump (ahead_flags r.arrivals 0 r.arrivals) t.first_1ms) _ h2 in
      let got = bump-at (is_at r.first) r.arrivals t.first i e now.first_at in
      let same = arrival-same (is_at r.first) (came_at r.first) i r.arrivals (came-same r.first) in
      let last : q.first ≡ first = ground (arith, h3) in
      record {
        total_at = ground (arith, h3, now.total_at);
        matched_at = ground (arith, h3, now.matched_at);
        swaps_at = ground (arith, h3, now.swaps_at);
        seen_at = ground (arith, h3, now.seen_at);
        first_at = ap (λ l. get_elem? l i) last ∙ got ∙ ap (λ b. some (f + one b)) same;
      }
    where
      came-same : (first : Instant) (a : Option Instant) → is_at first a ≡ came_at first a
      came-same first none = refl
      came-same first (some t) = refl

  pub At-same :
      {i n m w k f n' m' w' k' f' : ℕ} {t : TxTally floats ms pct}
      → n ≡ n'
      → m ≡ m'
      → w ≡ w'
      → k ≡ k'
      → f ≡ f'
      → At i n m w k f t
      → At i n' m' w' k' f' t
  At-same en em ew ek ef now = record {
    total_at = now.total_at ∙ en;
    matched_at = now.matched_at ∙ em;
    swaps_at = now.swaps_at ∙ ew;
    seen_at = now.seen_at ∙ ap some ek;
    first_at = now.first_at ∙ ap some ef;
  }

  -- The counters that the transactions add up to.
  abbrev Adds : Collector → List TxRec → ℕ → ℕ → ℕ → ℕ → ℕ → ℕ → TxTally floats ms pct → Type 0
  Adds c rs i n m w k f t =
      At i (n + tally_of (inside c) rs) (m + tally_of (enough c) rs)
        (w + tally_of (λ r. enough c r && r.synthetic_swap) rs)
        (k + tally_of (λ r. inside c r && arrival came i r.arrivals) rs)
        (f + tally_of (λ r. enough c r && arrival (came_at r.first) i r.arrivals) rs) t

  came-is_some : (a : Option Instant) → is_some a ≡ came a
  came-is_some none = refl
  came-is_some (some t) = refl

  pub tally_txs-Adds :
      (c : Collector) (rs : List TxRec) (i n m w k f : ℕ) (t : TxTally floats ms pct)
      {q : TxTally floats ms pct}
      → Timely c.warmup c.all_up
      → tally_txs floats ms pct c rs t ≡ some q
      → At i n m w k f t
      → Adds c rs i n m w k f q
  unfolding tally_txs
  tally_txs-Adds c [] i n m w k f t {q} timely h now =
      let same : q ≡ t = ground (arith, h) in
      subst (At i (n + 0) (m + 0) (w + 0) (k + 0) (f + 0)) (sym same)
        (At-same (omega arith) (omega arith) (omega arith) (omega arith) (omega arith) now)
  tally_txs-Adds c (r ∷ rs) i n m w k f t {q} timely h now =
      let asked = try_in_window-some c r.first timely in
      elim (Bool-cases (in_window c r.first)) [
        | inr out ↦
            let h' : tally_txs floats ms pct c rs t ≡ some q =
              sym (rw (tally_txs, asked, out) refl) ∙ h in
            At-same (ground arith) (ground arith) (ground arith) (ground arith) (ground arith)
              (tally_txs-Adds c rs i n m w k f t timely h' now)
        | inl within ↦
            let h' : (bump (map is_some r.arrivals) t.seen >>= λ seen.
            let counted = record t { total = t.total + 1; seen = seen } in
            if ltb r.seen c.min_sources
            then tally_txs floats ms pct c rs counted
            else (match_tx floats ms pct r counted >>= λ matched.
                tally_txs floats ms pct c rs matched))
                ≡ some q =
              sym (rw (tally_txs, asked, within) refl) ∙ h in
            let (seen, e, h1) = >>=-eq-some (bump (map is_some r.arrivals) t.seen) _ h' in
            let counted : TxTally floats ms pct = record t { total = t.total + 1; seen = seen } in
            let got =
              bump-at is_some r.arrivals t.seen i e now.seen_at
              ∙ ap (λ b. some (k + one b)) (arrival-same is_some came i r.arrivals came-is_some) in
            let then_at : At i (n + 1) m w (k + one (arrival came i r.arrivals)) f counted =
              record {
                total_at = ap (λ x. x + 1) now.total_at;
                matched_at = now.matched_at;
                swaps_at = now.swaps_at;
                seen_at = got;
                first_at = now.first_at;
              } in
            let pick = λ (few : Bool).
              if few
              then tally_txs floats ms pct c rs counted
              else (match_tx floats ms pct r counted >>= λ matched.
                  tally_txs floats ms pct c rs matched) in
            elim (Bool-cases (ltb r.seen c.min_sources)) [
              | inl few ↦
                  let h2 : tally_txs floats ms pct c rs counted ≡ some q = sym (ap pick few) ∙ h1 in
                  At-same (ground arith) (ground arith) (ground arith) (ground arith) (ground arith)
                    (tally_txs-Adds c rs i _ _ _ _ _ counted timely h2 then_at)
              | inr many ↦
                  let h2 : (match_tx floats ms pct r counted >>= λ matched.
                  tally_txs floats ms pct c rs matched)
                      ≡ some q =
                    sym (ap pick many) ∙ h1 in
                  let (matched, g, h3) = >>=-eq-some (match_tx floats ms pct r counted) _ h2 in
                  At-same (ground arith) (ground arith) (ground arith) (ground arith) (ground arith)
                    (tally_txs-Adds c rs i _ _ _ _ _ matched timely h3
                      (match_tx-At r i _ _ _ _ _ counted g then_at))
            ]
      ]
