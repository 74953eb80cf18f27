-- ===== src/Stats/Record/Delivered.antt =====
-- Which delivery the records of src/stats.rs keep: the arrival of a block on a source, before and
-- after an event.
use robinhood_feed_bench.Common.{
  ℕ, zero, suc, ◌+◌, ◌%◌, ◌<◌, ◌≡◌, refl, ap, sym, ◌∙◌, Bool, List, [], ◌∷◌, Option, none, some,
  get_elem?, get_elem?-lt, set, update, replicate, is_some, if◌then◌else◌, ◌==◌, ◌>>=◌, >>=-eq-some,
  unwrap_or, length, arith, Bool-cases, inl, inr,
}
use robinhood_feed_bench.Common.Texts.{Text, text_eq, text_eq_iff}
use robinhood_feed_bench.Common.Maps.{lookup, insert, lookup-insert}
use robinhood_feed_bench.Event.{Instant, Hash}
use robinhood_feed_bench.Stats.{Collector, BlockRec, Notice, u64_mod}
use robinhood_feed_bench.Stats.Record.{
  or_else, new_block, fill, arrive, completion, deliver, on_block, on_tx,
}

-- The arrival at a source, if it is a source and has one.
abbrev pub seat : List (Option Instant) → ℕ → Option Instant
seat arrivals s = elim (get_elem? arrivals s) [ none ↦ none | some a ↦ a ]

abbrev pub seat_of : Option BlockRec → ℕ → Option Instant
seat_of none s = none
seat_of (some r) s = seat r.arrivals s

-- When the collector has the block as delivered by the source.
abbrev pub arrival : Collector → Text → ℕ → Option Instant
arrival c key s = seat_of (lookup key c.blocks) s

seat-replicate : (n s : ℕ) → seat (replicate n none) s ≡ none
seat-replicate zero s = refl
seat-replicate (suc n) zero = refl
seat-replicate (suc n) (suc s) = seat-replicate n s

-- The first delivery stays.
abbrev kept : List (Option Instant) → ℕ → Instant → List (Option Instant)
kept [] s t = []
kept (none ∷ rest) zero t = some t ∷ rest
kept (some a ∷ rest) zero t = some a ∷ rest
kept (x ∷ rest) (suc s) t = x ∷ kept rest s t

kept_free :
    (arrivals : List (Option Instant)) (s : ℕ) (t : Instant)
    → get_elem? arrivals s ≡ some none
    → set arrivals s (some t) ≡ kept arrivals s t
kept_free [] s t h = cc
kept_free (none ∷ rest) zero t h = refl
kept_free (some a ∷ rest) zero t h = cc
kept_free (none ∷ rest) (suc s) t h = ap (λ r. none ∷ r) (kept_free rest s t h)
kept_free (some a ∷ rest) (suc s) t h = ap (λ r. some a ∷ r) (kept_free rest s t h)

kept_taken :
    (arrivals : List (Option Instant)) (s : ℕ) (t a : Instant)
    → get_elem? arrivals s ≡ some (some a)
    → arrivals ≡ kept arrivals s t
kept_taken [] s t a h = cc
kept_taken (none ∷ rest) zero t a h = cc
kept_taken (some b ∷ rest) zero t a h = refl
kept_taken (none ∷ rest) (suc s) t a h = ap (λ r. none ∷ r) (kept_taken rest s t a h)
kept_taken (some b ∷ rest) (suc s) t a h = ap (λ r. some b ∷ r) (kept_taken rest s t a h)

seat-kept :
    (arrivals : List (Option Instant)) (s : ℕ) (t : Instant) (u : ℕ)
    → s < length arrivals
    → seat (kept arrivals s t) u ≡ or_else (seat arrivals u) (if s == u then some t else none)
seat-kept [] s t u h = absurd (omega arith)
seat-kept (none ∷ rest) zero t zero h = refl
seat-kept (some a ∷ rest) zero t zero h = refl
seat-kept (none ∷ rest) zero t (suc u) h = ground arith
seat-kept (some a ∷ rest) zero t (suc u) h = ground arith
seat-kept (none ∷ rest) (suc s) t zero h = ground arith
seat-kept (some a ∷ rest) (suc s) t zero h = ground arith
seat-kept (none ∷ rest) (suc s) t (suc u) h = ground (arith, seat-kept rest s t u)
seat-kept (some a ∷ rest) (suc s) t (suc u) h = ground (arith, seat-kept rest s t u)

pub or_else-none : (o : Option Instant) → or_else o none ≡ o
or_else-none none = refl
or_else-none (some a) = refl

seat-found :
    (o : Option BlockRec) (n s u : ℕ) (seq : Option ℕ) (t : Instant)
    → seat (unwrap_or o (new_block n seq s t)).arrivals u ≡ seat_of o u
unfolding new_block
seat-found none n s u seq t = seat-replicate n u
seat-found (some r) n s u seq t = refl

-- What `deliver` stores.
record Stored (c d : Collector) (key : Text) (s : ℕ) (t : Instant) (r : BlockRec) : Type 0 where
  entry : BlockRec
  stored : d.blocks ≡ insert key entry c.blocks
  first_kept : entry.arrivals ≡ kept r.arrivals s t
  in_range : s < length r.arrivals

module _ (show_ms : ℕ → Text) where
  deliver-Stored :
      (c : Collector) (key : Text) (s : ℕ) (t : Instant) (r : BlockRec)
      {q : Collector × Option Notice}
      → deliver show_ms c key s t r ≡ some q
      → Stored c q.0 key s t r
  unfolding deliver arrive
  deliver-Stored c key s t r {q} h =
      let (before, found, rest) = >>=-eq-some (get_elem? r.arrivals s) _ h in
      by_before before found rest
    where
      by_before :
          (before : Option Instant)
          → get_elem? r.arrivals s ≡ some before
          → (if is_some before
              then some (record c { blocks = insert key r c.blocks }, none)
              else (completion show_ms c key (arrive c.min_sources s t r) >>= λ notice.
                  some (
                    record c { blocks = insert key (arrive c.min_sources s t r) c.blocks },
                    notice,
                  )))
            ≡ some q
          → Stored c q.0 key s t r
      by_before (some a) found e = record {
        entry = r;
        stored = ground arith;
        first_kept = kept_taken r.arrivals s t a found;
        in_range = get_elem?-lt r.arrivals s found;
      }
      by_before none found e =
          let (notice, done, last) =
            >>=-eq-some (completion show_ms c key (arrive c.min_sources s t r)) _ e in
          record {
            entry = arrive c.min_sources s t r;
            stored = ground arith;
            first_kept = kept_free r.arrivals s t found;
            in_range = get_elem?-lt r.arrivals s found;
          }

  -- What a delivery of `key` by `s` at `t` adds to the arrival of `j` at `u`.
  pub on_block-arrival :
      (c : Collector) (s : ℕ) (t : Instant) (key : Text) (seq : Option ℕ) (hash : Option Text)
      (count : Option ℕ) (wire_len : ℕ) {q : Collector × Option Notice} (j : Text) (u : ℕ)
      → on_block show_ms c s t key seq hash count wire_len ≡ some q
      → arrival q.0 j u
        ≡ or_else
            (arrival c j u)
            (if text_eq key j then (if s == u then some t else none) else none)
  unfolding on_block new_block fill
  on_block-arrival c s t key seq hash count wire_len {q} j u h =
      let (a, _, counted) = >>=-eq-some (update c.block_events s (λ k. (k + 1) % u64_mod)) _ h in
      let (b, _, delivered) =
        >>=-eq-some (update c.wire_bytes s (λ k. (k + wire_len) % u64_mod)) _ counted in
      let found = unwrap_or (lookup key c.blocks) (new_block (length c.sources) seq s t) in
      let stored = deliver-Stored _ key s t (fill found seq hash count) delivered in
      let seated : seat stored.entry.arrivals u
          ≡ or_else (seat found.arrivals u) (if s == u then some t else none) =
        ap (λ l. seat l u) stored.first_kept ∙ seat-kept found.arrivals s t u stored.in_range in
      elim (Bool-cases (text_eq key j)) [
        | inr other ↦
            rw (stored.stored, lookup-insert key j stored.entry c.blocks, other)
              (sym (or_else-none (arrival c j u)))
        | inl same ↦
            let named : key ≡ j = (text_eq_iff key j).0 same in
            rw (stored.stored, lookup-insert key j stored.entry c.blocks, same)
              (seated
                ∙ ap (λ a. or_else a (if s == u then some t else none))
                    (seat-found (lookup key c.blocks) (length c.sources) s u seq t
                      ∙ ap (λ k. arrival c k u) named))
      ]

pub on_tx-blocks :
    (c : Collector) (s : ℕ) (t : Instant) (hash : Hash) (key : Option Text) (count : Option ℕ)
    (swap : Bool) (raw_len : ℕ) {q : Collector × Option Notice}
    → on_tx c s t hash key count swap raw_len ≡ some q
    → q.0.blocks ≡ c.blocks
unfolding on_tx
on_tx-blocks c s t hash key count swap raw_len h = ground arith
