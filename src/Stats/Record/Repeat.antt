-- ===== src/Stats/Record/Repeat.antt =====
-- Repeated deliveries in `on_event` of src/stats.rs.
use robinhood_feed_bench.Common.{
  ℕ, ◌+◌, ◌%◌, ◌<◌, ◌≡◌, refl, Option, none, some, get_elem?, Ensures, Ensures-update,
  get_elem?-set_self, arith,
}
use robinhood_feed_bench.Common.Texts.{Text}
use robinhood_feed_bench.Common.Maps.{lookup, lookup-insert_self}
use robinhood_feed_bench.Event.{Instant}
use robinhood_feed_bench.Stats.{Collector, BlockRec, u64_mod}
use robinhood_feed_bench.Stats.Record.{fill, deliver, on_block}
use robinhood_feed_bench.Stats.Wf.{IsWf}

module _ {n : ℕ} (c : Collector) (s : ℕ) (t a : Instant) (wf : IsWf n c) (lt : s < n) where
  open wf use {sizes}

  -- In a well-formed collector a block event of a source that has delivered the block already fills
  -- in what was missing, reports nothing, and leaves the arrivals, the first of them, their count and
  -- the completion as they were; the event is counted.
  pub on_block-repeat :
      (show_ms : ℕ → Text) (key : Text) (r : BlockRec) (seq : Option ℕ) (hash : Option Text)
      (count : Option ℕ) (wire_len before : ℕ)
      → get_elem? c.block_events s ≡ some before
      → lookup key c.blocks ≡ some r
      → get_elem? r.arrivals s ≡ some (some a)
      → Ensures
          (λ q.
            (lookup key q.0.blocks
              ≡ some (record (fill r seq hash count) {
                arrivals = r.arrivals;
                first = r.first;
                first_src = r.first_src;
                seen = r.seen;
                completed_at = r.completed_at;
              }))
            × (q.1 ≡ none)
            × (get_elem? q.0.block_events s ≡ some ((before + 1) % u64_mod)))
          (on_block show_ms c s t key seq hash count wire_len)
  unfolding on_block deliver fill
  on_block-repeat show_ms key r seq hash count wire_len before counted known arrived =
      Ensures-update _ _ c.block_events s (omega arith) _ λ events e.
        Ensures-update _ _ c.wire_bytes s (omega arith) _ λ _ _.
          rw (known, arrived)
            (
              lookup-insert_self key _ c.blocks,
              refl,
              rw (get_elem?-set_self c.block_events s ((events + 1) % u64_mod) (omega arith)) (cc),
            )
