-- ===== src/Stats/Record/Frame.antt =====
-- What the `Block` and `Tx` branches of `on_event` of src/stats.rs leave alone.
use robinhood_feed_bench.Common.{ℕ, ◌+◌, ◌%◌, ◌≡◌, Bool, Option, some, update, >>=-eq-some, arith}
use robinhood_feed_bench.Common.Texts.{Text}
use robinhood_feed_bench.Event.{Instant, Hash}
use robinhood_feed_bench.Stats.{Collector, BlockRec, Notice, u64_mod}
use robinhood_feed_bench.Stats.Record.{completion, deliver, on_block, on_tx}

-- What is not about a block or a transaction.
abbrev pub Untouched : Collector → Collector → Type 0
Untouched c d =
    (d.all_up ≡ c.all_up)
    × (d.warmup ≡ c.warmup)
    × (d.reference ≡ c.reference)
    × (d.connected ≡ c.connected)
    × (d.ever_connected ≡ c.ever_connected)
    × (d.reconnects ≡ c.reconnects)
    × (d.sources ≡ c.sources)

module _ (show_ms : ℕ → Text) where
  deliver-Frame :
      (c : Collector) (key : Text) (s : ℕ) (t : Instant) (r : BlockRec)
      {q : Collector × Option Notice}
      → deliver show_ms c key s t r ≡ some q
      → Untouched c q.0
  unfolding deliver completion
  deliver-Frame c key s t r h = ground arith

  pub on_block-Frame :
      (c : Collector) (s : ℕ) (t : Instant) (key : Text) (seq : Option ℕ) (hash : Option Text)
      (count : Option ℕ) (wire_len : ℕ) {q : Collector × Option Notice}
      → on_block show_ms c s t key seq hash count wire_len ≡ some q
      → Untouched c q.0
  unfolding on_block
  on_block-Frame c s t key seq hash count wire_len h =
      let (a, _, counted) = >>=-eq-some (update c.block_events s (λ k. (k + 1) % u64_mod)) _ h in
      let (b, _, delivered) =
        >>=-eq-some (update c.wire_bytes s (λ k. (k + wire_len) % u64_mod)) _ counted in
      deliver-Frame _ key s t _ delivered

pub on_tx-Frame :
    (c : Collector) (s : ℕ) (t : Instant) (hash : Hash) (key : Option Text) (count : Option ℕ)
    (swap : Bool) (raw_len : ℕ) {q : Collector × Option Notice}
    → on_tx c s t hash key count swap raw_len ≡ some q
    → Untouched c q.0
unfolding on_tx
on_tx-Frame c s t hash key count swap raw_len h = ground arith
