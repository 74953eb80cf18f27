-- ===== src/Stats/TxSummary/Runs.antt =====
-- The summary of one transaction of src/stats.rs, with whole numbers as samples.
use robinhood_feed_bench.Common.{
  ◌*◌, ◌/◌, ◌≡◌, ◌&&◌, refl, true, false, [], ◌∷◌, none, some, Ensures, arith,
}
use robinhood_feed_bench.Common.Maps.{values}
use robinhood_feed_bench.Event.{latest}
use robinhood_feed_bench.Stats.{TxRec, Collector}
use robinhood_feed_bench.Stats.Runs.{state, state-IsWf}
use robinhood_feed_bench.Stats.SummaryRuns.{whole, whole-IsOrder}
use robinhood_feed_bench.Stats.Wf.{IsWf}
use robinhood_feed_bench.Stats.TxSummary.{tx_summary}
use robinhood_feed_bench.Stats.TxSummary.Counts.{tally_of, arrival, came, came_at, inside, enough}
use robinhood_feed_bench.Stats.TxSummary.Rows.{IsCounted, tx_summary-counts}

abbrev swap : TxRec
swap = record {
  arrivals = some 90 ∷ some 80 ∷ [];
  first = 80;
  seen = 2;
  block_key = none;
  block_from_nitro = false;
  tx_count = none;
  synthetic_swap = true;
}

abbrev pub traded : Collector
traded = record (state true ((5, none) ∷ [])) { txs = (1 ∷ [], swap) ∷ [] }

pub traded-IsWf : IsWf 2 traded
traded-IsWf =
    let before = state-IsWf true ((5, none) ∷ []) refl tt in
    record {
      sizes = record {
        some_source = omega arith;
        sources = refl;
        connected = refl;
        ever_connected = refl;
        reconnects = refl;
        details = refl;
        tx_events = refl;
        block_events = refl;
        wire_bytes = refl;
        raw_tx_bytes = refl;
      };
      min_pos = omega arith;
      min_le = omega arith;
      blocks_wf = before.blocks_wf;
      txs_wf = (
        record { size = refl; counted = refl; some_seen = omega arith; earliest = ground arith },
        tt,
      );
      last_window = before.last_window;
      only_last = tt;
    }

tx_summary-counts_example :
    Ensures
      (λ s.
        (s.total ≡ tally_of (inside traded) (values traded.txs))
        × (s.matched ≡ tally_of (enough traded) (values traded.txs))
        × (s.synthetic_swaps
            ≡ tally_of (λ r. enough traded r && r.synthetic_swap) (values traded.txs))
        × IsCounted whole
            (λ d. d)
            (λ k n. k * 100 / n)
            1
            (tally_of (inside traded) (values traded.txs))
            (tally_of (enough traded) (values traded.txs))
            (tally_of (λ r. inside traded r && arrival came 1 r.arrivals) (values traded.txs))
            (tally_of
              (λ r. enough traded r && arrival (came_at r.first) 1 r.arrivals)
              (values traded.txs))
            s.per_source)
      (tx_summary whole (λ d. d) (λ k n. k * 100 / n) traded)
unfolding latest
tx_summary-counts_example =
    tx_summary-counts whole (λ d. d) (λ k n. k * 100 / n) whole-IsOrder traded traded-IsWf
      (ground arith) 1 (omega arith)
