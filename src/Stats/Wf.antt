-- ===== src/Stats/Wf.antt =====
-- The invariant of the collector of src/stats.rs.
use robinhood_feed_bench.Common.{
  ℕ, suc, zero, ◌≤◌, ◌≡◌, refl, Bool, not, List, [], length, Ensures, is_some, ◌+◌, arith,
  replicate, length-replicate, none, some, false, Option,
}
use robinhood_feed_bench.Common.Maps.{AllValues, count_values}
use robinhood_feed_bench.Stats.{Collector, SourceInfo, BlockRec, Notice, Step, new}
use robinhood_feed_bench.Stats.Windows.{all_true, last_closed}
use robinhood_feed_bench.Stats.Windows.Order.{OnlyLastOpen}
use robinhood_feed_bench.Stats.Record.Arrivals.{BlockWf, TxWf}

-- Every per-source vector has one entry for each source.
pub record Sizes (n : ℕ) (c : Collector) : Type 0 where
  pub some_source : 1 ≤ n
  pub sources : length c.sources ≡ n
  pub connected : length c.connected ≡ n
  pub ever_connected : length c.ever_connected ≡ n
  pub reconnects : length c.reconnects ≡ n
  pub details : length c.details ≡ n
  pub tx_events : length c.tx_events ≡ n
  pub block_events : length c.block_events ≡ n
  pub wire_bytes : length c.wire_bytes ≡ n
  pub raw_tx_bytes : length c.raw_tx_bytes ≡ n

pub record IsWf (n : ℕ) (c : Collector) : Type 0 where
  pub sizes : Sizes n c
  pub min_pos : 1 ≤ c.min_sources
  pub min_le : c.min_sources ≤ n
  pub blocks_wf : AllValues (BlockWf n c.min_sources) c.blocks
  pub txs_wf : AllValues (TxWf n) c.txs
  pub last_window : last_closed c.all_up ≡ not (all_true c.connected)
  pub only_last : OnlyLastOpen c.all_up

not_all_true : (n : ℕ) → 1 ≤ n → all_true (replicate n false) ≡ false
not_all_true zero h = absurd (omega arith)
not_all_true (suc n) h = refl

-- `Collector::new` over one source at least.
pub new-IsWf :
    (sources : List SourceInfo) (reference min_sources warmup now : ℕ)
    → 1 ≤ length sources
    → IsWf (length sources) (new sources reference min_sources warmup now)
unfolding new
new-IsWf sources reference min_sources warmup now h = record {
  sizes = record {
    some_source = h;
    sources = refl;
    connected = length-replicate (length sources) false;
    ever_connected = length-replicate (length sources) false;
    reconnects = length-replicate (length sources) 0;
    details = length-replicate (length sources) [];
    tx_events = length-replicate (length sources) 0;
    block_events = length-replicate (length sources) 0;
    wire_bytes = length-replicate (length sources) 0;
    raw_tx_bytes = length-replicate (length sources) 0;
  };
  min_pos = omega arith;
  min_le = omega arith;
  blocks_wf = tt;
  txs_wf = tt;
  last_window = rw (not_all_true (length sources) h);
  only_last = tt;
}

abbrev pub is_complete : BlockRec → Bool
is_complete r = is_some r.completed_at

abbrev pub completed : Collector → ℕ
completed c = count_values is_complete c.blocks

abbrev pub lines : Option Notice → ℕ
lines (some (Notice.block_line text)) = 1
lines _ = 0

-- A step does not panic, it keeps the invariant, and it reports a line just when the number of
-- completed blocks rises.
abbrev pub Keeps : ℕ → Collector → Step → Type 0
Keeps n c = Ensures (λ r. IsWf n r.0 × (completed r.0 ≡ completed c + lines r.1))

pub Keeps-IsWf : (n : ℕ) (c : Collector) (m : Step) → Keeps n c m → Ensures (λ r. IsWf n r.0) m
Keeps-IsWf n c none h = absurd h
Keeps-IsWf n c (some r) h = h.0
