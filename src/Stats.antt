-- ===== src/Stats.antt =====
-- src/stats.rs: the collector's state and `Collector::new`.
-- `none` is a panic: an index past the end of one of the per-source vectors. Counters wrap at
-- their width, as in the release build; a `usize` counter is bounded by memory and is a number.
-- An `Instant` and a `Duration` count nanoseconds; `-` on instants stops at 0, as `Instant`'s does.
pub mod Windows
pub mod Record
pub mod Wf
pub mod Collect
pub mod Percentile
pub mod Summary
pub mod TxSummary
pub mod Pairs
pub mod Seconds
pub mod Runs
pub mod SummaryRuns
use robinhood_feed_bench.Common.{
  ℕ, zero, suc, ◌+◌, ◌-◌, ◌%◌, ◌^◌, min, max, Bool, true, false, not, ◌&&◌, ◌||◌, List, [], ◌∷◌,
  ◌++◌, map, Option, none, some, length, replicate, get_elem?, set, update, ltb, leb, ◌==◌,
  if◌then◌else◌, ◌>>=◌, is_some, is_none, unwrap_or,
}
use robinhood_feed_bench.Common.Texts.{Text, codes, text_eq, join}
use robinhood_feed_bench.Common.Maps.{lookup, insert}
use robinhood_feed_bench.Common.Decimal.{decimal}
use robinhood_feed_bench.Event.{Instant, Hash}

pub record SourceInfo : Type 0 where
  pub name : Text
  pub kind : Text
  pub target : Text
  pub level : Text

pub record BlockRec : Type 0 where
  pub seq : Option ℕ
  pub hash : Option Text
  pub tx_count : Option ℕ
  pub arrivals : List (Option Instant)
  pub first : Instant
  pub first_src : ℕ
  pub seen : ℕ
  pub completed_at : Option Instant

pub record TxRec : Type 0 where
  pub arrivals : List (Option Instant)
  pub first : Instant
  pub seen : ℕ
  pub block_key : Option Text
  pub block_from_nitro : Bool
  pub tx_count : Option ℕ
  pub synthetic_swap : Bool

-- A window is open while its end is `none`; the last one stands last.
abbrev pub Windows : Type 0
Windows = List (Instant × Option Instant)

pub record Collector : Type 0 where
  pub sources : List SourceInfo
  pub nitro_present : Bool
  pub reference : ℕ
  pub min_sources : ℕ
  pub warmup : ℕ
  pub start : Instant
  pub blocks : List (Text × BlockRec)
  pub txs : List (Hash × TxRec)
  pub connected : List Bool
  pub ever_connected : List Bool
  pub reconnects : List ℕ
  pub details : List Text
  pub tx_events : List ℕ
  pub block_events : List ℕ
  pub wire_bytes : List ℕ
  pub raw_tx_bytes : List ℕ
  pub all_up : Windows

pub data Notice : Type 0 where
  -- source, detail, reconnect
  connected : ℕ → Text → Bool → Notice
  -- source, reason
  disconnected : ℕ → Text → Notice
  block_line : Text → Notice

abbrev pub is_nitro : SourceInfo → Bool
is_nitro s = text_eq s.kind (codes "nitro")

abbrev pub any_nitro : List SourceInfo → Bool
any_nitro [] = false
any_nitro (s ∷ ss) = is_nitro s || any_nitro ss

-- `min_sources.clamp(1, n.max(1))`; `now` is `Instant::now()`.
unfoldable pub new : List SourceInfo → ℕ → ℕ → ℕ → Instant → Collector
new sources reference min_sources warmup now =
    let n = length sources in
    record {
      sources = sources;
      nitro_present = any_nitro sources;
      reference = reference;
      min_sources = min (max 1 min_sources) (max n 1);
      warmup = warmup;
      start = now;
      blocks = [];
      txs = [];
      connected = replicate n false;
      ever_connected = replicate n false;
      reconnects = replicate n 0;
      details = replicate n [];
      tx_events = replicate n 0;
      block_events = replicate n 0;
      wire_bytes = replicate n 0;
      raw_tx_bytes = replicate n 0;
      all_up = [];
    }

abbrev pub u32_mod : ℕ
u32_mod = 2 ^ 32

abbrev pub u64_mod : ℕ
u64_mod = 2 ^ 64

-- The state after an event and what is reported to the caller.
abbrev pub Step : Type 0
Step = Option (Collector × Option Notice)
