-- ===== src/Stats/Record.antt =====
-- src/stats.rs: the `Block` and `Tx` branches of `on_event`.
-- `show_ms d` is `format!("{:.2}ms", ms(d))` of a duration: f64 arithmetic and its printing are
-- the standard library's, and the line only passes the text on.
pub mod Arrivals
pub mod Keeps
pub mod KeepsTx
pub mod Frame
pub mod Repeat
pub mod Delivered
use robinhood_feed_bench.Common.{
  ℕ, zero, suc, ◌+◌, ◌-◌, ◌%◌, max, Bool, true, false, not, ◌&&◌, ◌||◌, List, [], ◌∷◌, ◌++◌, map,
  Option, none, some, length, replicate, get_elem?, set, update, ltb, leb, ◌==◌, if◌then◌else◌,
  ◌>>=◌, is_some, is_none, unwrap_or,
}
use robinhood_feed_bench.Common.Texts.{Text, codes, text_eq, join}
use robinhood_feed_bench.Common.Maps.{lookup, insert}
use robinhood_feed_bench.Common.Decimal.{decimal}
use robinhood_feed_bench.Event.{Instant, Hash}
use robinhood_feed_bench.Stats.{
  SourceInfo, BlockRec, TxRec, Collector, Notice, Step, is_nitro, u64_mod,
}

-- `or_insert_with` for a block; `s` and `t` are the event's.
pub new_block : ℕ → Option ℕ → ℕ → Instant → BlockRec
new_block n seq s t = record {
  seq = seq;
  hash = none;
  tx_count = none;
  arrivals = replicate n none;
  first = t;
  first_src = s;
  seen = 0;
  completed_at = none;
}

abbrev pub or_else {ℓ} : {A : Type ℓ} → Option A → Option A → Option A
or_else none b = b
or_else (some a) b = some a

-- `if rec.seq.is_none() { rec.seq = seq }` and the two like it.
pub fill : BlockRec → Option ℕ → Option Text → Option ℕ → BlockRec
fill r seq hash tx_count = record r {
  seq = or_else r.seq seq;
  hash = or_else r.hash hash;
  tx_count = or_else r.tx_count tx_count;
}

-- `iter().flatten().copied().max()`
abbrev pub latest : List (Option Instant) → Option Instant
latest [] = none
latest (none ∷ rest) = latest rest
latest (some a ∷ rest) = some (max a (unwrap_or (latest rest) a))

pub arrive : ℕ → ℕ → Instant → BlockRec → BlockRec
arrive min_sources s t r =
    let arrivals = set r.arrivals s (some t) in
    let seen = r.seen + 1 in
    record r {
      arrivals = arrivals;
      first = if ltb t r.first then t else r.first;
      first_src = if ltb t r.first then s else r.first_src;
      seen = seen;
      completed_at =
          if seen == min_sources then some (unwrap_or (latest arrivals) t) else r.completed_at;
    }

-- `rec.seq.map_or("-".into(), |q| q.to_string())`
abbrev pub seq_column : Option ℕ → Text
seq_column none = codes "-"
seq_column (some q) = decimal q

module _ (show_ms : ℕ → Text) where
  abbrev pub cell : Instant → Option Instant → Text
  cell first none = codes "NA"
  cell first (some a) = show_ms (a - first)

  -- The columns of the line, joined by tabs.
  pub line : Text → BlockRec → Text → Text
  line key r winner = join (9 ∷ []) (
      codes "[block]"
      ∷ seq_column r.seq
      ∷ unwrap_or r.hash key
      ∷ (map (cell r.first) r.arrivals ++ (winner ∷ [])))

  -- What follows `rec.arrivals[s] = Some(ev.t)`: the notice, if this delivery completes the block.
  pub completion : Collector → Text → BlockRec → Option (Option Notice)
  completion c key r =
      if r.seen == c.min_sources
      then (do
        winner ← get_elem? c.sources r.first_src
        some (some (Notice.block_line (line key r winner.name))))
      else some none

  -- From `if rec.arrivals[s].is_some()` on; `r` is the entry with what the event could fill in.
  pub deliver : Collector → Text → ℕ → Instant → BlockRec → Step
  deliver c key s t r = do
    before ← get_elem? r.arrivals s
    if is_some before then some (record c { blocks = insert key r c.blocks }, none) else do
      let arrived = arrive c.min_sources s t r
      notice ← completion c key arrived
      some (record c { blocks = insert key arrived c.blocks }, notice)

  pub on_block : Collector → ℕ → Instant → Text → Option ℕ → Option Text → Option ℕ → ℕ → Step
  on_block c s t key seq hash tx_count wire_len = do
    block_events ← update c.block_events s (λ k. (k + 1) % u64_mod)
    wire_bytes ← update c.wire_bytes s (λ k. (k + wire_len) % u64_mod)
    let found = unwrap_or (lookup key c.blocks) (new_block (length c.sources) seq s t)
    deliver (record c { block_events = block_events; wire_bytes = wire_bytes }) key s t
        (fill found seq hash tx_count)

pub new_tx : ℕ → Instant → TxRec
new_tx n t = record {
  arrivals = replicate n none;
  first = t;
  seen = 0;
  block_key = none;
  block_from_nitro = false;
  tx_count = none;
  synthetic_swap = false;
}

-- The block key of a Nitro source takes the place of another's, and is kept.
pub annotate : Bool → Option Text → Option ℕ → Bool → TxRec → TxRec
annotate from_nitro block_key tx_count synthetic_swap r =
    let takes =
      is_some block_key && (is_none r.block_key || from_nitro && not r.block_from_nitro) in
    record r {
      block_key = if takes then block_key else r.block_key;
      block_from_nitro = if takes then from_nitro else r.block_from_nitro;
      tx_count = if from_nitro && is_some tx_count then tx_count else r.tx_count;
      synthetic_swap = r.synthetic_swap || synthetic_swap;
    }

pub arrive_tx : ℕ → Instant → TxRec → TxRec
arrive_tx s t r = record r {
  arrivals = set r.arrivals s (some t);
  first = if ltb t r.first then t else r.first;
  seen = r.seen + 1;
}

pub on_tx : Collector → ℕ → Instant → Hash → Option Text → Option ℕ → Bool → ℕ → Step
on_tx c s t hash block_key tx_count synthetic_swap raw_len = do
  tx_events ← update c.tx_events s (λ k. (k + 1) % u64_mod)
  raw_tx_bytes ← update c.raw_tx_bytes s (λ k. (k + raw_len) % u64_mod)
  source ← get_elem? c.sources s
  let found = unwrap_or (lookup hash c.txs) (new_tx (length c.sources) t)
  let noted = annotate (is_nitro source) block_key tx_count synthetic_swap found
  let counted = record c { tx_events = tx_events; raw_tx_bytes = raw_tx_bytes }
  before ← get_elem? noted.arrivals s
  let stored = if is_some before then noted else arrive_tx s t noted
  some (record counted { txs = insert hash stored c.txs }, none)
