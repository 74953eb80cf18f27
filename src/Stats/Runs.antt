-- ===== src/Stats/Runs.antt =====
-- Runs of the collector of src/stats.rs on two sources.
use robinhood_feed_bench.Common.{
  ℕ, ◌≡◌, refl, Bool, true, false, not, ◌&&◌, List, [], ◌∷◌, none, some, leb, Ensures, arith,
}
use robinhood_feed_bench.Common.Texts.{Text, codes}
use robinhood_feed_bench.Common.Decimal.{decimal}
use robinhood_feed_bench.Event.{Payload, Event}
use robinhood_feed_bench.Stats.{SourceInfo, BlockRec, Collector, Windows, new}
use robinhood_feed_bench.Stats.Windows.{all_true, last_closed, in_window, on_connected}
use robinhood_feed_bench.Stats.Windows.Order.{Ordered, OnlyLastOpen}
use robinhood_feed_bench.Stats.Windows.Times.{on_connected-in_window}
use robinhood_feed_bench.Stats.Wf.{IsWf, completed}
use robinhood_feed_bench.Stats.Collect.{collect}
use robinhood_feed_bench.Stats.Collect.Invariant.{all_lines, collect-reports}
use robinhood_feed_bench.Stats.Collect.Settled.{collect-settled}
use robinhood_feed_bench.Stats.Collect.First.{first_delivery, collect-first_delivery}
use robinhood_feed_bench.Stats.Record.Delivered.{arrival}

abbrev source : Text → SourceInfo
source name = record { name = name; kind = codes "l2"; target = []; level = [] }

abbrev two : List SourceInfo
two = source (codes "a") ∷ source (codes "b") ∷ []

abbrev event : ℕ → ℕ → Payload → Event
event s t payload = record { source = s; t = t; payload = payload }

abbrev seventh : Text
seventh = codes "7"

abbrev block : Payload
block = Payload.block seventh (some 7) none (some 2) 100

-- Both connect, both deliver a block, one leaves.
abbrev run : List Event
run =
    event 0 10 (Payload.connected [])
    ∷ event 1 20 (Payload.connected [])
    ∷ event 1 90 block
    ∷ event 0 80 block
    ∷ event 1 95 block
    ∷ event 0 99 (Payload.disconnected [])
    ∷ []

collect-reports_example :
    Ensures
      (λ r. IsWf 2 r.0 × (completed r.0 ≡ all_lines r.1))
      (collect decimal (new two 0 2 50 0) run)
collect-reports_example = collect-reports decimal two 0 2 50 0 run (omega arith) (ground arith)

collect-first_delivery_example :
    Ensures
      (λ r. arrival r.0 seventh 1 ≡ first_delivery seventh 1 run)
      (collect decimal (new two 0 2 50 0) run)
collect-first_delivery_example =
    collect-first_delivery decimal two 0 2 50 0 run seventh 1 (omega arith) (ground arith)

-- It is the first of the two deliveries that counts.
first_of_run : first_delivery seventh 1 run ≡ some 90
first_of_run = refl

abbrev seven : BlockRec
seven = record {
  seq = some 7;
  hash = none;
  tx_count = some 2;
  arrivals = some 80 ∷ none ∷ [];
  first = 80;
  first_src = 0;
  seen = 1;
  completed_at = none;
}

abbrev pub state : Bool → Windows → Collector
state up windows = record {
  sources = two;
  nitro_present = false;
  reference = 0;
  min_sources = 2;
  warmup = 50;
  start = 0;
  blocks = (seventh, seven) ∷ [];
  txs = [];
  connected = true ∷ up ∷ [];
  ever_connected = true ∷ up ∷ [];
  reconnects = 0 ∷ 0 ∷ [];
  details = [] ∷ [] ∷ [];
  tx_events = 0 ∷ 0 ∷ [];
  block_events = 1 ∷ 0 ∷ [];
  wire_bytes = 100 ∷ 0 ∷ [];
  raw_tx_bytes = 0 ∷ 0 ∷ [];
  all_up = windows;
}

pub state-IsWf :
    (up : Bool) (windows : Windows)
    → last_closed windows ≡ not up
    → OnlyLastOpen windows
    → IsWf 2 (state up windows)
state-IsWf up windows h o = record {
  sizes = record {
    some_source = omega arith;
    sources = refl;
    connected = refl;
    ever_connected = refl;
    reconnects = refl;
    details = refl;
    tx_events = refl;
    block_events = refl;
    wire_bytes = refl;
    raw_tx_bytes = refl;
  };
  min_pos = omega arith;
  min_le = omega arith;
  blocks_wf = (
    record {
      size = refl;
      counted = refl;
      some_seen = omega arith;
      winner = refl;
      earliest = ground arith;
      complete = refl;
    },
    tt,
  );
  txs_wf = tt;
  last_window = ground arith;
  only_last = o;
}

on_connected-in_window_example :
    Ensures
      (λ r. Ordered 30 r.0.all_up × (in_window r.0 90 ≡ all_true r.0.connected && leb 80 90))
      (on_connected (state false ((5, some 20) ∷ [])) 1 30 [])
on_connected-in_window_example =
    on_connected-in_window (state false ((5, some 20) ∷ [])) 1 20 30 90
      (state-IsWf false ((5, some 20) ∷ []) refl tt) (omega arith)
      (omega arith, omega arith, tt, tt) (omega arith) (omega arith) [] refl

collect-settled_example :
    Ensures
      (λ r. in_window r.0 60 ≡ in_window (state true ((5, none) ∷ [])) 60)
      (collect decimal
        (state true ((5, none) ∷ []))
        (event 1 90 block ∷ event 0 95 (Payload.disconnected []) ∷ []))
collect-settled_example =
    collect-settled decimal 60 (event 1 90 block ∷ event 0 95 (Payload.disconnected []) ∷ [])
      (state true ((5, none) ∷ [])) (state-IsWf true ((5, none) ∷ []) refl tt) (ground arith)
