-- ===== src/Main/Runs.antt =====
-- A run of src/main.rs with a Nitro feed and a JSON feed.
use robinhood_feed_bench.Common.{◌+◌, ℕ, ◌≡◌, refl, List, [], ◌∷◌, none, some}
use robinhood_feed_bench.Common.Results.{Result}
use robinhood_feed_bench.Common.Splits.{split_once}
use robinhood_feed_bench.Common.Texts.{codes}
use robinhood_feed_bench.Event.{Payload, Stamp}
use robinhood_feed_bench.Eira.{Level}
use robinhood_feed_bench.Specs.{parse_nitro, parse_json, parse_fields, json_field, checked_json}
use robinhood_feed_bench.Main.Setup.{
  Args, Task, Setup, source_info, parse_all, spawn, prepare, setup,
}
use robinhood_feed_bench.Main.Setup.Indices.{IsReady, setup-IsReady}
use robinhood_feed_bench.Main.Loop.{Input}
use robinhood_feed_bench.Main.Finish.{Around}

abbrev args : Args
args = record {
  sources = codes "a=wss://a.example/feed" ∷ [];
  eira = none;
  eira_level = Level.received;
  wsjson = codes "b=wss://b.example,path=hash" ∷ [];
  wsraw = [];
  min_sources = none;
}

abbrev ready : Setup
ready = record {
  infos =
      source_info (codes "a") (codes "nitro") (codes "wss://a.example/feed") []
      ∷ source_info (codes "b") (codes "wsjson") (codes "wss://b.example") []
      ∷ [];
  eira_index = none;
  min_sources = 2;
  tasks =
      (0, Task.nitro (record { name = codes "a"; url = codes "wss://a.example/feed" }))
      ∷ (
        1,
        Task.json (record {
          name = codes "b";
          url = codes "wss://b.example";
          path = codes "hash";
          headers = [];
          subscribe = none;
        }),
      )
      ∷ [];
}

accepted : setup args ≡ Result.ok ready
unfolding setup prepare parse_all spawn parse_nitro parse_json parse_fields json_field checked_json
    split_once
accepted = refl

setup-IsReady_example : IsReady args ready
setup-IsReady_example = setup-IsReady args ready accepted

abbrev event : ℕ → ℕ → Payload → Input
event s t payload = Input.received (record { source = s; t = t; payload = payload })

abbrev block : Payload
block = Payload.block (codes "seq:7") (some 7) none (some 2) 100

abbrev inputs : List Input
inputs =
    (event 0 10 (Payload.connected []))
    ∷ (event 1 20 (Payload.connected []))
    ∷ (event 1 90 block)
    ∷ Input.tick 100
    ∷ (event 0 95 block)
    ∷ Input.deadline
    ∷ Input.tick 200
    ∷ []

abbrev around : Around
around = record {
  version = codes "0.1.0";
  host = none;
  hostname = some (codes "box");
  stamp = Stamp.arrival;
  start_wall = 1789819200;
  end_wall = 1789819260;
}

abbrev total : List ℕ → ℕ
total [] = 0
total (x ∷ xs) = x + total xs
