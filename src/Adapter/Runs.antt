-- ===== src/Adapter/Runs.antt =====
-- A Nitro adapter that fails to connect, is served a block, connects again and meets a collector
-- that goes away, beside another source.
use robinhood_feed_bench.Common.{
  ℕ, ◌+◌, ◌≡◌, refl, Bool, true, false, List, [], ◌∷◌, Option, none, some, Ensures, arith,
}
use robinhood_feed_bench.Common.Decimal.{decimal}
use robinhood_feed_bench.Common.Texts.{Text, codes}
use robinhood_feed_bench.Event.{Hash, Payload, Event, Stamp}
use robinhood_feed_bench.Specs.{Target, Spec}
use robinhood_feed_bench.Stats.{SourceInfo, new}
use robinhood_feed_bench.Stats.Collect.{collect}
use robinhood_feed_bench.Ws.Negotiation.{Offer, second}
use robinhood_feed_bench.Ws.Session.{Message}
use robinhood_feed_bench.Nitro.{FeedMessage, key}
use robinhood_feed_bench.Nitro
use robinhood_feed_bench.WsJson.{Value}
use robinhood_feed_bench.Adapter.{
  Adapter, Served, Attempt, run, serve, send_one, send_each, exchange, conclude, events_of, opening,
  closing,
}
use robinhood_feed_bench.Adapter.Sources.{nitro_adapter, nitro_run, json_run, raw_run}
use robinhood_feed_bench.Adapter.Lifecycle.{Lives, watch}
use robinhood_feed_bench.Adapter.Quiet.{nitro-quiet, runs-Lives}
use robinhood_feed_bench.Adapter.Resume.{Asks}
use robinhood_feed_bench.Adapter.Cursor.{Resumes, run-Resumes}
use robinhood_feed_bench.Adapter.Collected.{Kept, sessions, run-collected}
use robinhood_feed_bench.Adapter.Delivers.{Delivers, all_events, run-Delivers}

-- Every message is the feed's block 77, with no transaction.
abbrev from_slice : List ℕ → Option (List FeedMessage)
from_slice bytes = some ((record { sequence_number = 77; block_hash = none; l2_msg = none }) ∷ [])

abbrev decode : Text → Option (List ℕ)
decode text = none

abbrev keccak : List ℕ → Hash
keccak bytes = bytes

abbrev target : Target
target = record { name = codes "a"; url = codes "wss://a/feed" }

abbrev adapter : Adapter (Option ℕ)
adapter = nitro_adapter from_slice decode keccak 0 target Offer.auto Stamp.arrival

abbrev served : ℕ → List Message → Served
served t messages = record {
  handshake = record { compression = codes "none"; server_headers = [] };
  subscribed = true;
  connected_at = t;
  messages = messages;
  reason = codes "closed";
  disconnected_at = t + 9;
}

abbrev message : Message
message = record { bytes = []; arrival = 5; decoded = 6; wire_len = 9 }

abbrev attempts : List Attempt
attempts =
    Attempt.failed none
    ∷ Attempt.served (served 1 (message ∷ []))
    ∷ Attempt.served (served 20 [])
    ∷ []

abbrev info : SourceInfo
info = record { name = codes "a"; kind = codes "nitro"; target = codes "wss://a/feed"; level = [] }

abbrev other : ℕ → Payload → Event
other t payload = record { source = 1; t = t; payload = payload }

-- The collector takes four events of the adapter.
abbrev arrived : List Event
arrived =
    opening adapter (served 1 [])
    ∷ other 2 (Payload.connected [])
    ∷ (record { source = 0; t = 5; payload = Payload.block (key 77) (some 77) none (some 0) 9 })
    ∷ closing adapter (served 1 [])
    ∷ other 12 (Payload.disconnected [])
    ∷ opening adapter (served 20 [])
    ∷ []

abbrev spec : Spec
spec = record {
  name = codes "b";
  url = codes "wss://b";
  path = codes "hash";
  headers = [];
  subscribe = some (codes "go");
}

abbrev no_value : List ℕ → Option Value
no_value bytes = none

runs-Lives_example :
    Lives 0
      (events_of (nitro_run from_slice decode keccak 0 target Offer.auto Stamp.arrival 4 attempts))
    × Lives 0 (events_of (json_run no_value decode keccak 0 spec Stamp.arrival 4 attempts))
    × Lives 0 (events_of (raw_run no_value decode keccak 0 spec Stamp.arrival 4 attempts))
runs-Lives_example =
    runs-Lives from_slice decode no_value decode keccak 0 4 target Offer.auto spec Stamp.arrival
      attempts

run-Resumes_example :
    Asks Resumes []
      (nitro_run from_slice decode keccak 0 target Offer.auto Stamp.arrival 4 attempts)
run-Resumes_example =
    run-Resumes from_slice decode keccak 0 target Offer.auto Stamp.arrival 4 attempts

run-collected_example :
    (up : Bool) × (watch 0 false (events_of (run adapter none second 4 attempts)) ≡ some up)
    × Ensures
        (λ r. Kept 0 up (sessions 0 (events_of (run adapter none second 4 attempts))) r.0)
        (collect decimal (new (info ∷ info ∷ []) 0 2 5 0) arrived)
unfolding run serve send_one send_each exchange conclude events_of nitro_adapter Nitro.on_message
    Nitro.on_blocks Nitro.block_events Nitro.parse_frame Nitro.parse_blocks Nitro.block_txs key
    decimal
run-collected_example =
    run-collected decimal adapter
      (nitro-quiet from_slice decode keccak 0 target Offer.auto Stamp.arrival) (info ∷ info ∷ []) 0
      2 5 0 arrived none second 4 attempts (omega arith) (ground arith) refl

run-Delivers_example : Delivers adapter none attempts (run adapter none second 20 attempts)
unfolding all_events nitro_adapter Nitro.on_message Nitro.on_blocks Nitro.block_events
    Nitro.parse_frame Nitro.parse_blocks Nitro.block_txs key
run-Delivers_example = run-Delivers adapter none second 20 attempts (omega arith)
