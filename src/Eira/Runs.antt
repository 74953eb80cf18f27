-- ===== src/Eira/Runs.antt =====
-- A session of src/eira.rs on four updates.
use robinhood_feed_bench.Common.{
  ℕ, ◌≤◌, ◌<◌, ◌≡◌, ◌↔◌, refl, List, [], ◌∷◌, length, take, leb, is_some, replicate, arith,
}
use robinhood_feed_bench.Common.Decimal.{decimal}
use robinhood_feed_bench.Common.Texts.{codes}
use robinhood_feed_bench.Eira.{
  Level, Transaction, Update, Stamped, fresh, on_updates, on_update, on_transaction, block_key,
}
use robinhood_feed_bench.Eira.Announced.{Preceded, on_updates-Preceded}
use robinhood_feed_bench.Nitro.{key}
use robinhood_feed_bench.Eira.Keys.{block_key-key}
use robinhood_feed_bench.Eira.Sent.{session_sent, session_sent-take}
use robinhood_feed_bench.Eira.Once.{Once, session-Once}

abbrev transfer : ℕ → Transaction
transfer seq = record {
  transaction_hash = replicate 32 7;
  commitment = 1;
  feed_sequence = seq;
  block_number = codes "12";
  logs = 4294967294 ∷ [];
  raw_tx = 2 ∷ 193 ∷ 5 ∷ [];
}

abbrev stamped : ℕ → Update → Stamped
stamped t update = record { t = t; update = update }

abbrev updates : List Stamped
updates =
    stamped 10 (Update.ack (codes "1"))
    ∷ stamped 20 (Update.transaction (transfer 5))
    ∷ stamped 21 (Update.transaction (transfer 5))
    ∷ stamped 30 (Update.transaction (transfer 0))
    ∷ []

-- The second transaction of the block does not announce it again.
six_events : length (on_updates 2 Level.received 1 fresh updates).1 ≡ 6
unfolding on_updates on_update on_transaction block_key decimal
six_events = refl

on_updates-Preceded_example :
    (let r = on_updates 2 Level.received 1 fresh updates in
      Preceded [] r.1 × (length r.0.seen_blocks ≤ 100001))
on_updates-Preceded_example = on_updates-Preceded 2 Level.received 1 updates

session-Once_example : Once [] (on_updates 2 Level.received 1 fresh updates).1
session-Once_example = session-Once 2 Level.received 1 updates (omega arith)

block_key-key_example :
    (block_key (transfer 5) ≡ key 5)
    ↔ ((0 < (transfer 5).feed_sequence) × ((transfer 5).feed_sequence ≡ 5))
block_key-key_example = block_key-key (transfer 5) 5

-- The collector goes away behind the fourth event.
session_sent-take_example :
    (let m = session_sent 2 Level.received 1 fresh 4 updates in
      let events = (on_updates 2 Level.received 1 fresh updates).1 in
      (m.0 ≡ take 4 events) × (is_some m.1 ≡ leb (length events) 4))
session_sent-take_example = session_sent-take 2 Level.received 1 fresh 4 updates
