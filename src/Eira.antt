-- ===== src/Eira.antt =====
-- src/eira.rs: the events of an Eira subscription and the reconnects of its adapter.
-- The types of `pb` are generated from a file that is not in the repository, so the records hold
-- what the adapter reads of them: a number that it only prints is the printed text, an `i32` that
-- it only compares is its 32 bits, and the code of a level is the parameter `commitment`.
pub mod Announced
pub mod Once
pub mod Keys
pub mod Sent
mod Runs
use robinhood_feed_bench.Common.{
  ℕ, ◌%◌, ◌^◌, Bool, true, false, not, ◌&&◌, ◌||◌, List, [], ◌∷◌, ◌++◌, Option, none, some, length,
  ltb, ◌==◌, if◌then◌else◌,
}
use robinhood_feed_bench.Common.Texts.{Text, text_eq, codes}
use robinhood_feed_bench.Common.Decimal.{decimal}
use robinhood_feed_bench.Event.{Instant, Payload, Event}

abbrev pub synthetic_swap_index : ℕ
synthetic_swap_index = 4294967294

pub data Level : Type 0 where
  received processed confirmed : Level

pub level_name : Level → Text
level_name Level.received = codes "RECEIVED"
level_name Level.processed = codes "PROCESSED"
level_name Level.confirmed = codes "CONFIRMED"

pub record Transaction : Type 0 where
  pub transaction_hash : List ℕ
  pub commitment : ℕ
  pub feed_sequence : ℕ
  pub block_number : Text
  pub logs : List ℕ
  pub raw_tx : List ℕ

pub data Update : Type 0 where
  -- filter_count
  ack : Text → Update
  -- commitment, connected, source_epoch
  source_status : ℕ → Bool → Text → Update
  transaction : Transaction → Update
  other : Update

pub record Stamped : Type 0 where
  pub t : Instant
  pub update : Update

-- What the loop of `session` keeps.
pub record Session : Type 0 where
  pub announced : Bool
  pub seen_blocks : List Text

abbrev pub fresh : Session
fresh = record { announced = false; seen_blocks = [] }

pub block_key : Transaction → Text
block_key tx =
    if ltb 0 tx.feed_sequence
    then codes "seq:" ++ decimal tx.feed_sequence
    else codes "num:" ++ tx.block_number

-- `HashSet::contains`, and what `insert` leaves.
abbrev pub contains : Text → List Text → Bool
contains k [] = false
contains k (j ∷ js) = text_eq j k || contains k js

abbrev pub is_swap : List ℕ → Bool
is_swap [] = false
is_swap (l ∷ ls) = (l == synthetic_swap_index) || is_swap ls

-- `if seen_blocks.len() > 100_000 { seen_blocks.clear(); }`
abbrev pub pruned : List Text → List Text
pruned keys = if ltb 100000 (length keys) then [] else keys

module _ (index : ℕ) (level : Level) (wanted : ℕ) where
  abbrev pub event : Instant → Payload → Event
  event t payload = record { source = index; t = t; payload = payload }

  pub block_event : Instant → Transaction → Event
  block_event t tx = event t (
      Payload.block (block_key tx) (if ltb 0 tx.feed_sequence then some tx.feed_sequence else none)
        none none 0)

  pub tx_event : Instant → Transaction → Event
  tx_event t tx = event t (
      Payload.tx tx.transaction_hash (some (block_key tx)) none (is_swap tx.logs)
        (length tx.raw_tx % 2 ^ 32))

  pub on_transaction : Session → Instant → Transaction → Session × List Event
  on_transaction st t tx =
      let kept = pruned st.seen_blocks in
      if not (length tx.transaction_hash == 32) || not (tx.commitment == wanted)
      then (st, [])
      else if contains (block_key tx) kept
      then (record st { seen_blocks = kept }, tx_event t tx ∷ [])
      else (record st { seen_blocks = block_key tx ∷ kept }, block_event t tx ∷ tx_event t tx ∷ [])

  pub status_payload : Bool → Text → Payload
  status_payload true epoch = Payload.connected (
      codes "level="
      ++ level_name level
      ++ codes " upstream reconnected (epoch "
      ++ epoch
      ++ codes ")")
  status_payload false epoch =
      Payload.disconnected
        (codes "upstream source for " ++ level_name level ++ codes " disconnected")

  -- The body of the loop: the state after it and what it sends.
  pub on_update : Session → Instant → Update → Session × List Event
  on_update st t (Update.ack count) = if st.announced then (st, []) else (
    record st { announced = true },
    event t (Payload.connected (codes "level=" ++ level_name level ++ codes " filters=" ++ count))
        ∷ [],
  )
  on_update st t (Update.source_status commitment connected epoch) =
      if (commitment == wanted) && st.announced
      then (st, event t (status_payload connected epoch) ∷ [])
      else (st, [])
  on_update st t (Update.transaction tx) = on_transaction st t tx
  on_update st t Update.other = (st, [])

  -- The events of the updates of a stream, in order.
  pub on_updates : Session → List Stamped → Session × List Event
  on_updates st [] = (st, [])
  on_updates st (s ∷ rest) =
      let (next, events) = on_update st s.t s.update in
      let (last, more) = on_updates next rest in (last, events ++ more)
