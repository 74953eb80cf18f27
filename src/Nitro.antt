-- ===== src/Nitro.antt =====
-- src/nitro.rs: the events of a Nitro feed and the cursor for its reconnects.
-- `from_slice` is serde_json on the bytes of a message, `decode` the base64 engine and `keccak256`
-- the hash: they are parameters. A message that does not parse is `none`. The JSON structs `Frame`,
-- `Outer` and `Inner` only nest, so their fields stand in `FeedMessage`.
pub mod Cursor
pub mod Carried
mod Runs
use robinhood_feed_bench.Common.{
  ℕ, zero, suc, ◌+◌, ◌-◌, ◌%◌, ◌^◌, max, Bool, true, false, ◌&&◌, ◌||◌, List, [], ◌∷◌, ◌++◌, map,
  Option, none, some, length, leb, ◌==◌, if◌then◌else◌, ◌>>=◌,
}
use robinhood_feed_bench.Common.Splits.{is_blank}
use robinhood_feed_bench.Common.Texts.{Text, codes}
use robinhood_feed_bench.Common.Decimal.{decimal}
use robinhood_feed_bench.Event.{Instant, Hash, Payload, Event, Stamp}
use robinhood_feed_bench.L2.{signed_txs}
use robinhood_feed_bench.Ws.Session.{Message}

pub record FeedMessage : Type 0 where
  pub sequence_number : ℕ
  pub block_hash : Option Text
  pub l2_msg : Option Text

pub record ParsedBlock : Type 0 where
  pub seq : ℕ
  pub hash : Option Text
  pub txs : List (Hash × ℕ)

abbrev pub u64_max : ℕ
u64_max = 2 ^ 64 - 1

abbrev pub u32_mod : ℕ
u32_mod = 2 ^ 32

-- `m.block_hash.filter(|h| !h.trim().is_empty())`
abbrev pub told_hash : Option Text → Option Text
told_hash none = none
told_hash (some h) = if is_blank h then none else some h

unfoldable pub key : ℕ → Text
key seq = codes "seq:" ++ decimal seq

-- `next_seq` after a block.
unfoldable pub advance : Option ℕ → ℕ → Option ℕ
advance next_seq seq =
    if seq == u64_max
    then next_seq
    else elim next_seq [ none ↦ some (seq + 1) | some n ↦ some (max n (seq + 1)) ]

unfoldable pub tx_event : ℕ → Instant → ℕ → ℕ → Hash × ℕ → Event
tx_event index t seq n (hash, raw_len) = record {
  source = index;
  t = t;
  payload = Payload.tx hash (some (key seq)) (some n) false raw_len;
}

-- What is sent for a block.
unfoldable pub block_events : ℕ → Instant → ℕ → ParsedBlock → List Event
block_events index t wire_len b =
    let n = length b.txs % u32_mod in
    (record {
      source = index;
      t = t;
      payload = Payload.block (key b.seq) (some b.seq) b.hash (some n) wire_len;
    })
    ∷ map (tx_event index t b.seq n) b.txs

unfoldable pub on_blocks : ℕ → Instant → ℕ → Option ℕ → List ParsedBlock → Option ℕ × List Event
on_blocks index t wire_len next_seq [] = (next_seq, [])
on_blocks index t wire_len next_seq (b ∷ bs) =
    let (last, events) = on_blocks index t wire_len (advance next_seq b.seq) bs in
    (last, block_events index t wire_len b ++ events)

abbrev pub stamped : Stamp → Message → Instant
stamped Stamp.arrival msg = msg.arrival
stamped Stamp.decoded msg = msg.decoded

module _ (from_slice : List ℕ → Option (List FeedMessage)) (decode : Text → Option (List ℕ))
    (keccak256 : List ℕ → Hash) where
  abbrev pub hashed : List ℕ → Hash × ℕ
  hashed raw = (keccak256 raw, length raw % u32_mod)

  unfoldable pub block_txs : Option Text → Option (List (Hash × ℕ))
  block_txs none = some []
  block_txs (some b64) = do bin ← decode b64; some (map hashed (signed_txs bin))

  unfoldable pub parse_blocks : List FeedMessage → Option (List ParsedBlock)
  parse_blocks [] = some []
  parse_blocks (m ∷ ms) = do
    txs ← block_txs m.l2_msg
    blocks ← parse_blocks ms
    some ((record { seq = m.sequence_number; hash = told_hash m.block_hash; txs = txs }) ∷ blocks)

  unfoldable pub parse_frame : List ℕ → Option (List ParsedBlock)
  parse_frame bytes = do messages ← from_slice bytes; parse_blocks messages

  -- The body of the loop over the messages of a connection.
  unfoldable pub on_message : ℕ → Stamp → Option ℕ → Message → Option ℕ × List Event
  on_message index stamp next_seq msg = elim (parse_frame msg.bytes) [
    | none ↦ (next_seq, [])
    | some blocks ↦ on_blocks index (stamped stamp msg) msg.wire_len next_seq blocks
  ]

  -- The messages of a connection, in order.
  pub on_messages : ℕ → Stamp → Option ℕ → List Message → Option ℕ × List Event
  on_messages index stamp next_seq [] = (next_seq, [])
  on_messages index stamp next_seq (msg ∷ msgs) =
      let (next, events) = on_message index stamp next_seq msg in
      let (last, more) = on_messages index stamp next msgs in (last, events ++ more)
