-- ===== src/Adapter/Quiet.antt =====
-- The messages of the adapters of src/nitro.rs, src/wsjson.rs and src/wsraw.rs give blocks and
-- transactions of their source, as the common loop wants.
use robinhood_feed_bench.Common.{
  ℕ, ◌%◌, ◌^◌, refl, List, [], ◌∷◌, map, Option, none, length, All, Option-cases, inl, inr,
}
use robinhood_feed_bench.Common.Texts.{Text}
use robinhood_feed_bench.Event.{Instant, Hash, Stamp}
use robinhood_feed_bench.Specs.{Target, Spec}
use robinhood_feed_bench.Ws.Negotiation.{Offer, second}
use robinhood_feed_bench.Ws.Session.{Message}
use robinhood_feed_bench.Nitro.{
  FeedMessage, ParsedBlock, stamped, on_blocks, block_events, parse_frame,
}
use robinhood_feed_bench.Nitro
use robinhood_feed_bench.WsJson.{Value, filter_map, key_from_value, extract}
use robinhood_feed_bench.WsJson
use robinhood_feed_bench.WsRaw.Frames
use robinhood_feed_bench.Adapter.{Attempt, events_of}
use robinhood_feed_bench.Adapter.Sources.{
  nitro_adapter, json_adapter, raw_adapter, nitro_run, json_run, raw_run,
}
use robinhood_feed_bench.Adapter.Lifecycle.{IsDelivery, live_step, All-append, Lives, run-Lives}

nitro_txs-IsDelivery :
    (index : ℕ) (t : Instant) (seq n : ℕ) (txs : List (Hash × ℕ))
    → All (IsDelivery index) (map (Nitro.tx_event index t seq n) txs)
unfolding Nitro.tx_event live_step
nitro_txs-IsDelivery index t seq n [] = tt
nitro_txs-IsDelivery index t seq n ((hash, len) ∷ txs) =
    ((refl, refl), nitro_txs-IsDelivery index t seq n txs)

on_blocks-IsDelivery :
    (index : ℕ) (t : Instant) (wire_len : ℕ) (next_seq : Option ℕ) (bs : List ParsedBlock)
    → All (IsDelivery index) (on_blocks index t wire_len next_seq bs).1
unfolding on_blocks block_events live_step
on_blocks-IsDelivery index t wire_len next_seq [] = tt
on_blocks-IsDelivery index t wire_len next_seq (b ∷ bs) =
    All-append (IsDelivery index) (block_events index t wire_len b) _
      ((refl, refl), nitro_txs-IsDelivery index t b.seq (length b.txs % 2 ^ 32) b.txs)
      (on_blocks-IsDelivery index t wire_len (Nitro.advance next_seq b.seq) bs)

pub nitro-quiet :
    (from_slice : List ℕ → Option (List FeedMessage)) (decode : Text → Option (List ℕ))
    (keccak256 : List ℕ → Hash) (index : ℕ) (src : Target) (offer : Offer) (stamp : Stamp)
    (next_seq : Option ℕ) (msg : Message)
    → (let a = nitro_adapter from_slice decode keccak256 index src offer stamp in
        All (IsDelivery a.index) (a.on_message next_seq msg).1)
unfolding nitro_adapter Nitro.on_message
nitro-quiet from_slice decode keccak256 index src offer stamp next_seq msg =
    elim (Option-cases (parse_frame from_slice decode keccak256 msg.bytes)) [
      | inl refused ↦ rw (Nitro.on_message, refused) tt
      | inr (blocks, parsed) ↦
          rw (Nitro.on_message, parsed)
            (on_blocks-IsDelivery index (stamped stamp msg) msg.wire_len next_seq blocks)
    ]

module _ (from_slice : List ℕ → Option Value) (hex_decode : Text → Option (List ℕ))
    (keccak256 : List ℕ → Hash) where
  txs-IsDelivery :
      (index : ℕ) (t : Instant) (keys : List (Hash × ℕ))
      → All (IsDelivery index) (map (WsJson.tx_event from_slice hex_decode keccak256 index t) keys)
  unfolding WsJson.tx_event live_step
  txs-IsDelivery index t [] = tt
  txs-IsDelivery index t ((hash, len) ∷ keys) = ((refl, refl), txs-IsDelivery index t keys)

  pub json-quiet :
      (index : ℕ) (src : Spec) (stamp : Stamp) (s : Unit {0}) (msg : Message)
      → (let a = json_adapter from_slice hex_decode keccak256 index src stamp in
          All (IsDelivery a.index) (a.on_message s msg).1)
  unfolding json_adapter WsJson.on_message
  json-quiet index src stamp s msg = elim (Option-cases (from_slice msg.bytes)) [
    | inl refused ↦ rw (WsJson.on_message, refused) tt
    | inr (v, parsed) ↦
        rw (WsJson.on_message, parsed)
          (txs-IsDelivery index (stamped stamp msg)
            (filter_map (key_from_value from_slice hex_decode keccak256) (extract v src.path)))
  ]

  pub raw-quiet :
      (index : ℕ) (src : Spec) (stamp : Stamp) (s : Unit {0}) (msg : Message)
      → (let a = raw_adapter from_slice hex_decode keccak256 index src stamp in
          All (IsDelivery a.index) (a.on_message s msg).1)
  unfolding raw_adapter Frames.on_frame
  raw-quiet index src stamp s msg =
      txs-IsDelivery index (stamped stamp msg)
        (Frames.frame_keys from_slice hex_decode keccak256 msg.bytes)

module _ (feed : List ℕ → Option (List FeedMessage)) (decode : Text → Option (List ℕ))
    (from_slice : List ℕ → Option Value) (hex_decode : Text → Option (List ℕ))
    (keccak256 : List ℕ → Hash) where
  -- Whatever the attempts to connect meet and however early the collector goes away, each of the
  -- three WebSocket adapters sends only events of its source: by turns `Connected` and
  -- `Disconnected`, first `Connected`, and blocks and transactions only between the two.
  pub runs-Lives :
      (index room : ℕ) (target : Target) (offer : Offer) (src : Spec) (stamp : Stamp)
      (attempts : List Attempt)
      → Lives index
          (events_of (nitro_run feed decode keccak256 index target offer stamp room attempts))
        × Lives index
            (events_of (json_run from_slice hex_decode keccak256 index src stamp room attempts))
        × Lives index
            (events_of (raw_run from_slice hex_decode keccak256 index src stamp room attempts))
  unfolding nitro_run json_run raw_run nitro_adapter json_adapter raw_adapter
  runs-Lives index room target offer src stamp attempts = (
    run-Lives (nitro_adapter feed decode keccak256 index target offer stamp)
        (nitro-quiet feed decode keccak256 index target offer stamp) none second room attempts,
    run-Lives (json_adapter from_slice hex_decode keccak256 index src stamp)
        (json-quiet from_slice hex_decode keccak256 index src stamp) tt second room attempts,
    run-Lives (raw_adapter from_slice hex_decode keccak256 index src stamp)
        (raw-quiet from_slice hex_decode keccak256 index src stamp) tt second room attempts,
  )
