-- ===== src/Nitro/Carried.antt =====
-- The transactions of a feed message of src/nitro.rs, from the L2 message that it carries.
use robinhood_feed_bench.Common.{
  ℕ, ◌+◌, ◌-◌, ◌%◌, ◌^◌, max, ◌≡◌, refl, ap, ◌∙◌, false, List, [], ◌∷◌, ◌++◌, map, length,
  length-map, append-none, Option, none, some, unwrap_or, ◌>>=◌, ◌==◌, if◌then◌else◌, arith,
}
use robinhood_feed_bench.Common.Splits.{is_blank}
use robinhood_feed_bench.Common.Texts.{Text, codes}
use robinhood_feed_bench.Common.Decimal.{decimal, decimal_inj}
use robinhood_feed_bench.Event.{Instant, Hash, Payload, Event, Stamp}
use robinhood_feed_bench.L2.{signed_txs}
use robinhood_feed_bench.L2.Message.{encode, txs_of, IsWf}
use robinhood_feed_bench.L2.Walk.{signed_txs-encode}
use robinhood_feed_bench.Ws.Session.{Message}
use robinhood_feed_bench.Nitro.{
  FeedMessage, told_hash, hashed, block_txs, parse_blocks, parse_frame, key, advance, block_events,
  on_blocks, on_message, stamped, tx_event,
}

-- Blocks that have one key have one sequence number.
pub key_inj : (a b : ℕ) → key a ≡ key b → a ≡ b
unfolding key
key_inj a b h = decimal_inj a b (cc)

module _ (from_slice : List ℕ → Option (List FeedMessage)) (decode : Text → Option (List ℕ))
    (keccak256 : List ℕ → Hash) where
  -- The event of a transaction with these bytes.
  abbrev pub carried_event : ℕ → Instant → ℕ → ℕ → List ℕ → Event
  carried_event index t seq n raw = record {
    source = index;
    t = t;
    payload =
        Payload.tx (keccak256 raw) (some (codes "seq:" ++ decimal seq)) (some n) false
          (length raw % 2 ^ 32);
  }

  map-hashed :
      (index : ℕ) (t : Instant) (seq n : ℕ) (raws : List (List ℕ))
      → map (tx_event index t seq n) (map (hashed from_slice decode keccak256) raws)
        ≡ map (carried_event index t seq n) raws
  unfolding tx_event key
  map-hashed index t seq n [] = refl
  map-hashed index t seq n (raw ∷ raws) =
      ap (λ evs. carried_event index t seq n raw ∷ evs) (map-hashed index t seq n raws)

  cursor-after :
      (c : Option ℕ) (seq : ℕ)
      → advance c seq ≡ (if seq == 2 ^ 64 - 1 then c else some (max (unwrap_or c 0) (seq + 1)))
  unfolding advance
  cursor-after none seq = ground arith
  cursor-after (some n) seq = ground arith

  told : (h : Option Text) → told_hash h ≡ (h >>= λ x. if is_blank x then none else some x)
  told none = refl
  told (some x) = refl

  -- The event of a block.
  abbrev pub block_event : ℕ → Instant → ℕ → Option Text → ℕ → ℕ → Event
  block_event index t seq hash n wire_len = record {
    source = index;
    t = t;
    payload = Payload.block (codes "seq:" ++ decimal seq) (some seq) hash (some n) wire_len;
  }

  events-all :
      (index : ℕ) (t : Instant) (wire_len seq : ℕ) (hash : Option Text) (raws : List (List ℕ))
      → block_events index t wire_len
            (record { seq = seq; hash = hash; txs = map (hashed from_slice decode keccak256) raws })
          ++ []
        ≡ block_event index t seq hash (length raws % 2 ^ 32) wire_len
          ∷ map (carried_event index t seq (length raws % 2 ^ 32)) raws
  unfolding block_events key
  events-all index t wire_len seq hash raws =
      let txs = map (hashed from_slice decode keccak256) raws in
      let n = length raws % 2 ^ 32 in
      ap
        (λ k.
          block_event index t seq hash (k % 2 ^ 32) wire_len
          ∷ (map (tx_event index t seq (k % 2 ^ 32)) txs ++ []))
        (length-map (hashed from_slice decode keccak256) raws)
      ∙ ap (λ evs. block_event index t seq hash n wire_len ∷ evs)
          (append-none (map (tx_event index t seq n) txs) ∙ map-hashed index t seq n raws)

  on_message-events :
      (index : ℕ) (stamp : Stamp) (c : Option ℕ) (msg : Message) (fm : FeedMessage) (b64 : Text)
      (m : robinhood_feed_bench.L2.Message.Message)
      → from_slice msg.bytes ≡ some (fm ∷ [])
      → fm.l2_msg ≡ some b64
      → decode b64 ≡ some (encode m)
      → IsWf m
      → on_message from_slice decode keccak256 index stamp c msg ≡ (
        advance c fm.sequence_number,
        block_events index (stamped stamp msg) msg.wire_len (record {
          seq = fm.sequence_number;
          hash = told_hash fm.block_hash;
          txs = map (hashed from_slice decode keccak256) (txs_of m 5);
        })
            ++ [],
      )
  unfolding on_message parse_frame parse_blocks block_txs on_blocks
  on_message-events index stamp c msg fm b64 m json carries decoded wf =
      rw
        (
          on_message,
          parse_frame,
          json,
          parse_blocks,
          carries,
          block_txs,
          decoded,
          signed_txs-encode m wf,
        )
        refl

  -- A WebSocket message of one feed message, whose L2 message is the encoding of a well-formed `m`
  -- in base64, sends the block with its key, its sequence number, its hash unless that is blank,
  -- the count of the transactions of `m` modulo 2 ^ 32 and the length on the wire; then one event
  -- for each of these transactions, in order, with the hash of its bytes, the key and the count of
  -- the block, no swap, and its length modulo 2 ^ 32. The cursor moves to the successor of the
  -- sequence number, never back, and stays when there is no successor in 64 bits.
  pub on_message-encode :
      (index : ℕ) (stamp : Stamp) (c : Option ℕ) (msg : Message) (fm : FeedMessage) (b64 : Text)
      (m : robinhood_feed_bench.L2.Message.Message)
      → from_slice msg.bytes ≡ some (fm ∷ [])
      → fm.l2_msg ≡ some b64
      → decode b64 ≡ some (encode m)
      → IsWf m
      → (let seq = fm.sequence_number in
          let txs = txs_of m 5 in
          let n = length txs % 2 ^ 32 in
          on_message from_slice decode keccak256 index stamp c msg ≡ (
            if seq == 2 ^ 64 - 1 then c else some (max (unwrap_or c 0) (seq + 1)),
            (record {
              source = index;
              t = stamped stamp msg;
              payload =
                  Payload.block
                    (codes "seq:" ++ decimal seq)
                    (some seq)
                    (fm.block_hash >>= λ x. if is_blank x then none else some x)
                    (some n)
                    msg.wire_len;
            })
                ∷ map (carried_event index (stamped stamp msg) seq n) txs,
          ))
  on_message-encode index stamp c msg fm b64 m json carries decoded wf =
      let seq = fm.sequence_number in
      let t = stamped stamp msg in
      let n = length (txs_of m 5) % 2 ^ 32 in
      let next = if seq == 2 ^ 64 - 1 then c else some (max (unwrap_or c 0) (seq + 1)) in
      let sent =
        block_events index t msg.wire_len (record {
          seq = seq;
          hash = told_hash fm.block_hash;
          txs = map (hashed from_slice decode keccak256) (txs_of m 5);
        })
        ++ [] in
      let events = on_message-events index stamp c msg fm b64 m json carries decoded wf in
      events
      ∙ ap (λ (k : Option ℕ). (k, sent)) (cursor-after c seq)
      ∙ ap (λ (evs : List Event). (next, evs))
          (events-all index t msg.wire_len seq (told_hash fm.block_hash) (txs_of m 5)
            ∙ ap
                (λ h.
                  block_event index t seq h n msg.wire_len
                  ∷ map (carried_event index t seq n) (txs_of m 5))
                (told fm.block_hash))
