-- ===== src/WsRaw/Frames.antt =====
-- src/wsraw.rs: the transactions of a frame, binary or JSON, as events. `from_slice` (serde_json),
-- `hex_decode` (the hex crate) and `keccak256` are parameters; `Value` is that of src/wsjson.rs.
use mathlib.Core.Path.{ap₂}
use robinhood_feed_bench.Common.{
  ℕ, ◌%◌, ◌^◌, ◌≡◌, ◌<◌, refl, ap, sym, ◌∙◌, inl, inr, Option-cases, List, [], ◌∷◌, ◌++◌, map,
  Option, none, some, length,
}
use robinhood_feed_bench.Common.Texts.{Text}
use robinhood_feed_bench.Event.{Instant, Hash, Event}
use robinhood_feed_bench.WsJson.{Value, Items, Members, filter_map, key_from_value, tx_event}
use robinhood_feed_bench.WsRaw.{split_txs}
use robinhood_feed_bench.WsRaw.Rlp.{SignedTx, encode_tx}
use robinhood_feed_bench.WsRaw.Split.{IsPrefixLen, AllFit, framed, split_txs-framed}

module _ (from_slice : List ℕ → Option Value) (hex_decode : Text → Option (List ℕ))
    (keccak256 : List ℕ → Hash) where
  mutual
    pub json_keys : Value → List (Hash × ℕ)
    json_keys Value.null = []
    json_keys (Value.bool b) = []
    json_keys (Value.number n) = []
    json_keys (Value.string s) =
        elim (key_from_value from_slice hex_decode keccak256 (Value.string s)) [
          | none ↦ []
          | some k ↦ k ∷ []
        ]
    json_keys (Value.array vs) = items_keys vs
    json_keys (Value.object ms) = members_keys ms

    items_keys : Items → List (Hash × ℕ)
    items_keys Items.end = []
    items_keys (Items.item v vs) = json_keys v ++ items_keys vs

    members_keys : Members → List (Hash × ℕ)
    members_keys Members.close = []
    members_keys (Members.member name v ms) = json_keys v ++ members_keys ms

  pub raw_key : List ℕ → Hash × ℕ
  raw_key tx = (keccak256 tx, length tx % 2 ^ 32)

  -- `keys` at the end of the two loops that push to it.
  pub frame_keys : List ℕ → List (Hash × ℕ)
  frame_keys bytes = elim (split_txs bytes) [
    | [] ↦ elim (from_slice bytes) [ none ↦ [] | some v ↦ json_keys v ]
    | tx ∷ txs ↦ map raw_key (tx ∷ txs)
  ]

  -- The body of the loop over the messages: what it sends.
  unfoldable pub on_frame : ℕ → Instant → List ℕ → List Event
  on_frame index t bytes = map (tx_event from_slice hex_decode keccak256 index t) (frame_keys bytes)

  -- The texts of a value, in the order in which they stand in it.
  mutual
    pub texts : Value → List Value
    texts Value.null = []
    texts (Value.bool b) = []
    texts (Value.number n) = []
    texts (Value.string s) = Value.string s ∷ []
    texts (Value.array vs) = items_texts vs
    texts (Value.object ms) = members_texts ms

    items_texts : Items → List Value
    items_texts Items.end = []
    items_texts (Items.item v vs) = texts v ++ items_texts vs

    members_texts : Members → List Value
    members_texts Members.close = []
    members_texts (Members.member name v ms) = texts v ++ members_texts ms

  filter_map-append :
      (f : Value → Option (Hash × ℕ)) (a b : List Value)
      → filter_map f (a ++ b) ≡ filter_map f a ++ filter_map f b
  filter_map-append f [] b = refl
  filter_map-append f (x ∷ a) b = elim (Option-cases (f x)) [
    | inl skip ↦ rw (filter_map, skip) (filter_map-append f a b)
    | inr (y, keep) ↦ rw (filter_map, keep) (ap (λ r. y ∷ r) (filter_map-append f a b))
  ]

  abbrev pub keyed : List Value → List (Hash × ℕ)
  keyed = filter_map (key_from_value from_slice hex_decode keccak256)

  mutual
    unfolding json_keys texts

    json_keys-texts : (v : Value) → json_keys v ≡ keyed (texts v)
    json_keys-texts Value.null = refl
    json_keys-texts (Value.bool b) = refl
    json_keys-texts (Value.number n) = refl
    json_keys-texts (Value.string s) = refl
    json_keys-texts (Value.array vs) = items_keys-texts vs
    json_keys-texts (Value.object ms) = members_keys-texts ms

    items_keys-texts : (vs : Items) → items_keys vs ≡ keyed (items_texts vs)
    items_keys-texts Items.end = refl
    items_keys-texts (Items.item v vs) =
        ap₂ ◌++◌ (json_keys-texts v) (items_keys-texts vs)
        ∙ sym (filter_map-append _ (texts v) (items_texts vs))

    members_keys-texts : (ms : Members) → members_keys ms ≡ keyed (members_texts ms)
    members_keys-texts Members.close = refl
    members_keys-texts (Members.member name v ms) =
        ap₂ ◌++◌ (json_keys-texts v) (members_keys-texts ms)
        ∙ sym (filter_map-append _ (texts v) (members_texts ms))

  frame_keys-split :
      (bytes tx : List ℕ) (txs : List (List ℕ))
      → split_txs bytes ≡ tx ∷ txs
      → frame_keys bytes ≡ map raw_key (tx ∷ txs)
  unfolding frame_keys
  frame_keys-split bytes tx txs split = rw (frame_keys, split) refl

  frame_keys-json :
      (bytes : List ℕ) (v : Value)
      → split_txs bytes ≡ []
      → from_slice bytes ≡ some v
      → frame_keys bytes ≡ keyed (texts v)
  unfolding frame_keys
  frame_keys-json bytes v split parsed = rw (frame_keys, split, parsed) (json_keys-texts v)

  -- A frame that is a run of encoded transactions of at least eight bytes, the first under 12 MiB,
  -- bare or each behind its length in four or in eight bytes, sends one event for each, in order,
  -- with its Keccak hash and its length.
  pub on_frame-framed :
      (index : ℕ) (at : Instant) (prefix : ℕ) (t : SignedTx) (ts : List SignedTx)
      → length (encode_tx t) < 0xc0_0000
      → IsPrefixLen prefix
      → AllFit prefix (t ∷ ts)
      → on_frame index at (framed prefix (map encode_tx (t ∷ ts)))
        ≡ map
            (tx_event from_slice hex_decode keccak256 index at)
            (map raw_key (map encode_tx (t ∷ ts)))
  unfolding on_frame
  on_frame-framed index at prefix t ts small p fit =
      ap (map (tx_event from_slice hex_decode keccak256 index at))
        (frame_keys-split _ _ _ (split_txs-framed t ts small prefix p fit))

  -- A frame that splits into no transaction and parses as JSON sends one event for each text in the
  -- value that is a key, in the order in which the texts stand in it.
  pub on_frame-json :
      (index : ℕ) (at : Instant) (bytes : List ℕ) (v : Value)
      → split_txs bytes ≡ []
      → from_slice bytes ≡ some v
      → on_frame index at bytes
        ≡ map (tx_event from_slice hex_decode keccak256 index at) (keyed (texts v))
  unfolding on_frame
  on_frame-json index at bytes v split parsed =
      ap (map (tx_event from_slice hex_decode keccak256 index at))
        (frame_keys-json bytes v split parsed)
