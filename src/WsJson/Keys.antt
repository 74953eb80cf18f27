-- ===== src/WsJson/Keys.antt =====
-- The transactions that src/wsjson.rs takes out of a message.
use robinhood_feed_bench.Common.{
  ℕ, ◌+◌, ◌*◌, ◌/◌, ◌%◌, ◌<◌, ◌≡◌, ◌≢◌, refl, ap, ◌∙◌, true, false, List, [], ◌∷◌, ◌++◌, map,
  Option, some, All, length, ltb, if◌then◌else◌, arith,
}
use robinhood_feed_bench.Common.Texts.{Text, codes}
use robinhood_feed_bench.Common.Bytes.{IsBytes}
use robinhood_feed_bench.Common.Splits.{is_space, trim, trim_end}
use robinhood_feed_bench.Event.{Instant, Hash}
use robinhood_feed_bench.WsJson.{
  Value, filter_map, strip_0x, is_hex, all_hex, key_of_bytes, key_of_hex, key_from_value, tx_event,
  on_message,
}
use robinhood_feed_bench.WsJson.Paths.{Segment, IsSegment, print_path, select, extract-select}

-- Bytes as hexadecimal digits, the high one first.
abbrev pub hex_digit : ℕ → ℕ
hex_digit n = if ltb n 10 then b'0' + n else 87 + n

abbrev pub to_hex : List ℕ → Text
to_hex [] = []
to_hex (b ∷ bs) = hex_digit (b / 16) ∷ hex_digit (b % 16) ∷ to_hex bs

-- A transaction in a message: its bytes in hexadecimal.
abbrev pub hex_value : List ℕ → Value
hex_value bs = Value.string (codes "0x" ++ to_hex bs)

hex_digit-is_hex : (n : ℕ) → n < 16 → is_hex (hex_digit n) ≡ true
hex_digit-is_hex n h = ground arith

to_hex-all_hex : (bs : List ℕ) → IsBytes bs → all_hex (to_hex bs) ≡ true
to_hex-all_hex [] h = refl
to_hex-all_hex (b ∷ bs) h =
    rw (hex_digit-is_hex (b / 16) (omega (arith, h.0)), hex_digit-is_hex (b % 16) (omega arith))
      (to_hex-all_hex bs h.1)

length-to_hex : (bs : List ℕ) → length (to_hex bs) ≡ 2 * length bs
length-to_hex [] = refl
length-to_hex (b ∷ bs) = omega (arith, length-to_hex bs)

hex-no_space : (c : ℕ) → is_hex c ≡ true → is_space c ≡ false
hex-no_space c h = ground arith

trim_end-hex : (t : Text) → all_hex t ≡ true → trim_end t ≡ t
trim_end-hex [] h = refl
trim_end-hex (c ∷ cs) h =
    let head : is_hex c ≡ true = ground arith in
    let rest : all_hex cs ≡ true = ground arith in
    rw (hex-no_space c head, trim_end-hex cs rest) refl

-- The prefix is no blank and no digits that are trimmed.
trim-prefixed : (t : Text) → all_hex t ≡ true → trim (codes "0x" ++ t) ≡ codes "0x" ++ t
trim-prefixed t h = ap (λ r. codes "0x" ++ r) (trim_end-hex t h)

module _ (from_slice : List ℕ → Option Value) (hex_decode : Text → Option (List ℕ))
    (keccak256 : List ℕ → Hash) where
  key_of_hex-to_hex :
      (bs : List ℕ)
      → IsBytes bs
      → bs ≢ []
      → hex_decode (to_hex bs) ≡ some bs
      → key_of_hex from_slice hex_decode keccak256 (to_hex bs)
        ≡ some (key_of_bytes from_slice hex_decode keccak256 bs)
  unfolding key_of_hex
  key_of_hex-to_hex [] bytes some_byte decodes = absurd (some_byte refl)
  key_of_hex-to_hex (b ∷ bs) bytes some_byte decodes =
      let even : length (to_hex (b ∷ bs)) % 2 ≡ 0 = omega (arith, length-to_hex (b ∷ bs)) in
      rw (even, to_hex-all_hex (b ∷ bs) bytes, decodes) refl

  pub key_from_value-hex :
      (bs : List ℕ)
      → IsBytes bs
      → bs ≢ []
      → hex_decode (to_hex bs) ≡ some bs
      → key_from_value from_slice hex_decode keccak256 (hex_value bs)
        ≡ some (key_of_bytes from_slice hex_decode keccak256 bs)
  unfolding key_from_value
  key_from_value-hex bs bytes some_byte decodes =
      ap (λ s. key_of_hex from_slice hex_decode keccak256 (strip_0x s))
        (trim-prefixed (to_hex bs) (to_hex-all_hex bs bytes))
      ∙ key_of_hex-to_hex bs bytes some_byte decodes

  -- A transaction that has a byte, and whose digits the decoder reads back.
  abbrev pub IsCarried : List ℕ → Type 0
  IsCarried bs = IsBytes bs × (bs ≢ []) × (hex_decode (to_hex bs) ≡ some bs)

  filter_map-hex :
      (txs : List (List ℕ))
      → All IsCarried txs
      → filter_map (key_from_value from_slice hex_decode keccak256) (map hex_value txs)
        ≡ map (key_of_bytes from_slice hex_decode keccak256) txs
  filter_map-hex [] h = refl
  filter_map-hex (bs ∷ txs) h =
      rw (filter_map, key_from_value-hex bs h.0.0 h.0.1 h.0.2)
        (ap (λ r. key_of_bytes from_slice hex_decode keccak256 bs ∷ r) (filter_map-hex txs h.1))

  -- When the message parses and the path selects the values that are these transactions in
  -- hexadecimal, each with its prefix, the adapter sends one event for each, in order: with the bytes
  -- themselves as a hash when they are 32, else with their Keccak hash and their number.
  pub on_message-selected :
      (index : ℕ) (t : Instant) (bytes : List ℕ) (v : Value) (segs : List Segment)
      (txs : List (List ℕ))
      → from_slice bytes ≡ some v
      → All IsSegment segs
      → select (v ∷ []) segs ≡ map hex_value txs
      → All IsCarried txs
      → on_message from_slice hex_decode keccak256 index (print_path segs) t bytes
        ≡ map
            (tx_event from_slice hex_decode keccak256 index t)
            (map (key_of_bytes from_slice hex_decode keccak256) txs)
  unfolding on_message
  on_message-selected index t bytes v segs txs parsed wf selected carried =
      rw (on_message, parsed, extract-select segs v wf, selected, filter_map-hex txs carried) refl
