-- ===== src/WsJson/Runs.antt =====
-- The extraction of the tests of src/wsjson.rs.
use robinhood_feed_bench.Common.{
  ℕ, ◌≡◌, refl, List, [], ◌∷◌, map, Option, none, some, if◌then◌else◌, arith,
}
use robinhood_feed_bench.Common.Texts.{Text, text_eq, codes}
use robinhood_feed_bench.Event.{Hash}
use robinhood_feed_bench.WsJson.{
  Value, Items, Members, tx_event, key_of_bytes, on_message, extract, descend,
}
use robinhood_feed_bench.WsJson.Paths.{Segment, Pick, print_path, select, extract-select}
use robinhood_feed_bench.WsJson.Keys.{hex_value, to_hex, on_message-selected}

abbrev first : List ℕ
first = 2 ∷ 195 ∷ 1 ∷ []

abbrev second : List ℕ
second = 2 ∷ 195 ∷ 9 ∷ []

abbrev raw : Value → Value
raw v = Value.object (Members.member (codes "raw") v Members.close)

-- {"data": [{"raw": …}, {"raw": …}, {"other": 1}]}
abbrev message : Value
message = Value.object (
    Members.member (codes "data")
      (Value.array (
        Items.item (raw (hex_value first)) (
          Items.item (raw (hex_value second)) (
            Items.item
              (Value.object
                (Members.member (codes "other") (Value.number (codes "1")) Members.close))
              Items.end))))
      Members.close)

-- data[].raw
abbrev path : List Segment
path =
    record { name = codes "data"; picks = Pick.every ∷ [] }
    ∷ record { name = codes "raw"; picks = [] }
    ∷ []

select_two : select (message ∷ []) path ≡ map hex_value (first ∷ second ∷ [])
unfolding descend
select_two = refl

extract-select_example : extract message (print_path path) ≡ select (message ∷ []) path
extract-select_example = extract-select path message (ground arith)

abbrev from_slice : List ℕ → Option Value
from_slice [] = none
from_slice (b ∷ bs) = some message

abbrev hex_decode : Text → Option (List ℕ)
hex_decode t =
    if text_eq t (to_hex first)
    then some first
    else if text_eq t (to_hex second)
    then some second
    else none

abbrev keccak256 : List ℕ → Hash
keccak256 bs = bs

on_message-selected_example :
    on_message from_slice hex_decode keccak256 1 (print_path path) 5 (123 ∷ [])
    ≡ map
        (tx_event from_slice hex_decode keccak256 1 5)
        (map (key_of_bytes from_slice hex_decode keccak256) (first ∷ second ∷ []))
on_message-selected_example =
    on_message-selected from_slice hex_decode keccak256 1 5 (123 ∷ []) message path
      (first ∷ second ∷ []) refl (ground arith) select_two (ground arith)
