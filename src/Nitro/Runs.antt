-- ===== src/Nitro/Runs.antt =====
-- A feed message of src/nitro.rs with one transaction; the decoders are stand-ins that know it.
use robinhood_feed_bench.Common.{ℕ, ◌≡◌, refl, List, [], ◌∷◌, Option, some, map}
use robinhood_feed_bench.Common.Decimal.{decimal}
use robinhood_feed_bench.Common.Texts.{Text, codes}
use robinhood_feed_bench.Event.{Hash, Payload, Stamp}
use robinhood_feed_bench.L2.Message.{encode, txs_of}
use robinhood_feed_bench.Ws.Session.{Message}
use robinhood_feed_bench.Nitro.{FeedMessage, on_message}
use robinhood_feed_bench.Nitro.Carried.{carried_event, on_message-encode}

abbrev carried : robinhood_feed_bench.L2.Message.Message
carried = robinhood_feed_bench.L2.Message.Message.tx (2 ∷ 195 ∷ 1 ∷ 2 ∷ 3 ∷ [])

abbrev feed_message : FeedMessage
feed_message = record {
  sequence_number = 77;
  block_hash = some (codes "0xabc");
  l2_msg = some (codes "BAI=");
}

abbrev from_slice : List ℕ → Option (List FeedMessage)
from_slice bytes = some (feed_message ∷ [])

abbrev decode : Text → Option (List ℕ)
decode text = some (encode carried)

abbrev first_byte : List ℕ → Hash
first_byte [] = []
first_byte (b ∷ bs) = b ∷ []

abbrev message : Message
message = record { bytes = 123 ∷ 125 ∷ []; arrival = 5; decoded = 6; wire_len = 9 }

on_message-encode_example :
    on_message from_slice decode first_byte 0 Stamp.decoded (some 70) message ≡ (
      some 78,
      (record {
        source = 0;
        t = 6;
        payload = Payload.block (codes "seq:77") (some 77) (some (codes "0xabc")) (some 1) 9;
      })
          ∷ map (carried_event from_slice decode first_byte 0 6 77 1) (txs_of carried 5),
    )
unfolding decimal txs_of
on_message-encode_example =
    on_message-encode from_slice decode first_byte 0 Stamp.decoded (some 70) message feed_message
      (codes "BAI=") carried refl refl refl tt
