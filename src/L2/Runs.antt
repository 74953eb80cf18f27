-- ===== src/L2/Runs.antt =====
-- Runs of src/l2.rs on concrete messages, the unit test's among them.
use robinhood_feed_bench.Common.{ℕ, ◌≡◌, refl, List, [], ◌∷◌, ◌++◌, arith, inl}
use robinhood_feed_bench.Common.Bytes.{to_be, from_be}
use robinhood_feed_bench.L2.{entries, signed_tx, walk, signed_txs, kind_batch}
use robinhood_feed_bench.L2.Message.{
  Message, tx, batch, other, nil, cons, Messages, encode, encode_all, txs_of, all_txs_of,
}
use robinhood_feed_bench.L2.Walk.{signed_txs-encode, signed_txs_cut}

abbrev typed : List ℕ
typed = 2 ∷ 0xc3 ∷ 1 ∷ 2 ∷ 3 ∷ []

abbrev parts : Messages
parts = cons (tx typed) (cons (other 6 []) (cons (batch (cons (tx (9 ∷ [])) nil)) nil))

abbrev frame : Message
frame = batch parts

frame_txs : signed_txs (encode frame) ≡ typed ∷ (9 ∷ []) ∷ []
unfolding signed_txs walk entries signed_tx from_be encode to_be
frame_txs = refl

signed_txs-encode_example : signed_txs (encode frame) ≡ txs_of frame 5
unfolding encode to_be
signed_txs-encode_example = signed_txs-encode frame (omega arith)

signed_txs_cut_example :
    signed_txs (kind_batch ∷ (encode_all parts ++ (0 ∷ 0 ∷ []))) ≡ all_txs_of parts 4
unfolding encode to_be
signed_txs_cut_example = signed_txs_cut parts (0 ∷ 0 ∷ []) (omega arith) (inl (omega arith))
