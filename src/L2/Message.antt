-- ===== src/L2/Message.antt =====
-- The messages that the layout of src/l2.rs describes, how they are written, and which
-- transactions a reader that descends `room` levels finds in them.
use robinhood_feed_bench.Common.{ℕ, zero, suc, ◌≤◌, ◌≢◌, List, [], ◌∷◌, ◌++◌, length}
use robinhood_feed_bench.Common.Bytes.{to_be}
use robinhood_feed_bench.L2.{kind_batch, kind_signed_tx, max_entry, signed_tx}

mutual
  pub data Message : Type 0 where
    tx : List ℕ → Message
    batch : Messages → Message
    other : ℕ → List ℕ → Message

  pub data Messages : Type 0 where
    nil : Messages
    cons : Message → Messages → Messages

unfoldable mutual
  pub encode : Message → List ℕ
  encode (tx body) = kind_signed_tx ∷ body
  encode (batch ms) = kind_batch ∷ encode_all ms
  encode (other kind body) = kind ∷ body

  pub encode_all : Messages → List ℕ
  encode_all nil = []
  encode_all (cons m ms) = to_be 8 (length (encode m)) ++ (encode m ++ encode_all ms)

-- Every part is short enough, and another kind is another kind.
abbrev mutual
  pub IsWf : Message → Type 0
  IsWf (tx body) = Unit
  IsWf (batch ms) = AllWf ms
  IsWf (other kind body) = (kind ≢ kind_batch) × (kind ≢ kind_signed_tx)

  pub AllWf : Messages → Type 0
  AllWf nil = Unit
  AllWf (cons m ms) = IsWf m × (length (encode m) ≤ max_entry) × AllWf ms

-- `room` batches may stand inside one another.
unfoldable mutual
  unfolding signed_tx

  pub txs_of : Message → ℕ → List (List ℕ)
  txs_of (tx body) room = signed_tx body
  txs_of (batch ms) zero = []
  txs_of (batch ms) (suc room) = all_txs_of ms room
  txs_of (other kind body) room = []

  pub all_txs_of : Messages → ℕ → List (List ℕ)
  all_txs_of nil room = []
  all_txs_of (cons m ms) room = txs_of m room ++ all_txs_of ms room
