-- ===== src/Ws/Session/Runs.antt =====
-- Sessions of src/ws.rs with a decompressor that copies its input.
use robinhood_feed_bench.Common.{ℕ, ◌≡◌, refl, true, false, List, [], ◌∷◌, none, some, arith}
use robinhood_feed_bench.Inflate.{Inflater, Mode}
use robinhood_feed_bench.Inflate.Runs.{copy, copy-TakesInput}
use robinhood_feed_bench.Ws.Session.{Client, drain}
use robinhood_feed_bench.Ws.Session.Limit.{Within, drain-Within}
use robinhood_feed_bench.Ws.Session.Fragments.{
  Piece, first_frame, continuations, joined, feed, idle, feed-fragments,
}

abbrev inflater : Inflater copy
inflater = record { de = 0; mode = Mode.nitro; max = 100; ended = false }

abbrev client : Client copy
client = record { inflater = some inflater; in_progress = none; max = 100 }

-- A ping with an empty payload, half a text message and its end, and the start of a frame.
abbrev buffer : List ℕ
buffer = 137 ∷ 0 ∷ 1 ∷ 1 ∷ 104 ∷ 128 ∷ 1 ∷ 105 ∷ 129 ∷ []

abbrev masks : ℕ → List ℕ
masks n = 1 ∷ 2 ∷ 3 ∷ 4 ∷ []

drain-Within_example : Within copy copy-TakesInput 100 9 (drain copy 10 masks client buffer 0 50 60)
drain-Within_example =
    drain-Within copy copy-TakesInput 10 masks 100 client buffer 0 50 60 (refl, tt, refl)
      (omega arith)

abbrev pieces : List Piece
pieces = (105 ∷ [], 3) ∷ []

feed-fragments_example :
    feed copy 50 60
      (idle copy 50 60 true (some inflater) 100, none)
      (first_frame 2 false true (104 ∷ [], 3) ∷ continuations pieces (33 ∷ [], 3))
    ≡ feed copy 50 60
        (idle copy 50 60 true (some inflater) 100, none)
        (first_frame 2 true true (joined (104 ∷ [], 3) pieces (33 ∷ [], 3)) ∷ [])
feed-fragments_example =
    feed-fragments copy 50 60 true (some inflater) 100 2 (104 ∷ [], 3) pieces (33 ∷ [], 3) refl refl
      (omega arith)
