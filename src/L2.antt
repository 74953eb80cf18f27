-- ===== src/L2.antt =====
-- src/l2.rs: the signed transactions of a Nitro L2 message.
-- A slice is the list of its bytes. `out` is returned instead of pushed to, so a nested call's
-- transactions are appended where the call stands. `depth > 4` stops a batch: `room` is the
-- number of levels left, 5 - depth, so it is 0 just when the source's test succeeds.
pub mod Message
pub mod Walk
pub mod Bounds
mod Runs
use robinhood_feed_bench.Common.{
  ℕ, zero, suc, ◌*◌, ◌^◌, Bool, true, false, ◌||◌, List, [], ◌∷◌, ◌++◌, length, take, drop, ltb,
  ◌==◌, if◌then◌else◌,
}
use robinhood_feed_bench.Common.Bytes.{from_be}

abbrev pub kind_batch : ℕ
kind_batch = 3

abbrev pub kind_signed_tx : ℕ
kind_signed_tx = 4

abbrev pub max_entry : ℕ
max_entry = 16 * 2 ^ 20

-- The `while` loop of a batch. `rest` is `l2[pos..]`; every round takes the eight bytes of a
-- length, so `length rest` rounds are enough.
pub entries : (List ℕ → List (List ℕ)) → ℕ → List ℕ → List (List ℕ)
entries sub zero rest = []
entries sub (suc fuel) rest =
    let n = from_be (take 8 rest) in
    let body = drop 8 rest in
    let more = entries sub fuel (drop n body) in
    if ltb (length rest) 8
    then []
    else if ltb max_entry n || ltb (length body) n
    then []
    else sub (take n body) ++ more

pub signed_tx : List ℕ → List (List ℕ)
signed_tx [] = []
signed_tx (x ∷ tx) = (x ∷ tx) ∷ []

pub walk : ℕ → List ℕ → List (List ℕ)
walk room [] = []
walk zero (kind ∷ rest) = if kind == kind_signed_tx then signed_tx rest else []
walk (suc room) (kind ∷ rest) =
    let batch = entries (walk room) (length rest) rest in
    if kind == kind_signed_tx then signed_tx rest else if kind == kind_batch then batch else []

pub signed_txs : List ℕ → List (List ℕ)
signed_txs = walk 5
