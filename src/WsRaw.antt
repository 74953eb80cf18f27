-- ===== src/WsRaw.antt =====
-- src/wsraw.rs: splitting a binary frame into signed transactions.
-- A slice is the list of its bytes and `None` is `none`. A usize has 64 bits and its sums wrap,
-- as in the release build that the README tells to make; a debug build panics there instead.
pub mod Rlp
pub mod Split
pub mod Cover
pub mod Frames
mod Runs
use Prim.Native.Nat.{bit_or}
use robinhood_feed_bench.Common.{
  ℕ, zero, suc, ◌+◌, ◌-◌, ◌*◌, ◌%◌, ◌^◌, Bool, true, false, not, ◌&&◌, ◌||◌, List, [], ◌∷◌, ◌++◌,
  Option, none, some, length, take, drop, ltb, leb, ◌==◌, if◌then◌else◌, ◌>>=◌,
}

abbrev pub usize_mod : ℕ
usize_mod = 2 ^ 64

-- `b.get(i..)`
pub get_from : ℕ → List ℕ → Option (List ℕ)
get_from i b = if leb i (length b) then some (drop i b) else none

-- `b.get(..n)`
pub get_to : ℕ → List ℕ → Option (List ℕ)
get_to n b = if leb n (length b) then some (take n b) else none

-- `b.get(1..1 + n)`
pub get_behind_first : ℕ → List ℕ → Option (List ℕ)
get_behind_first n b = if leb (1 + n) (length b) then some (take n (drop 1 b)) else none

be_fold : ℕ → List ℕ → ℕ
be_fold acc [] = acc
be_fold acc (x ∷ xs) = be_fold (bit_or (acc * 256 % usize_mod) x) xs

pub be : List ℕ → Option ℕ
be b = if (length b == 0) || ltb 8 (length b) then none else some (be_fold 0 b)

-- `1 + ll + be(b.get(1..1 + ll)?)?`
long_len : ℕ → List ℕ → Option ℕ
long_len ll b = do digits ← get_behind_first ll b; n ← be digits; some ((1 + ll + n) % usize_mod)

pub rlp_item_len : List ℕ → Option ℕ
unfolding long_len
rlp_item_len [] = none
rlp_item_len (b0 ∷ rest) =
    if leb b0 0x7f
    then some 1
    else if leb b0 0xb7
    then some (1 + (b0 - 0x80))
    else if leb b0 0xbf
    then long_len (b0 - 0xb7) (b0 ∷ rest)
    else if leb b0 0xf7
    then some (1 + (b0 - 0xc0))
    else long_len (b0 - 0xf7) (b0 ∷ rest)

-- The typed case, with what stands behind the type byte.
typed_len : List ℕ → Option ℕ
typed_len [] = none
typed_len (b1 ∷ rest) =
    if ltb b1 0xc0 then none else (rlp_item_len (b1 ∷ rest) >>= λ n. some ((1 + n) % usize_mod))

pub tx_len : List ℕ → Option ℕ
unfolding typed_len
tx_len [] = none
tx_len (b0 ∷ rest) =
    if ltb b0 0x80 then typed_len rest else if leb 0xc0 b0 then rlp_item_len (b0 ∷ rest) else none

-- `prefix > 0 && be(digits) != Some(n)` is what ends the loop.
abbrev prefix_fits : ℕ → Option ℕ → ℕ → Bool
prefix_fits zero said n = true
prefix_fits (suc k) none n = false
prefix_fits (suc k) (some m) n = m == n

-- One round of the `while` loop at `rest`, which is `frame[pos..]`: the transaction and its
-- length, or `none` where the source sets `ok = false`.
pub next_tx : ℕ → List ℕ → Option (List ℕ × ℕ)
next_tx prefix rest = do
  body ← get_from prefix rest
  n ← tx_len body
  tx ← if prefix_fits prefix (be (take prefix rest)) n then get_to n body else none
  if ltb n 8 then none else some (tx, n)

-- The loop: `some out` if it ends with `ok`. Every round takes eight bytes at least, so as many
-- rounds as there are bytes are enough.
pub split_run : ℕ → ℕ → List ℕ → Option (List (List ℕ))
split_run prefix fuel [] = some []
split_run prefix zero (b ∷ rest) = none
split_run prefix (suc fuel) (b ∷ rest) = do
  (tx, n) ← next_tx prefix (b ∷ rest)
  out ← split_run prefix fuel (drop (prefix + n) (b ∷ rest))
  some (tx ∷ out)

-- `for prefix in [0, 4, 8]`: the first run that ends well with something in `out` is returned.
pub try_prefixes : List ℕ → List ℕ → List (List ℕ)
try_prefixes [] frame = []
try_prefixes (prefix ∷ more) frame = elim (split_run prefix (length frame) frame) [
  | none ↦ try_prefixes more frame
  | some [] ↦ try_prefixes more frame
  | some (tx ∷ out) ↦ tx ∷ out
]

pub split_txs : List ℕ → List (List ℕ)
unfolding try_prefixes
split_txs = try_prefixes (0 ∷ 4 ∷ 8 ∷ [])
