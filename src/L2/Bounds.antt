-- ===== src/L2/Bounds.antt =====
-- `walk` of src/l2.rs on any bytes at all.
use robinhood_feed_bench.Common.{
  ℕ, zero, suc, ◌+◌, ◌≤◌, ◌<◌, ◌≡◌, refl, List, [], ◌∷◌, ◌++◌, length, take, drop, length-take,
  length-drop, All, arith,
}
use robinhood_feed_bench.Common.Bytes.{from_be}
use robinhood_feed_bench.L2.{entries, signed_tx, walk, signed_txs}

abbrev pub total : List (List ℕ) → ℕ
total [] = 0
total (t ∷ ts) = length t + total ts

pub total-append : (xs ys : List (List ℕ)) → total (xs ++ ys) ≡ total xs + total ys
total-append [] ys = omega arith
total-append (x ∷ xs) ys = omega (arith, total-append xs ys)

abbrev pub AllTxs : List (List ℕ) → Type 0
AllTxs = All (λ t. 0 < length t)

AllTxs-append : (xs ys : List (List ℕ)) → AllTxs xs → AllTxs ys → AllTxs (xs ++ ys)
AllTxs-append [] ys hx hy = hy
AllTxs-append (x ∷ xs) ys hx hy = (hx.0, AllTxs-append xs ys hx.1 hy)

-- What a reader of part of the input may return.
abbrev pub Within : List ℕ → List (List ℕ) → Type 0
Within l2 ts = AllTxs ts × (total ts ≤ length l2)

signed_tx-Within : (rest : List ℕ) → Within rest (signed_tx rest)
unfolding signed_tx
signed_tx-Within [] = omega arith
signed_tx-Within (x ∷ tx) = omega arith

module _ (sub : List ℕ → List (List ℕ)) (sub_within : (l2 : List ℕ) → Within l2 (sub l2)) where
  Within-join :
      (n : ℕ) (rest : List ℕ) (more : List (List ℕ))
      → Within (drop n (drop 8 rest)) more
      → Within rest (sub (take n (drop 8 rest)) ++ more)
  Within-join n rest more (nonempty, small) = (
    AllTxs-append _ more (sub_within (take n (drop 8 rest))).0 nonempty,
    omega (
      arith,
      total-append (sub (take n (drop 8 rest))) more,
      (sub_within (take n (drop 8 rest))).1,
      length-take n (drop 8 rest),
      length-drop n (drop 8 rest),
      length-drop 8 rest,
    ),
  )

  entries-Within : (fuel : ℕ) (rest : List ℕ) → Within rest (entries sub fuel rest)
  unfolding entries
  entries-Within zero rest = omega arith
  entries-Within (suc fuel) rest =
      let n = from_be (take 8 rest) in
      let later = Within-join n rest _ (entries-Within fuel (drop n (drop 8 rest))) in ground arith

walk-Within : (room : ℕ) (l2 : List ℕ) → Within l2 (walk room l2)
unfolding walk
walk-Within room [] = omega arith
walk-Within zero (kind ∷ rest) = ground (arith, signed_tx-Within rest)
walk-Within (suc room) (kind ∷ rest) =
    ground (
      arith,
      signed_tx-Within rest,
      entries-Within (walk room) (walk-Within room) (length rest) rest,
    )

-- On any bytes, every transaction returned is non-empty, and together they are no longer than
-- the message.
pub signed_txs-Within : (l2 : List ℕ) → Within l2 (signed_txs l2)
unfolding signed_txs
signed_txs-Within = walk-Within 5

-- The loop of a batch ends by its own tests: any two amounts of fuel that reach the number of
-- bytes left give the same answer.
pub entries_enough :
    (sub : List ℕ → List (List ℕ)) (fuel more : ℕ) (rest : List ℕ)
    → length rest ≤ fuel
    → length rest ≤ more
    → entries sub fuel rest ≡ entries sub more rest
unfolding entries
entries_enough sub zero zero rest h k = refl
entries_enough sub zero (suc more) rest h k = ground arith
entries_enough sub (suc fuel) zero rest h k = ground arith
entries_enough sub (suc fuel) (suc more) rest h k =
    let n = from_be (take 8 rest) in
    ground (
      arith,
      entries_enough sub fuel more (drop n (drop 8 rest)),
      length-drop n (drop 8 rest),
      length-drop 8 rest,
    )
