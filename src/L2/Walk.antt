-- ===== src/L2/Walk.antt =====
-- `walk` of src/l2.rs on messages that follow the layout.
use mathlib.Core.List.{append-nil, append_assoc}
use mathlib.Core.Path.{ap₂}
use robinhood_feed_bench.Common.{
  ℕ, zero, suc, ◌+◌, ◌≤◌, ◌<◌, ◌≡◌, refl, ap, ◌∙◌, List, [], ◌∷◌, ◌++◌, length, take, drop,
  length-append, take-length_append, drop-length_append, arith, ◌⊎◌, inl,
}
use robinhood_feed_bench.Common.Bytes.{
  to_be, from_be, length-to_be, from_be-to_be, take-to_be, drop-to_be,
}
use robinhood_feed_bench.L2.{kind_batch, max_entry, entries, walk, signed_txs}
use robinhood_feed_bench.L2.Message.{
  Message, Messages, tx, batch, other, nil, cons, encode, encode_all, IsWf, AllWf, txs_of,
  all_txs_of,
}

pub entry_reads :
    (e rest : List ℕ)
    → length e ≤ max_entry
    → from_be (take 8 (to_be 8 (length e) ++ (e ++ rest))) ≡ length e
entry_reads e rest h =
    ap from_be (take-to_be 8 (length e) (e ++ rest)) ∙ from_be-to_be 8 (length e) (omega arith)

-- One round of the loop on a whole entry.
pub entries_step :
    (sub : List ℕ → List (List ℕ)) (fuel : ℕ) (e rest : List ℕ)
    → length e ≤ max_entry
    → entries sub (suc fuel) (to_be 8 (length e) ++ (e ++ rest)) ≡ sub e ++ entries sub fuel rest
unfolding entries
entries_step sub fuel e rest h =
    rw
      (
        entry_reads e rest h,
        drop-to_be 8 (length e) (e ++ rest),
        take-length_append e rest,
        drop-length_append e rest,
      )
      (ground (
        arith,
        length-append (to_be 8 (length e)) (e ++ rest),
        length-to_be 8 (length e),
        length-append e rest,
      ))

-- What follows the last whole entry ends the walk: fewer than eight bytes, or a length that is
-- over the limit or past the end.
abbrev pub IsCut : List ℕ → Type 0
IsCut tail =
    (length tail < 8)
    ⊎ (max_entry < from_be (take 8 tail))
    ⊎ (length (drop 8 tail) < from_be (take 8 tail))

entries-cut :
    (sub : List ℕ → List (List ℕ)) (fuel : ℕ) (tail : List ℕ)
    → IsCut tail
    → entries sub fuel tail ≡ []
unfolding entries
entries-cut sub zero tail h = refl
entries-cut sub (suc fuel) tail h = ground arith

length-entry :
    (m : Message) (ms : Messages) (tail : List ℕ)
    → length (encode_all (cons m ms) ++ tail)
      ≡ 8 + length (encode m) + length (encode_all ms ++ tail)
unfolding encode_all
length-entry m ms tail = omega (
  arith,
  length-append (to_be 8 (length (encode m)) ++ (encode m ++ encode_all ms)) tail,
  length-append (to_be 8 (length (encode m))) (encode m ++ encode_all ms),
  length-to_be 8 (length (encode m)),
  length-append (encode m) (encode_all ms),
  length-append (encode_all ms) tail,
)

entry_regroup :
    (m : Message) (ms : Messages) (tail : List ℕ)
    → encode_all (cons m ms) ++ tail
      ≡ to_be 8 (length (encode m)) ++ (encode m ++ (encode_all ms ++ tail))
unfolding encode_all
entry_regroup m ms tail = simp append_assoc

mutual
  unfolding walk encode txs_of

  walk-encode_each : (m : Message) (room : ℕ) → IsWf m → walk room (encode m) ≡ txs_of m room
  walk-encode_each (tx body) zero h = refl
  walk-encode_each (tx body) (suc room) h = refl
  walk-encode_each (batch ms) zero h = refl
  walk-encode_each (batch ms) (suc room) h = rw (append-nil (encode_all ms)) at (
      entries-encode_all ms room (length (encode_all ms)) [] h (inl (omega arith))
        (rw append-nil (omega arith)))
  walk-encode_each (other kind body) zero h = ground arith
  walk-encode_each (other kind body) (suc room) h = ground arith

  entries-encode_all :
      (ms : Messages) (room fuel : ℕ) (tail : List ℕ)
      → AllWf ms
      → IsCut tail
      → length (encode_all ms ++ tail) ≤ fuel
      → entries (walk room) fuel (encode_all ms ++ tail) ≡ all_txs_of ms room
  entries-encode_all nil room fuel tail h c f = entries-cut (walk room) fuel tail c
  entries-encode_all (cons m ms) room zero tail h c f =
      absurd (omega (arith, length-entry m ms tail))
  entries-encode_all (cons m ms) room (suc fuel) tail h c f =
      ap (entries (walk room) (suc fuel)) (entry_regroup m ms tail)
      ∙ entries_step (walk room) fuel (encode m) (encode_all ms ++ tail) h.1
      ∙ ap₂ ◌++◌ (walk-encode_each m room h.0)
          (entries-encode_all ms room fuel tail h.2 c (omega (arith, length-entry m ms tail)))

-- Reading a well-formed message written in the layout returns its signed transactions in order,
-- those of nested batches included down to the fifth level, and nothing else.
pub signed_txs-encode : (m : Message) → IsWf m → signed_txs (encode m) ≡ txs_of m 5
unfolding signed_txs
signed_txs-encode m h = walk-encode_each m 5 h

-- A truncated or oversized entry after whole ones ends the walk of a batch: the transactions of
-- the whole entries are returned, and no byte of the rest is.
pub signed_txs_cut :
    (ms : Messages) (tail : List ℕ)
    → AllWf ms
    → IsCut tail
    → signed_txs (kind_batch ∷ (encode_all ms ++ tail)) ≡ all_txs_of ms 4
unfolding signed_txs walk
signed_txs_cut ms tail h c =
    entries-encode_all ms 4 (length (encode_all ms ++ tail)) tail h c (omega arith)
