-- ===== src/WsRaw/Split.antt =====
-- `split_txs` of src/wsraw.rs on runs of transactions, with and without length prefixes.
use robinhood_feed_bench.Common.{
  ℕ, zero, suc, ◌+◌, ◌^◌, ◌≤◌, ◌<◌, ◌≡◌, refl, subst, sym, ◌∙◌, true, List, [], ◌∷◌, ◌++◌, map,
  none, some, ◌⊎◌, inl, inr, ◌>>=◌, length, take, drop, length-append, take-length_append,
  drop-length_append, All, arith,
}
use mathlib.Core.List.{append_assoc}
use robinhood_feed_bench.Common.Bytes.{to_be, length-to_be, take-to_be, drop-to_be}
use robinhood_feed_bench.WsRaw.{
  get_from, get_to, be, tx_len, next_tx, split_run, try_prefixes, split_txs, prefix_fits,
}
use robinhood_feed_bench.WsRaw.Rlp.{SignedTx, encode_tx, IsTx, tx_len-encode_tx, be-to_be}

-- A run of frames: every one behind its length in `prefix` bytes.
abbrev pub framed : ℕ → List (List ℕ) → List ℕ
framed prefix [] = []
framed prefix (e ∷ es) = to_be prefix (length e) ++ (e ++ framed prefix es)

-- A length that `prefix` bytes hold; no prefix holds any.
abbrev pub Holds : ℕ → ℕ → Type 0
Holds zero n = Unit
Holds (suc k) n = (suc k ≤ 8) × (n < 256 ^ suc k)

prefix_reads :
    (prefix n : ℕ) (rest : List ℕ)
    → Holds prefix n
    → prefix_fits prefix (be (take prefix (to_be prefix n ++ rest))) n ≡ true
prefix_reads zero n rest h = refl
prefix_reads (suc k) n rest h = ground (arith, take-to_be (suc k) n rest, be-to_be (suc k) n)

body_read : (prefix n : ℕ) (rest : List ℕ) → get_from prefix (to_be prefix n ++ rest) ≡ some rest
unfolding get_from
body_read prefix n rest =
    ground
      (arith, drop-to_be prefix n rest, length-append (to_be prefix n) rest, length-to_be prefix n)

tx_read : (e rest : List ℕ) → get_to (length e) (e ++ rest) ≡ some e
unfolding get_to
tx_read e rest = ground (arith, take-length_append e rest, length-append e rest)

next_tx-framed :
    (prefix : ℕ) (e rest : List ℕ)
    → tx_len (e ++ rest) ≡ some (length e)
    → 8 ≤ length e
    → Holds prefix (length e)
    → next_tx prefix (to_be prefix (length e) ++ (e ++ rest)) ≡ some (e, length e)
unfolding next_tx
next_tx-framed prefix e rest t long h = ground (
  arith,
  body_read prefix (length e) (e ++ rest),
  prefix_reads prefix (length e) (e ++ rest) h,
  tx_read e rest,
)

next_tx-nil : (prefix : ℕ) → next_tx prefix [] ≡ none
unfolding next_tx get_from tx_len
next_tx-nil zero = refl
next_tx-nil (suc k) = ground arith

pub split_run_step :
    (prefix fuel : ℕ) (rest tx : List ℕ) (n : ℕ)
    → next_tx prefix rest ≡ some (tx, n)
    → split_run prefix (suc fuel) rest
      ≡ (split_run prefix fuel (drop (prefix + n) rest) >>= λ out. some (tx ∷ out))
unfolding split_run
split_run_step prefix fuel [] tx n h = cc (next_tx-nil prefix)
split_run_step prefix fuel (b ∷ rest) tx n h = rw h

split_run_stops :
    (prefix fuel : ℕ) (rest : List ℕ)
    → 1 ≤ length rest
    → next_tx prefix rest ≡ none
    → split_run prefix fuel rest ≡ none
unfolding split_run
split_run_stops prefix fuel [] some_left h = absurd (omega arith)
split_run_stops prefix zero (b ∷ rest) some_left h = refl
split_run_stops prefix (suc fuel) (b ∷ rest) some_left h = rw h

drop-framed :
    (prefix : ℕ) (e rest : List ℕ)
    → drop (prefix + length e) (to_be prefix (length e) ++ (e ++ rest)) ≡ rest
drop-framed prefix e rest =
    let both = to_be prefix (length e) ++ e in
    let size : length both ≡ prefix + length e =
      omega (arith, length-append (to_be prefix (length e)) e, length-to_be prefix (length e)) in
    rw (← append_assoc (to_be prefix (length e)) e rest)
      (subst (λ k. drop k (both ++ rest) ≡ rest) size (drop-length_append both rest))

-- The transactions that a run may hold: encoded, of at least eight bytes, their length in reach.
abbrev pub Fits : ℕ → SignedTx → Type 0
Fits prefix t = IsTx t × (8 ≤ length (encode_tx t)) × Holds prefix (length (encode_tx t))

abbrev pub AllFit : ℕ → List SignedTx → Type 0
AllFit prefix = All (Fits prefix)

length-framed :
    (prefix : ℕ) (e : List ℕ) (es : List (List ℕ))
    → length (framed prefix (e ∷ es)) ≡ prefix + length e + length (framed prefix es)
length-framed prefix e es = omega (
  arith,
  length-append (to_be prefix (length e)) (e ++ framed prefix es),
  length-to_be prefix (length e),
  length-append e (framed prefix es),
)

split_run-framed :
    (prefix fuel : ℕ) (ts : List SignedTx)
    → AllFit prefix ts
    → length (framed prefix (map encode_tx ts)) ≤ fuel
    → split_run prefix fuel (framed prefix (map encode_tx ts)) ≡ some (map encode_tx ts)
split_run-framed prefix zero [] h f = unfold split_run in refl
split_run-framed prefix (suc fuel) [] h f = unfold split_run in refl
split_run-framed prefix zero (t ∷ ts) h f =
    absurd (omega (arith, length-framed prefix (encode_tx t) (map encode_tx ts)))
split_run-framed prefix (suc fuel) (t ∷ ts) h f =
    let e = encode_tx t in
    let later = framed prefix (map encode_tx ts) in
    split_run_step prefix fuel _ e (length e)
      (next_tx-framed prefix e later (tx_len-encode_tx t later h.0.0) h.0.1 h.0.2)
    ∙ rw (
      drop-framed prefix e later,
      split_run-framed prefix fuel ts h.1
          (omega (arith, length-framed prefix e (map encode_tx ts))),
    )

-- A length prefix of a frame under 12 MiB starts with a zero byte and one below 0xc0, which
-- start no transaction.
no_tx_AtPrefix :
    (n : ℕ) (rest : List ℕ)
    → n < 0xc0_0000
    → (next_tx 0 (to_be 4 n ++ rest) ≡ none)
      × (next_tx 0 (to_be 8 n ++ rest) ≡ none)
      × (next_tx 4 (to_be 8 n ++ rest) ≡ none)
unfolding to_be next_tx get_from tx_len
no_tx_AtPrefix n rest h = (ground arith, ground arith, ground arith)

-- The lengths of a frame's prefixes as the adapter knows them.
abbrev pub IsPrefixLen : ℕ → Type 0
IsPrefixLen prefix = (prefix ≡ 0) ⊎ (prefix ≡ 4) ⊎ (prefix ≡ 8)

module _ (prefix : ℕ) (more : List ℕ) (frame : List ℕ) where
  pub try_hit :
      (tx : List ℕ) (out : List (List ℕ))
      → split_run prefix (length frame) frame ≡ some (tx ∷ out)
      → try_prefixes (prefix ∷ more) frame ≡ tx ∷ out
  unfolding try_prefixes
  try_hit tx out h = ground arith

  pub try_miss :
      (split_run prefix (length frame) frame ≡ none)
        ⊎ (split_run prefix (length frame) frame ≡ some [])
      → try_prefixes (prefix ∷ more) frame ≡ try_prefixes more frame
  unfolding try_prefixes
  try_miss (inl h) = ground arith
  try_miss (inr h) = ground arith

module _ (t : SignedTx) (ts : List SignedTx) (small : length (encode_tx t) < 0xc0_0000) where
  abbrev run : List (List ℕ)
  run = map encode_tx (t ∷ ts)

  whole_run :
      (prefix : ℕ)
      → AllFit prefix (t ∷ ts)
      → split_run prefix (length (framed prefix run)) (framed prefix run) ≡ some run
  whole_run prefix h = split_run-framed prefix (length (framed prefix run)) (t ∷ ts) h (omega arith)

  no_run :
      (shorter prefix : ℕ)
      → next_tx shorter (framed prefix run) ≡ none
      → 1 ≤ prefix
      → split_run shorter (length (framed prefix run)) (framed prefix run) ≡ none
  no_run shorter prefix h k =
      split_run_stops shorter _ (framed prefix run)
        (omega (arith, length-framed prefix (encode_tx t) (map encode_tx ts))) h

  AtPrefix : ℕ → Type 0
  AtPrefix prefix = AllFit prefix (t ∷ ts) → split_txs (framed prefix run) ≡ run

  at_zero : AtPrefix 0
  unfolding AtPrefix split_txs
  at_zero h = try_hit 0 (4 ∷ 8 ∷ []) _ _ _ (whole_run 0 h)

  at_four : AtPrefix 4
  unfolding AtPrefix split_txs
  at_four h =
      let (zero_four, _, _) =
        no_tx_AtPrefix (length (encode_tx t)) (encode_tx t ++ framed 4 (map encode_tx ts)) small in
      try_miss 0 (4 ∷ 8 ∷ []) _ (inl (no_run 0 4 zero_four (omega arith)))
      ∙ try_hit 4 (8 ∷ []) _ _ _ (whole_run 4 h)

  at_eight : AtPrefix 8
  unfolding AtPrefix split_txs
  at_eight h =
      let (_, zero_eight, four_eight) =
        no_tx_AtPrefix (length (encode_tx t)) (encode_tx t ++ framed 8 (map encode_tx ts)) small in
      try_miss 0 (4 ∷ 8 ∷ []) _ (inl (no_run 0 8 zero_eight (omega arith)))
      ∙ try_miss 4 (8 ∷ []) _ (inl (no_run 4 8 four_eight (omega arith)))
      ∙ try_hit 8 [] _ _ _ (whole_run 8 h)

  -- A frame that is a run of encoded transactions of at least eight bytes, the first under 12 MiB,
  -- bare or each behind its length in four or in eight bytes, is split into just these.
  pub split_txs-framed :
      (prefix : ℕ)
      → IsPrefixLen prefix
      → AllFit prefix (t ∷ ts)
      → split_txs (framed prefix run) ≡ run
  unfolding AtPrefix
  split_txs-framed prefix (inl p) = subst AtPrefix (sym p) at_zero
  split_txs-framed prefix (inr (inl p)) = subst AtPrefix (sym p) at_four
  split_txs-framed prefix (inr (inr p)) = subst AtPrefix (sym p) at_eight
