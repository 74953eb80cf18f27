-- ===== src/WsRaw/Cover.antt =====
-- What `split_txs` of src/wsraw.rs returns on any frame covers the frame.
use mathlib.Core.Path.{ap₂}
use robinhood_feed_bench.Common.{
  ℕ, zero, suc, ◌+◌, ◌≤◌, ◌≡◌, ◌≢◌, refl, ap, sym, subst, ◌∙◌, true, List, [], ◌∷◌, ◌++◌, Option,
  none, some, ◌⊎◌, inl, inr, length, take, drop, take-append-drop, drop-drop, length-take, All,
  arith, >>=-eq-some,
}
use robinhood_feed_bench.Common.Bytes.{IsBytes, to_be, from_be, to_be-be_from}
use robinhood_feed_bench.WsRaw.{
  get_from, get_to, be, next_tx, split_run, try_prefixes, split_txs, prefix_fits,
}
use robinhood_feed_bench.WsRaw.Rlp.{be-from_be}
use robinhood_feed_bench.WsRaw.Split.{framed, IsPrefixLen, try_hit, try_miss}

next_tx_parts :
    (prefix : ℕ) (rest tx : List ℕ) (n : ℕ)
    → next_tx prefix rest ≡ some (tx, n)
    → (prefix ≤ length rest)
      × (n ≤ length (drop prefix rest))
      × (tx ≡ take n (drop prefix rest))
      × (8 ≤ n)
      × (prefix_fits prefix (be (take prefix rest)) n ≡ true)
unfolding next_tx get_from get_to
next_tx_parts prefix rest tx n h = ground arith

take-IsBytes : (n : ℕ) (xs : List ℕ) → IsBytes xs → IsBytes (take n xs)
take-IsBytes zero xs h = tt
take-IsBytes (suc n) [] h = tt
take-IsBytes (suc n) (x ∷ xs) h = (h.0, take-IsBytes n xs h.1)

drop-IsBytes : (n : ℕ) (xs : List ℕ) → IsBytes xs → IsBytes (drop n xs)
drop-IsBytes zero xs h = h
drop-IsBytes (suc n) [] h = tt
drop-IsBytes (suc n) (x ∷ xs) h = drop-IsBytes n xs h.1

-- The prefix holds the length that `tx_len` found.
prefix_bytes :
    (prefix n : ℕ) (b : List ℕ)
    → prefix ≤ 8
    → IsBytes b
    → length b ≡ prefix
    → prefix_fits prefix (be b) n ≡ true
    → to_be prefix n ≡ b
prefix_bytes zero n [] hi h e f = unfold to_be in refl
prefix_bytes zero n (x ∷ b) hi h e f = absurd (omega arith)
prefix_bytes (suc k) n b hi h e f =
    let said = be-from_be b h (omega arith) (omega arith) in
    let same : n ≡ from_be b = ground arith in
    subst (λ w. to_be w n ≡ b) e (rw same (unfold from_be in to_be-be_from 0 b h))

next_tx_cover :
    (prefix : ℕ) (rest tx : List ℕ) (n : ℕ)
    → prefix ≤ 8
    → IsBytes rest
    → next_tx prefix rest ≡ some (tx, n)
    → (to_be prefix (length tx) ++ (tx ++ drop (prefix + n) rest) ≡ rest) × (8 ≤ length tx)
next_tx_cover prefix rest tx n hi bytes h =
    let (fits, whole, is_tx, long, said) = next_tx_parts prefix rest tx n h in
    let size : length tx ≡ n = omega (arith, ap length is_tx, length-take n (drop prefix rest)) in
    let front =
      prefix_bytes prefix n (take prefix rest) hi (take-IsBytes prefix rest bytes)
        (omega (arith, length-take prefix rest)) said in
    (
      ap₂ ◌++◌ (ap (to_be prefix) size ∙ front)
            (ap₂ ◌++◌ is_tx (sym (drop-drop n prefix rest)) ∙ take-append-drop n (drop prefix rest))
          ∙ take-append-drop prefix rest,
      omega arith,
    )

abbrev pub AllLong : List (List ℕ) → Type 0
AllLong = All (λ tx. 8 ≤ length tx)

split_run-nil : (prefix fuel : ℕ) → split_run prefix fuel [] ≡ some []
unfolding split_run
split_run-nil prefix zero = refl
split_run-nil prefix (suc fuel) = refl

-- A round that the run got past.
split_run_parts :
    (prefix fuel b : ℕ) (rest : List ℕ) (out : List (List ℕ))
    → split_run prefix (suc fuel) (b ∷ rest) ≡ some out
    → (round : List ℕ × ℕ) × (more : List (List ℕ)) × (next_tx prefix (b ∷ rest) ≡ some round)
      × (split_run prefix fuel (drop (prefix + round.1) (b ∷ rest)) ≡ some more)
      × (out ≡ round.0 ∷ more)
unfolding split_run
split_run_parts prefix fuel b rest out h =
    let ((tx, n), found, later) = >>=-eq-some (next_tx prefix (b ∷ rest)) _ h in
    let (more, ran, joined) =
      >>=-eq-some (split_run prefix fuel (drop (prefix + n) (b ∷ rest))) _ later in
    ((tx, n), more, found, ran, cc)

split_run_cover :
    (prefix fuel : ℕ) (rest : List ℕ) (out : List (List ℕ))
    → prefix ≤ 8
    → IsBytes rest
    → split_run prefix fuel rest ≡ some out
    → (framed prefix out ≡ rest) × AllLong out
split_run_cover prefix fuel [] out hi bytes h =
    let e : out ≡ [] = cc (split_run-nil prefix fuel) in rw e (refl, tt)
split_run_cover prefix zero (b ∷ rest) out hi bytes h = unfold split_run in cc
split_run_cover prefix (suc fuel) (b ∷ rest) out hi bytes h =
    let (round, more, found, ran, joined) = split_run_parts prefix fuel b rest out h in
    let (front, long) = next_tx_cover prefix (b ∷ rest) round.0 round.1 hi bytes found in
    let (later, longer) =
      split_run_cover prefix fuel (drop (prefix + round.1) (b ∷ rest)) more hi
        (drop-IsBytes (prefix + round.1) (b ∷ rest) bytes) ran in
    rw joined (rw later front, (long, longer))

-- What the caller may conclude from the pieces.
abbrev pub Covers : List ℕ → List (List ℕ) → Type 0
Covers frame out = (prefix : ℕ) × IsPrefixLen prefix × (framed prefix out ≡ frame) × AllLong out

Run-cases :
    (r : Option (List (List ℕ)))
    → ((r ≡ none) ⊎ (r ≡ some [])) ⊎ ((tx : List ℕ) × (out : List (List ℕ)) × (r ≡ some (tx ∷ out)))
Run-cases none = inl (inl refl)
Run-cases (some []) = inl (inr refl)
Run-cases (some (tx ∷ out)) = inr (tx, out, refl)

try_prefixes_cover :
    (prefixes frame : List ℕ)
    → All (λ p. (p ≤ 8) × IsPrefixLen p) prefixes
    → IsBytes frame
    → try_prefixes prefixes frame ≢ []
    → Covers frame (try_prefixes prefixes frame)
try_prefixes_cover [] frame hp bytes h = unfold try_prefixes in absurd (h refl)
try_prefixes_cover (p ∷ more) frame hp bytes h =
    elim (Run-cases (split_run p (length frame) frame)) [
      | inl e ↦
          let skip = try_miss p more frame e in
          subst (Covers frame) (sym skip)
            (try_prefixes_cover more frame hp.1 bytes (λ q. h (skip ∙ q)))
      | inr (tx, out, e) ↦ subst (Covers frame) (sym (try_hit p more frame tx out e)) (
          let (front, long) = split_run_cover p (length frame) frame (tx ∷ out) hp.0.0 bytes e in
          (p, hp.0.1, front, long))
    ]

-- Whatever `split_txs` returns, if anything, is the whole frame cut into pieces of at least eight
-- bytes, with the same kind of length prefix in front of each: no byte is lost or taken twice.
pub split_txs_cover :
    (frame : List ℕ) → IsBytes frame → split_txs frame ≢ [] → Covers frame (split_txs frame)
unfolding split_txs
split_txs_cover frame bytes h =
    try_prefixes_cover (0 ∷ 4 ∷ 8 ∷ []) frame
      (
        (omega arith, inl refl),
        ((omega arith, inr (inl refl)), ((omega arith, inr (inr refl)), tt)),
      )
      bytes h
