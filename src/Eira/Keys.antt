-- ===== src/Eira/Keys.antt =====
-- The block keys of src/eira.rs against those of src/nitro.rs: where the collector takes a block of
-- the one source for a block of the other.
use robinhood_feed_bench.Common.{
  ℕ, ◌<◌, ◌≡◌, ◌↔◌, ap, [], ◌∷◌, ◌++◌, drop, ltb, arith, inl, inr, Bool-cases,
}
use robinhood_feed_bench.Common.Texts.{Text, codes}
use robinhood_feed_bench.Common.Decimal.{decimal, decimal_inj}
use robinhood_feed_bench.Nitro.{key}
use robinhood_feed_bench.Eira.{Transaction, block_key}

first_code : Text → ℕ
first_code [] = 0
first_code (c ∷ cs) = c

-- The key of a transaction is the key of the Nitro block `seq` just when the transaction has a feed
-- sequence number and it is `seq`.
pub block_key-key :
    (tx : Transaction) (seq : ℕ)
    → (block_key tx ≡ key seq) ↔ ((0 < tx.feed_sequence) × (tx.feed_sequence ≡ seq))
unfolding block_key key first_code
block_key-key tx seq = elim (Bool-cases (ltb 0 tx.feed_sequence)) [
  | inl sequenced ↦ rw sequenced (
    λ e. (ground arith, decimal_inj tx.feed_sequence seq (ap (drop 4) e)),
    λ h. ap (λ n. codes "seq:" ++ decimal n) h.1,
  )
  | inr bare ↦ rw bare (λ e. absurd (omega (arith, ap first_code e)), λ h. absurd (ground arith))
]
