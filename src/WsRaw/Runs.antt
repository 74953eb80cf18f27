-- ===== src/WsRaw/Runs.antt =====
-- Runs of src/wsraw.rs on concrete frames, those of its unit test among them.
use robinhood_feed_bench.Common.{
  ℕ, ◌-◌, ◌^◌, ◌≡◌, refl, List, [], ◌∷◌, ◌++◌, map, Option, none, some, if◌then◌else◌, inl, inr,
  replicate, arith,
}
use robinhood_feed_bench.Common.Bytes.{to_be}
use robinhood_feed_bench.Common.Texts.{Text, text_eq, codes}
use robinhood_feed_bench.Event.{Hash}
use robinhood_feed_bench.WsJson.{Value, Items}
use robinhood_feed_bench.WsRaw.{
  get_from, get_to, rlp_item_len, tx_len, next_tx, split_run, split_txs,
}
use robinhood_feed_bench.WsRaw.Rlp.{SignedTx, typed, legacy, short, encode_tx, rlp_item_len_wraps}
use robinhood_feed_bench.WsRaw.Split.{framed, split_txs-framed}
use robinhood_feed_bench.WsRaw.Cover.{Covers, split_txs_cover}

abbrev type_two : SignedTx
type_two = typed 2 (short (replicate 9 1))

abbrev old_style : SignedTx
old_style = legacy (short (replicate 9 2))

abbrev two_txs : List SignedTx
two_txs = type_two ∷ old_style ∷ []

-- A run in a form that computes.
abbrev two_bare : List ℕ
two_bare = (2 ∷ 0xc9 ∷ replicate 9 1) ++ (0xc9 ∷ replicate 9 2)

two_split : split_txs two_bare ≡ (2 ∷ 0xc9 ∷ replicate 9 1) ∷ (0xc9 ∷ replicate 9 2) ∷ []
unfolding split_txs split_run next_tx get_from get_to tx_len rlp_item_len
two_split = refl

truncated : split_txs (2 ∷ 0xc9 ∷ 1 ∷ 2 ∷ []) ≡ []
unfolding split_txs split_run next_tx get_from get_to tx_len rlp_item_len
truncated = refl

split_txs-framed_example : split_txs (framed 4 (map encode_tx two_txs)) ≡ map encode_tx two_txs
unfolding encode_tx
split_txs-framed_example =
    split_txs-framed type_two (old_style ∷ []) (omega arith) 4 (inr (inl refl)) (omega arith)

split_txs_cover_example : Covers two_bare (split_txs two_bare)
split_txs_cover_example = split_txs_cover two_bare (omega arith) (λ e. cc two_split)

rlp_item_len_wraps_example : rlp_item_len (0xff ∷ (to_be 8 (2 ^ 64 - 1) ++ [])) ≡ some 8
rlp_item_len_wraps_example = rlp_item_len_wraps (2 ^ 64 - 1) [] (omega arith) (omega arith)

-- A list of two texts, of which one is no key.
abbrev listing : Value
listing =
    Value.array (
      Items.item (Value.string (codes "0x02c3")) (Items.item (Value.string (codes "no")) Items.end))

abbrev from_slice : List ℕ → Option Value
from_slice [] = none
from_slice (b ∷ bs) = some listing

abbrev hex_decode : Text → Option (List ℕ)
hex_decode t = if text_eq t (codes "02c3") then some (2 ∷ 0xc3 ∷ []) else none

abbrev keccak256 : List ℕ → Hash
keccak256 bytes = bytes

not_binary : split_txs (91 ∷ 93 ∷ []) ≡ []
unfolding split_txs split_run next_tx get_from get_to tx_len rlp_item_len
not_binary = refl
