-- ===== src/WsRaw/Rlp.antt =====
-- `be`, `rlp_item_len` and `tx_len` of src/wsraw.rs on encoded transactions.
use Prim.Native.Nat.{bit_or}
use mathlib.Core.List.{append_assoc}
use native.Mathlib.Nat.{pow-suc, one-le-pow, pow-le-pow_right}
use robinhood_feed_bench.Common.{
  ℕ, ◌+◌, ◌-◌, ◌*◌, ◌%◌, ◌^◌, ◌≤◌, ◌<◌, ◌≡◌, refl, ap, ◌∙◌, List, [], ◌∷◌, ◌++◌, some, length,
  length-append, arith,
}
use robinhood_feed_bench.Common.Bits.{bit_or_field}
use robinhood_feed_bench.Common.Bytes.{
  IsBytes, be_from, from_be, to_be, length-to_be, to_be-IsBytes, from_be-to_be, take-to_be,
}
use robinhood_feed_bench.WsRaw.{
  usize_mod, get_behind_first, be_fold, be, long_len, rlp_item_len, tx_len,
}

shift_byte :
    (acc x : ℕ) → acc * 256 < usize_mod → x < 256 → bit_or (acc * 256 % usize_mod) x ≡ acc * 256 + x
shift_byte acc x h k = ground (arith, bit_or_field 8 acc x)

-- Room for `k + 1` more bytes is room for this one and `k` more.
room_for_byte :
    (acc x p m : ℕ)
    → x < 256
    → 1 ≤ p
    → (acc + 1) * (p * 256) ≤ m
    → (acc * 256 < m) × ((acc * 256 + x + 1) * p ≤ m)
room_for_byte acc x p m hx hp h = (grind arith, grind arith)

be_fold-be_from :
    (acc : ℕ) (xs : List ℕ)
    → IsBytes xs
    → (acc + 1) * 256 ^ length xs ≤ usize_mod
    → be_fold acc xs ≡ be_from acc xs
unfolding be_fold be_from
be_fold-be_from acc [] b h = refl
be_fold-be_from acc (x ∷ xs) b h =
    let (fits, room) =
      room_for_byte acc x (256 ^ length xs) usize_mod b.0 (one-le-pow (length xs) 256 (omega arith))
        (rw (← pow-suc 256 (length xs)) h) in
    ap (λ t. be_fold t xs) (shift_byte acc x fits b.0) ∙ be_fold-be_from (acc * 256 + x) xs b.1 room

-- On one to eight bytes `be` is their big-endian number: no shift loses a bit.
pub be-from_be : (b : List ℕ) → IsBytes b → 1 ≤ length b → length b ≤ 8 → be b ≡ some (from_be b)
unfolding be from_be
be-from_be b bytes lo hi =
    ground (
      arith,
      be_fold-be_from 0 b bytes (omega (arith, pow-le-pow_right {n = 256} (omega arith) hi)),
    )

-- An RLP list: a header of one byte, or of one byte and `ll` bytes of length, and the payload.
pub data RlpList : Type 0 where
  short : List ℕ → RlpList
  long : ℕ → List ℕ → RlpList

unfoldable pub encode_list : RlpList → List ℕ
encode_list (short payload) = (0xc0 + length payload) ∷ payload
encode_list (long ll payload) = (0xf7 + ll) ∷ (to_be ll (length payload) ++ payload)

abbrev pub IsList : RlpList → Type 0
IsList (short payload) = length payload ≤ 55
IsList (long ll payload) =
    (1 ≤ ll) × (ll ≤ 8) × (length payload < 256 ^ ll) × (length payload + 10 < usize_mod)

-- A signed transaction: a type byte and a list, or a list alone.
pub data SignedTx : Type 0 where
  typed : ℕ → RlpList → SignedTx
  legacy : RlpList → SignedTx

unfoldable pub encode_tx : SignedTx → List ℕ
unfolding encode_list
encode_tx (typed type l) = type ∷ encode_list l
encode_tx (legacy l) = encode_list l

abbrev pub IsTx : SignedTx → Type 0
IsTx (typed type l) = (type < 0x80) × IsList l
IsTx (legacy l) = IsList l

digits_read :
    (head ll n : ℕ) (rest : List ℕ)
    → get_behind_first ll (head ∷ (to_be ll n ++ rest)) ≡ some (to_be ll n)
unfolding get_behind_first
digits_read head ll n rest =
    ground (arith, take-to_be ll n rest, length-append (to_be ll n) rest, length-to_be ll n)

pub be-to_be : (ll n : ℕ) → 1 ≤ ll → ll ≤ 8 → n < 256 ^ ll → be (to_be ll n) ≡ some n
be-to_be ll n lo hi fits =
    be-from_be (to_be ll n) (to_be-IsBytes ll n) (omega (arith, length-to_be ll n))
      (omega (arith, length-to_be ll n))
    ∙ ap some (from_be-to_be ll n fits)

long_len-to_be :
    (head ll : ℕ) (payload rest : List ℕ)
    → IsList (long ll payload)
    → long_len ll (head ∷ ((to_be ll (length payload) ++ payload) ++ rest))
      ≡ some (1 + ll + length payload)
unfolding long_len
long_len-to_be head ll payload rest (lo, hi, fits, small) = ground (
  arith,
  append_assoc (to_be ll (length payload)) payload rest,
  digits_read head ll (length payload) (payload ++ rest),
  be-to_be ll (length payload),
)

length-encode_list :
    (ll : ℕ) (payload : List ℕ) → length (encode_list (long ll payload)) ≡ 1 + ll + length payload
unfolding encode_list
length-encode_list ll payload =
    omega
      (arith, length-append (to_be ll (length payload)) payload, length-to_be ll (length payload))

rlp_item_len-encode_list :
    (l : RlpList) (rest : List ℕ)
    → IsList l
    → rlp_item_len (encode_list l ++ rest) ≡ some (length (encode_list l))
unfolding rlp_item_len encode_list
rlp_item_len-encode_list (short payload) rest h = ground arith
rlp_item_len-encode_list (long ll payload) rest h =
    let e : 247 + ll - 247 ≡ ll = omega arith in
    rw e
      (ground (arith, long_len-to_be (247 + ll) ll payload rest h, length-encode_list ll payload))

-- `tx_len` finds the length of the encoding of a well-formed transaction, whatever follows it.
pub tx_len-encode_tx :
    (t : SignedTx) (rest : List ℕ)
    → IsTx t
    → tx_len (encode_tx t ++ rest) ≡ some (length (encode_tx t))
unfolding tx_len encode_tx
tx_len-encode_tx (typed type (short payload)) rest h =
    ground (arith, rlp_item_len-encode_list (short payload) rest h.1)
tx_len-encode_tx (typed type (long ll payload)) rest h =
    ground
      (arith, rlp_item_len-encode_list (long ll payload) rest h.1, length-encode_list ll payload)
tx_len-encode_tx (legacy (short payload)) rest h =
    ground (arith, rlp_item_len-encode_list (short payload) rest h)
tx_len-encode_tx (legacy (long ll payload)) rest h =
    ground (arith, rlp_item_len-encode_list (long ll payload) rest h)

-- The sum `1 + ll + be(..)` is not checked: a header of eight length bytes whose value is within
-- nine of 2 ^ 64 gives a length from 0 to 8.
pub rlp_item_len_wraps :
    (v : ℕ) (rest : List ℕ)
    → usize_mod ≤ v + 9
    → v < usize_mod
    → rlp_item_len (0xff ∷ (to_be 8 v ++ rest)) ≡ some (v + 9 - usize_mod)
unfolding rlp_item_len
rlp_item_len_wraps v rest lo hi = ground (arith, digits_read 0xff 8 v rest, be-to_be 8 v)
