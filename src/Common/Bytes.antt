-- ===== src/Common/Bytes.antt =====
-- Bytes and big-endian numbers: `u64::from_be_bytes` and `to_be_bytes` of the standard library.
use Prim.Native.Nat.{ℕ, zero, suc, ◌+◌, ◌*◌, ◌/◌, ◌%◌, ◌^◌, ◌<◌}
use mathlib.Core.Path.{◌≡◌, refl, ap, ap₂, ◌∙◌, subst}
use mathlib.Core.List.{List, [], ◌∷◌, ◌++◌}
use native.Mathlib.Omega.{arith}
use native.Mathlib.Nat.{
  pow-suc, mul-le-mul_right, div-div-eq-div-mul, mul_comm, mul-add-div_right, div-eq_of_lt,
}
use robinhood_feed_bench.Common.Lists.{
  length, length-append, All, take, drop, take-length_append, drop-length_append,
}

abbrev pub IsByte : ℕ → Type 0
IsByte b = b < 256

abbrev pub IsBytes : List ℕ → Type 0
IsBytes = All IsByte

-- The number read so far, with the bytes that follow.
unfoldable pub be_from : ℕ → List ℕ → ℕ
be_from acc [] = acc
be_from acc (x ∷ xs) = be_from (acc * 256 + x) xs

unfoldable pub from_be : List ℕ → ℕ
unfolding be_from
from_be = be_from 0

-- The last `w` bytes of `n`, most significant first.
unfoldable pub to_be : ℕ → ℕ → List ℕ
to_be zero n = []
to_be (suc w) n = to_be w (n / 256) ++ (n % 256 ∷ [])

pub length-to_be : (w n : ℕ) → length (to_be w n) ≡ w
unfolding to_be
length-to_be zero n = refl
length-to_be (suc w) n =
    omega (arith, length-append (to_be w (n / 256)) (n % 256 ∷ []), length-to_be w (n / 256))

pub IsBytes-append : (xs ys : List ℕ) → IsBytes xs → IsBytes ys → IsBytes (xs ++ ys)
IsBytes-append [] ys hx hy = hy
IsBytes-append (x ∷ xs) ys hx hy = (hx.0, IsBytes-append xs ys hx.1 hy)

pub to_be-IsBytes : (w n : ℕ) → IsBytes (to_be w n)
unfolding to_be
to_be-IsBytes zero n = tt
to_be-IsBytes (suc w) n =
    IsBytes-append (to_be w (n / 256)) (n % 256 ∷ []) (to_be-IsBytes w (n / 256)) (omega arith)

be_from-append : (acc : ℕ) (xs ys : List ℕ) → be_from acc (xs ++ ys) ≡ be_from (be_from acc xs) ys
unfolding be_from
be_from-append acc [] ys = refl
be_from-append acc (x ∷ xs) ys = be_from-append (acc * 256 + x) xs ys

-- Reading back a number that fits its width.
pub from_be-to_be : (w n : ℕ) → n < 256 ^ w → from_be (to_be w n) ≡ n
unfolding from_be to_be
from_be-to_be zero n h = omega arith
from_be-to_be (suc w) n h =
    be_from-append 0 (to_be w (n / 256)) (n % 256 ∷ [])
    ∙ unfold be_from in omega (arith, from_be-to_be w (n / 256) (grind (arith, pow-suc 256 w)))

pub take-to_be : (w n : ℕ) (ys : List ℕ) → take w (to_be w n ++ ys) ≡ to_be w n
take-to_be w n ys =
    subst (λ k. take k (to_be w n ++ ys) ≡ to_be w n) (length-to_be w n)
      (take-length_append (to_be w n) ys)

pub drop-to_be : (w n : ℕ) (ys : List ℕ) → drop w (to_be w n ++ ys) ≡ ys
drop-to_be w n ys =
    subst (λ k. drop k (to_be w n ++ ys) ≡ ys) (length-to_be w n)
      (drop-length_append (to_be w n) ys)

pub be_from-eq : (acc : ℕ) (xs : List ℕ) → be_from acc xs ≡ acc * 256 ^ length xs + from_be xs
unfolding be_from from_be
be_from-eq acc [] = omega arith
be_from-eq acc (x ∷ xs) =
    be_from-eq (acc * 256 + x) xs
    ∙ omega (arith, be_from-eq (0 * 256 + x) xs, ap (λ (t : ℕ). acc * t) (pow-suc 256 (length xs)))

from_be-cons : (x : ℕ) (xs : List ℕ) → from_be (x ∷ xs) ≡ x * 256 ^ length xs + from_be xs
unfolding from_be be_from
from_be-cons x xs = be_from-eq (0 * 256 + x) xs ∙ omega arith

pub from_be-lt : (xs : List ℕ) → IsBytes xs → from_be xs < 256 ^ length xs
from_be-lt [] h = unfold from_be be_from in omega arith
from_be-lt (x ∷ xs) h = omega (
  arith,
  from_be-cons x xs,
  from_be-lt xs h.1,
  pow-suc 256 (length xs),
  mul-le-mul_right {m = x} {n = 255} (256 ^ length xs) (omega arith),
)

-- The first byte of a number in `w + 1` bytes.
to_be-suc : (w n : ℕ) → to_be (suc w) n ≡ (n / 256 ^ w % 256) ∷ to_be w n
unfolding to_be
to_be-suc zero n = ap (λ t. t % 256 ∷ []) (omega arith)
to_be-suc (suc w) n = rw (
  to_be-suc w (n / 256),
  div-div-eq-div-mul n 256 (256 ^ w),
  mul_comm 256 (256 ^ w),
  pow-suc 256 w,
)

top_byte : (a x p r : ℕ) → x < 256 → r < p → ((a * 256 + x) * p + r) / p % 256 ≡ x
top_byte a x p r hx hr =
    rw (mul-add-div_right {m = p} (omega arith) (a * 256 + x) r, div-eq_of_lt hr) (omega arith)

-- The bytes that a number of their width was read from.
pub to_be-be_from : (acc : ℕ) (xs : List ℕ) → IsBytes xs → to_be (length xs) (be_from acc xs) ≡ xs
unfolding be_from
to_be-be_from acc [] h = unfold to_be in refl
to_be-be_from acc (x ∷ xs) h =
    to_be-suc (length xs) (be_from (acc * 256 + x) xs)
    ∙ ap₂ ◌∷◌
        (rw (be_from-eq (acc * 256 + x) xs)
          (top_byte acc x (256 ^ length xs) (from_be xs) h.0 (from_be-lt xs h.1)))
        (to_be-be_from (acc * 256 + x) xs h.1)
