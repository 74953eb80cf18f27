-- ===== src/Common/Parse.antt =====
-- `str::parse` of an unsigned number, whose type has the numbers below `bound`.
use Prim.Native.Nat.{ℕ, zero, suc, ◌+◌, ◌/◌, ◌%◌, ◌<◌}
use mathlib.Core.Bool.{Bool, true, ◌&&◌}
use mathlib.Core.Logic.{◌≢◌}
use mathlib.Core.List.{[], ◌∷◌, ◌++◌}
use mathlib.Core.Option.{Option, none, some}
use mathlib.Core.Path.{◌≡◌, refl}
use native.Mathlib.Omega.{arith}
use robinhood_feed_bench.Common.Tests.{ltb, leb, ◌==◌, if◌then◌else◌}
use robinhood_feed_bench.Common.Texts.{Text}
use robinhood_feed_bench.Common.Decimal.{digits, decimal, read_from, read_from-decimal}

abbrev pub is_digit : ℕ → Bool
is_digit c = leb b'0' c && leb c b'9'

abbrev pub all_digits : Text → Bool
all_digits [] = true
all_digits (c ∷ cs) = is_digit c && all_digits cs

-- A single sign is no number.
abbrev pub strip_plus : Text → Text
strip_plus [] = []
strip_plus (c ∷ []) = c ∷ []
strip_plus (c ∷ d ∷ ds) = if c == b'+' then d ∷ ds else c ∷ d ∷ ds

abbrev read_digits : ℕ → Text → Option ℕ
read_digits bound [] = none
read_digits bound (c ∷ cs) =
    if all_digits (c ∷ cs) && ltb (read_from 0 (c ∷ cs)) bound
    then some (read_from 0 (c ∷ cs))
    else none

unfoldable pub parse_unsigned : ℕ → Text → Option ℕ
parse_unsigned bound text = read_digits bound (strip_plus text)

all_digits-append :
    (s t : Text) → all_digits s ≡ true → all_digits t ≡ true → all_digits (s ++ t) ≡ true
all_digits-append [] t hs ht = ht
all_digits-append (c ∷ s) t hs ht = ground (arith, all_digits-append s t)

all_digits-digits : (fuel n : ℕ) → all_digits (digits fuel n) ≡ true
unfolding digits
all_digits-digits zero n = ground arith
all_digits-digits (suc fuel) n = ground (
  arith,
  all_digits-digits fuel (n / 10),
  all_digits-append (digits fuel (n / 10)) ((b'0' + n % 10) ∷ []),
)

pub all_digits-decimal : (n : ℕ) → all_digits (decimal n) ≡ true
unfolding decimal
all_digits-decimal n = all_digits-digits n n

read_digits-plain :
    (bound n : ℕ) (t : Text)
    → all_digits t ≡ true
    → read_from 0 t ≡ n
    → n < bound
    → t ≢ []
    → read_digits bound (strip_plus t) ≡ some n
read_digits-plain bound n [] digit read lt some_digit = absurd (some_digit refl)
read_digits-plain bound n (c ∷ []) digit read lt some_digit = ground arith
read_digits-plain bound n (c ∷ d ∷ ds) digit read lt some_digit = ground arith

append-some : (s : Text) (c : ℕ) → s ++ (c ∷ []) ≢ []
append-some [] c e = cc
append-some (d ∷ s) c e = cc

digits-some : (fuel n : ℕ) → digits fuel n ≢ []
unfolding digits
digits-some zero n e = cc
digits-some (suc fuel) n e = ground (arith, append-some (digits fuel (n / 10)) (b'0' + n % 10))

pub decimal-some : (n : ℕ) → decimal n ≢ []
unfolding decimal
decimal-some n = digits-some n n

-- What `to_string` writes is read back.
pub parse_unsigned-decimal : (bound n : ℕ) → n < bound → parse_unsigned bound (decimal n) ≡ some n
unfolding parse_unsigned
parse_unsigned-decimal bound n lt =
    read_digits-plain bound n (decimal n) (all_digits-decimal n) (read_from-decimal n) lt
      (decimal-some n)
