-- ===== src/Common/Decimal.antt =====
-- `to_string` of an unsigned number.
use Prim.Native.Nat.{ℕ, zero, suc, ◌+◌, ◌-◌, ◌*◌, ◌/◌, ◌%◌, ◌≤◌}
use mathlib.Core.List.{[], ◌∷◌, ◌++◌}
use mathlib.Core.Path.{◌≡◌, refl, ap}
use native.Mathlib.Omega.{arith}
use robinhood_feed_bench.Common.Tests.{ltb, if◌then◌else◌}
use robinhood_feed_bench.Common.Texts.{Text}

-- Every round leaves a tenth, so `n` rounds are enough for the digits above the last.
unfoldable pub digits : ℕ → ℕ → Text
digits zero n = (b'0' + n % 10) ∷ []
digits (suc fuel) n =
    let more = digits fuel (n / 10) in
    if ltb n 10 then (b'0' + n) ∷ [] else more ++ ((b'0' + n % 10) ∷ [])

unfoldable pub decimal : ℕ → Text
unfolding digits
decimal n = digits n n

-- The number that a run of digits stands for.
unfoldable pub read_from : ℕ → Text → ℕ
read_from acc [] = acc
read_from acc (c ∷ cs) = read_from (acc * 10 + (c - b'0')) cs

read_from-snoc :
    (acc : ℕ) (cs : Text) (c : ℕ)
    → read_from acc (cs ++ (c ∷ [])) ≡ read_from acc cs * 10 + (c - b'0')
unfolding read_from
read_from-snoc acc [] c = refl
read_from-snoc acc (d ∷ cs) c = read_from-snoc (acc * 10 + (d - b'0')) cs c

read_from-digits : (fuel n : ℕ) → n ≤ fuel → read_from 0 (digits fuel n) ≡ n
unfolding digits read_from
read_from-digits zero n h = omega arith
read_from-digits (suc fuel) n h =
    ground (
      arith,
      read_from-snoc 0 (digits fuel (n / 10)) (b'0' + n % 10),
      read_from-digits fuel (n / 10),
    )

-- Two numbers that print alike are the same.
pub decimal_inj : (m n : ℕ) → decimal m ≡ decimal n → m ≡ n
unfolding decimal
decimal_inj m n h = omega (
  arith,
  ap (read_from 0) h,
  read_from-digits m m (omega arith),
  read_from-digits n n (omega arith),
)

-- What is printed is read back.
pub read_from-decimal : (n : ℕ) → read_from 0 (decimal n) ≡ n
unfolding decimal
read_from-decimal n = read_from-digits n n (omega arith)
