-- ===== src/Common/Bits.antt =====
-- `|` of disjoint fields and `^` with a mask, as the arithmetic of binary digits.
use Prim.Native.Nat.{
  ℕ, zero, suc, ◌+◌, ◌*◌, ◌/◌, ◌%◌, ◌^◌, ◌≤◌, ◌<◌, max, bit_or, bit_xor, digits, bit_or-bitwise,
  bit_xor-bitwise, differ,
}
use mathlib.Core.Path.{◌≡◌, refl, ap, ◌∙◌}
use native.Mathlib.Nat.{pow-suc}
use native.Mathlib.Omega.{arith}

-- The count of digits to go does not matter once it reaches the first number.
module _ (f : ℕ → ℕ → ℕ) (left_zero : (b : ℕ) → f 0 (b % 2) ≡ b % 2) where
  abbrev run : ℕ → ℕ → ℕ → ℕ
  run n a b = digits (λ b. b) f n a b

  run_enough : (n m a b : ℕ) → a ≤ n → a ≤ m → run n a b ≡ run m a b
  run_enough zero zero a b p q = refl
  run_enough zero (suc m) zero b p q = refl
  run_enough zero (suc m) (suc a) b p q = absurd (omega arith)
  run_enough (suc n) zero zero b p q = refl
  run_enough (suc n) zero (suc a) b p q = absurd (omega arith)
  run_enough (suc n) (suc m) zero b p q = refl
  run_enough (suc n) (suc m) (suc a) b p q =
      omega (arith, run_enough n m (suc a / 2) (b / 2) (omega arith) (omega arith))

  run_step : (a b : ℕ) → run a a b ≡ run (a / 2) (a / 2) (b / 2) * 2 + f (a % 2) (b % 2)
  run_step zero b = omega (arith, left_zero b)
  run_step (suc a) b =
      omega (arith, run_enough a (suc a / 2) (suc a / 2) (b / 2) (omega arith) (omega arith))

pub bit_or_step : (a b : ℕ) → bit_or a b ≡ bit_or (a / 2) (b / 2) * 2 + max (a % 2) (b % 2)
bit_or_step a b =
    omega (
      arith,
      bit_or-bitwise a b,
      bit_or-bitwise (a / 2) (b / 2),
      run_step max (λ b. omega arith) a b,
    )

differ-zero : (b : ℕ) → differ 0 (b % 2) ≡ b % 2
differ-zero b = refl

pub bit_xor_step : (a b : ℕ) → bit_xor a b ≡ bit_xor (a / 2) (b / 2) * 2 + differ (a % 2) (b % 2)
bit_xor_step a b =
    omega
      (arith, bit_xor-bitwise a b, bit_xor-bitwise (a / 2) (b / 2), run_step differ differ-zero a b)

bit_or-zero_fuel : (n a : ℕ) → a ≤ n → bit_or a 0 ≡ a
bit_or-zero_fuel n zero h = refl
bit_or-zero_fuel zero (suc a) h = absurd (omega arith)
bit_or-zero_fuel (suc n) (suc a) h =
    omega (arith, bit_or_step (suc a) 0, bit_or-zero_fuel n (suc a / 2) (omega arith))

twice-pow : (q k : ℕ) → q * 2 ^ suc k ≡ 2 * (q * 2 ^ k)
twice-pow q k = omega (arith, ap (λ (t : ℕ). q * t) (pow-suc 2 k))

-- A field of `k` low bits under a number that has been shifted past it.
pub bit_or_field : (k q r : ℕ) → r < 2 ^ k → bit_or (q * 2 ^ k) r ≡ q * 2 ^ k + r
bit_or_field zero q r h = ground (arith, bit_or-zero_fuel q q (omega arith))
bit_or_field (suc k) q r h =
    ground
      (arith, bit_or_step (q * 2 ^ suc k) r, twice-pow q k, bit_or_field k q (r / 2) (omega arith))

differ-bit : (x y : ℕ) → x < 2 → y < 2 → (differ x y < 2) × (differ (differ x y) y ≡ x)
differ-bit zero zero hx hy = omega arith
differ-bit zero (suc zero) hx hy = omega arith
differ-bit (suc zero) zero hx hy = omega arith
differ-bit (suc zero) (suc zero) hx hy = omega arith
differ-bit (suc (suc x)) y hx hy = absurd (omega arith)
differ-bit zero (suc (suc y)) hx hy = absurd (omega arith)
differ-bit (suc zero) (suc (suc y)) hx hy = absurd (omega arith)

xor_halves :
    (a b : ℕ)
    → (bit_xor a b / 2 ≡ bit_xor (a / 2) (b / 2)) × (bit_xor a b % 2 ≡ differ (a % 2) (b % 2))
xor_halves a b =
    omega (arith, bit_xor_step a b, differ-bit (a % 2) (b % 2) (omega arith) (omega arith))

pub bit_xor-lt : (k a b : ℕ) → a < 2 ^ k → b < 2 ^ k → bit_xor a b < 2 ^ k
bit_xor-lt zero zero zero ha hb = omega arith
bit_xor-lt zero zero (suc b) ha hb = absurd (omega arith)
bit_xor-lt zero (suc a) b ha hb = absurd (omega arith)
bit_xor-lt (suc k) a b ha hb = omega (
  arith,
  xor_halves a b,
  pow-suc 2 k,
  bit_xor-lt k (a / 2) (b / 2) (omega (arith, pow-suc 2 k)) (omega (arith, pow-suc 2 k)),
)

-- The mask is undone by the same mask.
pub bit_xor_twice : (k a b : ℕ) → a < 2 ^ k → b < 2 ^ k → bit_xor (bit_xor a b) b ≡ a
bit_xor_twice zero zero zero ha hb = refl
bit_xor_twice zero zero (suc b) ha hb = absurd (omega arith)
bit_xor_twice zero (suc a) b ha hb = absurd (omega arith)
bit_xor_twice (suc k) a b ha hb =
    bit_xor_step (bit_xor a b) b
    ∙ omega (
      arith,
      ap (λ t. bit_xor t (b / 2)) (xor_halves a b).0,
      ap (λ t. differ t (b % 2)) (xor_halves a b).1,
      differ-bit (a % 2) (b % 2) (omega arith) (omega arith),
      bit_xor_twice k (a / 2) (b / 2) (omega (arith, pow-suc 2 k)) (omega (arith, pow-suc 2 k)),
    )
