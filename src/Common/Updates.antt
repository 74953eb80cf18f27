-- ===== src/Common/Updates.antt =====
-- `v[i] = f(v[i])`: an index past the end is a panic, `none`.
use Prim.Native.Nat.{ℕ, ◌≤◌, ◌<◌}
use mathlib.Core.Path.{◌≡◌, refl}
use mathlib.Core.Option.{Option, none, some}
use mathlib.Core.List.{List}
use robinhood_feed_bench.Common.Lists.{length, set, get_elem?, get_elem?-in, get_elem?-out}
use robinhood_feed_bench.Common.Tests.{◌>>=◌}

module _ {ℓ} {A : Type ℓ} where
  unfoldable pub update : List A → ℕ → (A → A) → Option (List A)
  update xs i f = elim (get_elem? xs i) [ none ↦ none | some a ↦ some (set xs i (f a)) ]

  pub update-in :
      (xs : List A) (i : ℕ) (f : A → A)
      → i < length xs
      → (a : A) × (get_elem? xs i ≡ some a) × (update xs i f ≡ some (set xs i (f a)))
  unfolding update
  update-in xs i f h = let (a, e) = get_elem?-in xs i h in (a, e, rw (e, update))

  pub update-out : (xs : List A) (i : ℕ) (f : A → A) → length xs ≤ i → update xs i f ≡ none
  unfolding update
  update-out xs i f h = rw (get_elem?-out xs i h, update)

-- A computation succeeds, and its value satisfies `P`.
abbrev pub Ensures {ℓ} : {A : Type ℓ} → (A → Type 0) → Option A → Type 0
Ensures P none = ⊥
Ensures P (some a) = P a

module _ {ℓ κ} {A : Type ℓ} {B : Type κ} (P : B → Type 0) where
  -- Reading, and updating, within the bounds.
  pub Ensures-get :
      (k : A → Option B) (xs : List A) (i : ℕ)
      → i < length xs
      → ((a : A) → get_elem? xs i ≡ some a → Ensures P (k a))
      → Ensures P (get_elem? xs i >>= k)
  Ensures-get k xs i lt h = let (a, e) = get_elem?-in xs i lt in rw e (h a e)

  pub Ensures-update :
      (k : List A → Option B) (xs : List A) (i : ℕ)
      → i < length xs
      → (f : A → A) → ((a : A) → get_elem? xs i ≡ some a → Ensures P (k (set xs i (f a))))
      → Ensures P (update xs i f >>= k)
  Ensures-update k xs i lt f h = let (a, e, u) = update-in xs i f lt in rw u (h a e)

  -- What a computation ensures is what its continuation may rely on.
  pub Ensures-bind :
      (R : A → Type 0) (k : A → Option B) (m : Option A)
      → Ensures R m
      → ((a : A) → R a → Ensures P (k a))
      → Ensures P (m >>= k)
  Ensures-bind R k none h step = absurd h
  Ensures-bind R k (some a) h step = step a h

pub Ensures-weaken {ℓ} :
    {A : Type ℓ} (P Q : A → Type 0) (m : Option A)
    → ((a : A) → P a → Q a)
    → Ensures P m
    → Ensures Q m
Ensures-weaken P Q none imp h = h
Ensures-weaken P Q (some a) imp h = imp a h

pub Ensures-some {ℓ} :
    {A : Type ℓ} (P : A → Type 0) (m : Option A) → Ensures P m → (a : A) × (m ≡ some a) × P a
Ensures-some P none h = absurd h
Ensures-some P (some a) h = (a, refl, h)

-- What follows from the equation, of a computation that succeeds.
pub Ensures-eq {ℓ} :
    {A : Type ℓ} (P Q : A → Type 0) (m : Option A)
    → Ensures P m
    → ((a : A) → m ≡ some a → Q a)
    → Ensures Q m
Ensures-eq P Q none h step = absurd h
Ensures-eq P Q (some a) h step = step a refl

pub Ensures-and {ℓ} :
    {A : Type ℓ} (P Q : A → Type 0) (m : Option A)
    → Ensures P m
    → Ensures Q m
    → Ensures (λ a. P a × Q a) m
Ensures-and P Q none h k = absurd h
Ensures-and P Q (some a) h k = (h, k)
