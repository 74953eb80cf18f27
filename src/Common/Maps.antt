-- ===== src/Common/Maps.antt =====
-- `HashMap` with texts as keys, as an association list. `values()` runs through it in the order
-- of first insertion; the map's own order is not specified.
use Prim.Native.Nat.{ℕ, ◌+◌}
use mathlib.Core.Bool.{Bool}
use mathlib.Core.List.{List, [], ◌∷◌}
use mathlib.Core.Logic.{inl, inr}
use mathlib.Core.Option.{Option, none, some}
use mathlib.Core.Path.{◌≡◌, refl, subst}
use native.Mathlib.Omega.{arith}
use robinhood_feed_bench.Common.Tests.{if◌then◌else◌, Bool-cases}
use robinhood_feed_bench.Common.Texts.{Text, text_eq, text_eq_iff}

module _ {ℓ} {V : Type ℓ} where
  unfoldable pub lookup : Text → List (Text × V) → Option V
  lookup k [] = none
  lookup k ((j, v) ∷ m) = if text_eq j k then some v else lookup k m

  unfoldable pub insert : Text → V → List (Text × V) → List (Text × V)
  insert k v [] = (k, v) ∷ []
  insert k v ((j, w) ∷ m) = if text_eq j k then (j, v) ∷ m else (j, w) ∷ insert k v m

  abbrev pub values : List (Text × V) → List V
  values [] = []
  values ((k, v) ∷ m) = v ∷ values m

  pub lookup-insert :
      (k j : Text) (v : V) (m : List (Text × V))
      → lookup j (insert k v m) ≡ (if text_eq k j then some v else lookup j m)
  unfolding lookup insert
  lookup-insert k j v [] = refl
  lookup-insert k j v ((i, w) ∷ m) =
      ground (arith, text_eq_iff k j, text_eq_iff i k, text_eq_iff i j, lookup-insert k j v m)

  pub lookup-insert_self :
      (k : Text) (v : V) (m : List (Text × V)) → lookup k (insert k v m) ≡ some v
  lookup-insert_self k v m = ground (arith, lookup-insert k k v m, text_eq_iff k k)

  abbrev pub AllValues {κ} : (V → Type κ) → List (Text × V) → Type κ
  AllValues P [] = Unit {κ}
  AllValues P ((k, v) ∷ m) = P v × AllValues P m

  pub AllValues-lookup {κ} :
      (P : V → Type κ) (k : Text) (m : List (Text × V)) {v : V}
      → AllValues P m
      → lookup k m ≡ some v
      → P v
  unfolding lookup
  AllValues-lookup P k [] h e = cc
  AllValues-lookup P k ((j, w) ∷ m) {v} h e = elim (Bool-cases (text_eq j k)) [
    | inl same ↦ let found : some w ≡ some v = rw same at e in subst P (cc) h.0
    | inr other ↦ AllValues-lookup P k m h.1 (rw other at e)
  ]

  pub AllValues-insert {κ} :
      (P : V → Type κ) (k : Text) (v : V) (m : List (Text × V))
      → P v
      → AllValues P m
      → AllValues P (insert k v m)
  unfolding insert
  AllValues-insert P k v [] hv h = (hv, tt)
  AllValues-insert P k v ((j, w) ∷ m) hv h = elim (Bool-cases (text_eq j k)) [
    | inl same ↦ rw same (hv, h.1)
    | inr other ↦ rw other (h.0, AllValues-insert P k v m hv h.1)
  ]

  -- How many values pass a test.
  abbrev pub count_values : (V → Bool) → List (Text × V) → ℕ
  count_values p [] = 0
  count_values p ((k, v) ∷ m) = (if p v then 1 else 0) + count_values p m

  abbrev pub weight : (V → Bool) → Option V → ℕ
  weight p none = 0
  weight p (some v) = if p v then 1 else 0

  -- A new value counts in place of the old one.
  pub count_values-insert :
      (p : V → Bool) (k : Text) (v : V) (m : List (Text × V))
      → count_values p (insert k v m) + weight p (lookup k m)
        ≡ count_values p m + (if p v then 1 else 0)
  unfolding insert lookup
  count_values-insert p k v [] = ground arith
  count_values-insert p k v ((j, w) ∷ m) = ground (arith, count_values-insert p k v m)
