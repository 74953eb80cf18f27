-- ===== src/Common/Results.antt =====
-- `Result` of the standard library, its `?` and what it is to succeed.

pub data Result {ℓ κ} (E : Type ℓ) (A : Type κ) : Type (ℓ ⊔ κ) where
  err : E → Result E A
  ok : A → Result E A

-- `m?` followed by the rest.
infixl 5 ◌and_then◌
abbrev pub ◌and_then◌ {ℓ κ ι} :
    {E : Type ℓ} {A : Type κ} {B : Type ι} → Result E A → (A → Result E B) → Result E B
Result.err e and_then k = Result.err e
Result.ok a and_then k = k a
