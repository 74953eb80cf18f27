-- ===== src/Specs/Fields.antt =====
-- The loop of the parsers of src/wsjson.rs and src/wsraw.rs on a text of fields.
use robinhood_feed_bench.Common.{
  append-none, ℕ, zero, suc, ◌≤◌, ◌≡◌, refl, ap, subst, sym, ◌∙◌, false, List, [], ◌∷◌, ◌++◌,
  Option, none, some, All, length, length-append, arith,
}
use robinhood_feed_bench.Common.Results.{Result, ◌and_then◌}
use robinhood_feed_bench.Common.Splits.{split_once-part, split_once-none, split_once, trim, Without}
use robinhood_feed_bench.Common.Texts.{Text, text_eq, codes}
use robinhood_feed_bench.Specs.{SpecError, Spec, up_to_comma, parse_fields}

-- Fields, and the text of a subscription after them.
abbrev pub after_field : List (Text × Text) → Option Text → Text → Text
after_field [] none rest = []
after_field [] (some s) rest = b',' ∷ rest
after_field (f ∷ fs) sub rest = b',' ∷ rest

abbrev pub fields_text : List (Text × Text) → Option Text → Text
fields_text [] none = []
fields_text [] (some s) = codes "subscribe=" ++ s
fields_text ((k, v) ∷ fs) sub = k ++ (b'=' ∷ (v ++ after_field fs sub (fields_text fs sub)))

abbrev pub subscribed : Option Text → Spec → Spec
subscribed none src = src
subscribed (some s) src = record src { subscribe = some s }

-- A key that the loop hands to the field as it is, and a value.
abbrev pub IsField : Text × Text → Type 0
IsField (k, v) =
    Without b'=' k × (trim k ≡ k) × (text_eq k (codes "subscribe") ≡ false) × Without b',' v

up_to_comma-value :
    (v : Text) (fs : List (Text × Text)) (sub : Option Text)
    → Without b',' v
    → up_to_comma (v ++ after_field fs sub (fields_text fs sub)) ≡ (v, fields_text fs sub)
up_to_comma-value v [] none h =
    subst (λ t. up_to_comma t ≡ (v, [])) (sym (append-none v))
      (rw (up_to_comma, split_once-none b',' v h) refl)
up_to_comma-value v [] (some s) h =
    rw (up_to_comma, split_once-part b',' v (codes "subscribe=" ++ s) h) refl
up_to_comma-value v ((k, w) ∷ fs) sub h =
    rw (up_to_comma, split_once-part b',' v (fields_text ((k, w) ∷ fs) sub) h) refl

module _ (field : Spec → Text → Text → Result SpecError Spec) where
  abbrev pub take_fields : Spec → List (Text × Text) → Result SpecError Spec
  take_fields src [] = Result.ok src
  take_fields src ((k, v) ∷ fs) = field src k v and_then λ next. take_fields next fs

  parse_fields-step :
      (fuel : ℕ) (src : Spec) (t k after : Text)
      → split_once b'=' t ≡ some (k, after)
      → text_eq (trim k) (codes "subscribe") ≡ false
      → parse_fields field (suc fuel) src t ≡ (
          field src (trim k) (up_to_comma after).0 and_then λ next.
          parse_fields field fuel next (up_to_comma after).1)
  unfolding parse_fields
  parse_fields-step fuel src [] k after cut other =
      let stuck : split_once b'=' [] ≡ none = split_once-none b'=' [] tt in cc
  parse_fields-step fuel src (c ∷ cs) k after cut other = rw (parse_fields, cut, other) refl

  and_then_assoc :
      (m : Result SpecError Spec) (f g : Spec → Result SpecError Spec)
      → ((m and_then f) and_then g) ≡ (m and_then λ a. f a and_then g)
  and_then_assoc (Result.err e) f g = refl
  and_then_assoc (Result.ok a) f g = refl

  and_then-cong :
      (m : Result SpecError Spec) (f g : Spec → Result SpecError Spec)
      → ((a : Spec) → f a ≡ g a)
      → (m and_then f) ≡ (m and_then g)
  and_then-cong (Result.err e) f g same = refl
  and_then-cong (Result.ok a) f g same = same a

  length-after_field :
      (fs : List (Text × Text)) (sub : Option Text)
      → length (fields_text fs sub) ≤ length (after_field fs sub (fields_text fs sub))
  length-after_field [] none = omega arith
  length-after_field [] (some s) = omega arith
  length-after_field ((k, v) ∷ fs) sub = omega arith

  pub parse_fields-text :
      (fs : List (Text × Text)) (sub : Option Text) (fuel : ℕ) (src : Spec)
      → All IsField fs
      → length (fields_text fs sub) ≤ fuel
      → parse_fields field fuel src (fields_text fs sub)
        ≡ (take_fields src fs and_then λ last. Result.ok (subscribed sub last))
  unfolding parse_fields
  parse_fields-text [] none fuel src h enough = refl
  parse_fields-text [] (some s) zero src h enough = absurd (omega arith)
  parse_fields-text [] (some s) (suc fuel) src h enough =
      rw (parse_fields, split_once-part b'=' (codes "subscribe") s (ground arith)) refl
  parse_fields-text ((k, v) ∷ fs) sub zero src h enough =
      absurd
        (omega (arith, length-append k (b'=' ∷ (v ++ after_field fs sub (fields_text fs sub)))))
  parse_fields-text ((k, v) ∷ fs) sub (suc fuel) src h enough =
      let cut = split_once-part b'=' k (v ++ after_field fs sub (fields_text fs sub)) h.0.0 in
      let value = up_to_comma-value v fs sub h.0.3 in
      let other : text_eq (trim k) (codes "subscribe") ≡ false =
        ap (λ t. text_eq t (codes "subscribe")) h.0.1 ∙ h.0.2 in
      parse_fields-step fuel src _ k _ cut other
      ∙ ap (λ p. field src (trim k) p.0 and_then λ next. parse_fields field fuel next p.1) value
      ∙ ap (λ j. field src j v and_then λ next. parse_fields field fuel next (fields_text fs sub))
          h.0.1
      ∙ and_then-cong (field src k v) _ _ (λ next. parse_fields-text fs sub fuel next h.1 (
          omega (
            arith,
            length-append k (b'=' ∷ (v ++ after_field fs sub (fields_text fs sub))),
            length-append v (after_field fs sub (fields_text fs sub)),
            length-after_field fs sub,
          )))
      ∙ sym (and_then_assoc (field src k v) _ _)
