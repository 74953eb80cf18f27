-- ===== src/Specs/Ends.antt =====
-- The loop of the parsers of src/wsjson.rs and src/wsraw.rs ends.
use robinhood_feed_bench.Common.{
  ℕ, zero, suc, ◌≤◌, ◌<◌, ◌≡◌, ◌≢◌, [], ◌∷◌, some, length, arith, Option-cases, Bool-cases, inl,
  inr,
}
use robinhood_feed_bench.Common.Results.{Result, ◌and_then◌}
use robinhood_feed_bench.Common.Splits.{trim, split_once}
use robinhood_feed_bench.Common.Texts.{Text, text_eq, codes}
use robinhood_feed_bench.Specs.{
  SpecError, Spec, no_spec, add_header, json_field, raw_field, up_to_comma, parse_fields,
  parse_json, parse_raw, checked_json, checked_raw,
}

split_once-shorter : (sep : ℕ) (t a b : Text) → split_once sep t ≡ some (a, b) → length b < length t
unfolding split_once
split_once-shorter sep [] a b h = cc
split_once-shorter sep (c ∷ cs) a b h = elim (Option-cases (split_once sep cs)) [
  | inl nothing ↦ ground arith
  | inr (p, found) ↦ ground (arith, split_once-shorter sep cs p.0 p.1 found)
]

up_to_comma-shorter : (t : Text) → length (up_to_comma t).1 ≤ length t
up_to_comma-shorter t = elim (Option-cases (split_once b',' t)) [
  | inl nothing ↦ rw (up_to_comma, nothing) (omega arith)
  | inr (p, found) ↦
      rw (up_to_comma, found) (omega (arith, split_once-shorter b',' t p.0 p.1 found))
]

-- A result that is not the one of a loop without end.
abbrev pub Ends : Result SpecError Spec → Type 0
Ends r = r ≢ Result.err SpecError.unending

and_then-Ends :
    (m : Result SpecError Spec) (f : Spec → Result SpecError Spec)
    → Ends m
    → ((a : Spec) → Ends (f a))
    → Ends (m and_then f)
and_then-Ends (Result.err e) f hm hf = hm
and_then-Ends (Result.ok a) f hm hf = hf a

module _ (field : Spec → Text → Text → Result SpecError Spec)
    (ends : (src : Spec) (k v : Text) → Ends (field src k v)) where
  parse_fields-Ends :
      (fuel : ℕ) (src : Spec) (t : Text) → length t ≤ fuel → Ends (parse_fields field fuel src t)
  unfolding parse_fields
  parse_fields-Ends fuel src [] enough = λ e. cc
  parse_fields-Ends zero src (c ∷ cs) enough = absurd (omega arith)
  parse_fields-Ends (suc fuel) src (c ∷ cs) enough =
      elim (Option-cases (split_once b'=' (c ∷ cs))) [
        | inl nothing ↦ rw (parse_fields, nothing) (λ e. cc)
        | inr (p, found) ↦ elim (Bool-cases (text_eq (trim p.0) (codes "subscribe"))) [
          | inl last ↦ rw (parse_fields, found, last) (λ e. cc)
          | inr more ↦
              rw (parse_fields, found, more)
                (and_then-Ends _ _ (ends src (trim p.0) (up_to_comma p.1).0) λ next.
                  parse_fields-Ends fuel next (up_to_comma p.1).1 (
                    omega (
                      arith,
                      split_once-shorter b'=' (c ∷ cs) p.0 p.1 found,
                      up_to_comma-shorter p.1,
                    )))
        ]
      ]

add_header-Ends : (src : Spec) (v : Text) → Ends (add_header src v)
unfolding add_header
add_header-Ends src v = elim (Option-cases (split_once b':' v)) [
  | inl nothing ↦ rw (add_header, nothing) (λ e. cc)
  | inr (p, found) ↦ rw (add_header, found) (λ e. cc)
]

json_field-Ends : (src : Spec) (k v : Text) → Ends (json_field src k v)
unfolding json_field
json_field-Ends src k v = ground (arith, add_header-Ends src v)

raw_field-Ends : (src : Spec) (k v : Text) → Ends (raw_field src k v)
unfolding raw_field
raw_field-Ends src k v = ground (arith, add_header-Ends src v)

checked_json-Ends : (src : Spec) → Ends (checked_json src)
unfolding checked_json
checked_json-Ends src = ground arith

checked_raw-Ends : (src : Spec) → Ends (checked_raw src)
unfolding checked_raw
checked_raw-Ends src = ground arith

-- On any specification the loops of `WsJsonSource::parse` and of `WsRawSource::parse` end, with a
-- source or with one of the errors of the code.
pub parse-Ends : (spec : Text) → Ends (parse_json spec) × Ends (parse_raw spec)
unfolding parse_json parse_raw
parse-Ends spec = (
  and_then-Ends (parse_fields json_field (length spec) no_spec spec) checked_json
      (parse_fields-Ends json_field json_field-Ends (length spec) no_spec spec (omega arith))
      checked_json-Ends,
  and_then-Ends (parse_fields raw_field (length spec) no_spec spec) checked_raw
      (parse_fields-Ends raw_field raw_field-Ends (length spec) no_spec spec (omega arith))
      checked_raw-Ends,
)
