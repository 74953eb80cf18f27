-- ===== src/Ws/Negotiation/Offered.antt =====
-- What `negotiated_mode` of src/ws.rs agrees to.
use mathlib.Core.List.{map}
use robinhood_feed_bench.Common.{
  ℕ, ◌≡◌, refl, sym, ◌∙◌, Bool, true, false, not, ◌&&◌, List, [], ◌∷◌, Option, none, some, ◌==◌,
  if◌then◌else◌, Bool-cases, inl, inr,
}
use robinhood_feed_bench.Common.Texts.{Text, text_eq_iff}
use robinhood_feed_bench.Common.Results.{Result, ◌and_then◌}
use robinhood_feed_bench.Common.Splits.{split, trim, lowercase, same_word, put_first}
use robinhood_feed_bench.Inflate.{Mode}
use robinhood_feed_bench.Ws.Negotiation.{
  Offer, Refusal, nitro_extension, standard_extension, is_offered, read_parameters, read_extension,
  read_extensions, negotiated_mode,
}

abbrev pub Allowed : Offer → Option Mode → Type 0
Allowed offer none = ⊥
Allowed Offer.auto (some mode) = Unit {0}
Allowed Offer.nitro (some Mode.nitro) = Unit {0}
Allowed Offer.nitro (some (Mode.standard flag)) = ⊥
Allowed Offer.standard (some Mode.nitro) = ⊥
Allowed Offer.standard (some (Mode.standard flag)) = Unit {0}
Allowed Offer.nothing (some mode) = ⊥

abbrev pub Agreed : Offer → Result Refusal (Option Mode) → Type 0
Agreed offer (Result.err refusal) = Unit {0}
Agreed offer (Result.ok mode) = Allowed offer mode

put_first-cons :
    (c : ℕ) (ts : List Text) → (t : Text) × (us : List Text) × (put_first c ts ≡ t ∷ us)
put_first-cons c [] = (c ∷ [], [], refl)
put_first-cons c (t ∷ ts) = (c ∷ t, ts, refl)

split-cons : (sep : ℕ) (text : Text) → (t : Text) × (ts : List Text) × (split sep text ≡ t ∷ ts)
unfolding split
split-cons sep [] = ([], [], refl)
split-cons sep (c ∷ cs) = elim (Bool-cases (c == sep)) [
  | inl at_sep ↦ ([], split sep cs, rw at_sep refl)
  | inr inside ↦ let (t, ts, e) = put_first-cons c (split sep cs) in (t, ts, rw inside e)
]

named_once :
    (name : Text)
    → same_word name nitro_extension ≡ true
    → same_word name standard_extension ≡ true
    → ⊥
named_once name h k =
    let nitro_name : lowercase name ≡ lowercase nitro_extension =
      (text_eq_iff (lowercase name) (lowercase nitro_extension)).0 h in
    let standard_name : lowercase name ≡ lowercase standard_extension =
      (text_eq_iff (lowercase name) (lowercase standard_extension)).0 k in
    let same : lowercase nitro_extension ≡ lowercase standard_extension =
      sym nitro_name ∙ standard_name in
    cc

agree :
    (offer : Offer) (a b : Bool) (name : Text) (flag : Result Refusal Bool)
    → (a ≡ true → b ≡ true → ⊥)
    → Agreed offer (
        if not a && not b
        then Result.err (Refusal.unknown_extension name)
        else if not (is_offered offer a b)
        then Result.err (Refusal.not_offered name)
        else (flag and_then λ f. Result.ok (some (if a then Mode.nitro else Mode.standard f))))
agree offer true true name flag h = absurd (h refl refl)
agree offer false false name flag h = tt
agree Offer.auto true false name (Result.err e) h = tt
agree Offer.auto true false name (Result.ok f) h = tt
agree Offer.auto false true name (Result.err e) h = tt
agree Offer.auto false true name (Result.ok f) h = tt
agree Offer.nitro true false name (Result.err e) h = tt
agree Offer.nitro true false name (Result.ok f) h = tt
agree Offer.nitro false true name flag h = tt
agree Offer.standard true false name flag h = tt
agree Offer.standard false true name (Result.err e) h = tt
agree Offer.standard false true name (Result.ok f) h = tt
agree Offer.nothing true false name flag h = tt
agree Offer.nothing false true name flag h = tt

-- What `negotiated_mode` accepts was offered: it refuses, or it agrees to the Nitro mode when the
-- client offered that or both, or to the standard mode when it offered that or both. It never
-- answers that the server's header selects nothing.
pub negotiated_mode-Agreed :
    (header : Text) (offer : Offer) → Agreed offer (negotiated_mode header offer)
unfolding negotiated_mode read_extensions read_extension
negotiated_mode-Agreed header offer =
    let (ext, exts, e) = split-cons 44 header in
    let (name, parameters, f) = split-cons 59 ext in
    rw (negotiated_mode, e, read_extensions, f)
      (agree offer (same_word (trim name) nitro_extension)
        (same_word (trim name) standard_extension) (trim name)
        (read_parameters false (map trim parameters)) (named_once (trim name)))
