-- ===== src/Specs.antt =====
-- The source specifications of the command line: `NitroSource::parse` of src/nitro.rs,
-- `WsJsonSource::parse` of src/wsjson.rs and `WsRawSource::parse` of src/wsraw.rs. The last two have
-- one loop, and differ in the keys they take.
pub mod Fields
pub mod RoundTrip
pub mod Ends
mod Runs
use robinhood_feed_bench.Common.{
  ℕ, zero, suc, Bool, true, false, not, ◌&&◌, ◌||◌, List, [], ◌∷◌, ◌++◌, Option, none, some, length,
  ◌==◌, if◌then◌else◌,
}
use robinhood_feed_bench.Common.Results.{Result, ◌and_then◌}
use robinhood_feed_bench.Common.Splits.{trim, split_once, starts_with}
use robinhood_feed_bench.Common.Texts.{Text, text_eq, codes}

abbrev pub is_empty : Text → Bool
is_empty [] = true
is_empty (c ∷ cs) = false

-- `text.contains("://")`
abbrev pub has_scheme : Text → Bool
has_scheme [] = false
has_scheme (c ∷ cs) = starts_with (codes "://") (c ∷ cs) || has_scheme cs

pub record Target : Type 0 where
  pub name : Text
  pub url : Text

-- What the `bail!`s say. `unending` is for a loop that does not end: `Ends` shows that
-- there is none.
pub data SpecError : Type 0 where
  expected_pair bad_header unexpected_token unknown_key : Text → SpecError
  expected_url : Text → SpecError
  no_url no_path unending : SpecError

unfoldable pub parse_nitro : Text → Result SpecError Target
parse_nitro spec = elim (split_once b'=' spec) [
  | none ↦ Result.err (SpecError.expected_pair spec)
  | some (name, url) ↦
      if is_empty name || not (has_scheme url)
      then Result.err (SpecError.expected_url spec)
      else Result.ok (record { name = name; url = url })
]

-- A `WsJsonSource`. A `WsRawSource` has no path: it stays empty.
pub record Spec : Type 0 where
  pub name : Text
  pub url : Text
  pub path : Text
  pub headers : List (Text × Text)
  pub subscribe : Option Text

abbrev pub no_spec : Spec
no_spec = record { name = []; url = []; path = []; headers = []; subscribe = none }

pub add_header : Spec → Text → Result SpecError Spec
add_header src value = elim (split_once b':' value) [
  | none ↦ Result.err (SpecError.bad_header value)
  | some (k, v) ↦ Result.ok (record src { headers = src.headers ++ ((trim k, trim v) ∷ []) })
]

-- The arms of the two `match key`.
unfoldable pub json_field : Spec → Text → Text → Result SpecError Spec
json_field src key value =
    if text_eq key (codes "name")
    then Result.ok (record src { name = value })
    else if text_eq key (codes "url")
    then Result.ok (record src { url = value })
    else if text_eq key (codes "path")
    then Result.ok (record src { path = value })
    else if text_eq key (codes "header")
    then add_header src value
    else if has_scheme key || is_empty key
    then Result.err (SpecError.unexpected_token key)
    else if has_scheme value && is_empty src.name
    then Result.ok (record src { name = key; url = value })
    else Result.err (SpecError.unknown_key key)

pub raw_field : Spec → Text → Text → Result SpecError Spec
raw_field src key value =
    if text_eq key (codes "name")
    then Result.ok (record src { name = value })
    else if text_eq key (codes "url")
    then Result.ok (record src { url = value })
    else if text_eq key (codes "header")
    then add_header src value
    else if has_scheme value && is_empty src.name
    then Result.ok (record src { name = key; url = value })
    else Result.err (SpecError.unknown_key key)

-- `after.find(',')`: the value and what follows it.
abbrev pub up_to_comma : Text → Text × Text
up_to_comma after = elim (split_once b',' after) [ none ↦ (after, []) | some p ↦ p ]

module _ (field : Spec → Text → Text → Result SpecError Spec) where
  -- The `while` loop. Every round drops the equals sign at least, so as many rounds as the
  -- specification has characters are enough.
  unfoldable pub parse_fields : ℕ → Spec → Text → Result SpecError Spec
  parse_fields fuel src [] = Result.ok src
  parse_fields zero src (c ∷ cs) = Result.err SpecError.unending
  parse_fields (suc fuel) src (c ∷ cs) = elim (split_once b'=' (c ∷ cs)) [
    | none ↦ Result.err (SpecError.expected_pair (c ∷ cs))
    | some (key, after) ↦
        if text_eq (trim key) (codes "subscribe")
        then Result.ok (record src { subscribe = some after })
        else (field src (trim key) (up_to_comma after).0 and_then λ next.
            parse_fields fuel next (up_to_comma after).1)
  ]

-- The checks after the loops.
unfoldable pub checked_json : Spec → Result SpecError Spec
checked_json src =
    if is_empty src.name || is_empty src.url
    then Result.err SpecError.no_url
    else if is_empty src.path
    then Result.err SpecError.no_path
    else Result.ok src

pub checked_raw : Spec → Result SpecError Spec
checked_raw src =
    if is_empty src.name || is_empty src.url then Result.err SpecError.no_url else Result.ok src

unfoldable pub parse_json : Text → Result SpecError Spec
parse_json spec = parse_fields json_field (length spec) no_spec spec and_then checked_json

pub parse_raw : Text → Result SpecError Spec
parse_raw spec = parse_fields raw_field (length spec) no_spec spec and_then checked_raw
