-- ===== src/Specs/RoundTrip.antt =====
-- A specification that is written out and read by the parser of src/wsjson.rs.
use robinhood_feed_bench.Common.{
  append-none, append_assoc, ◌≡◌, ◌≢◌, refl, ap, sym, ◌∙◌, false, List, [], ◌∷◌, ◌++◌, map, Option,
  none, some, All, length, arith,
}
use robinhood_feed_bench.Common.Results.{Result, ◌and_then◌}
use robinhood_feed_bench.Common.Splits.{trim, Without, split_once-part}
use robinhood_feed_bench.Common.Texts.{Text, codes}
use robinhood_feed_bench.Specs.{
  is_empty, Spec, no_spec, add_header, json_field, parse_json, checked_json,
}
use robinhood_feed_bench.Specs.Fields.{
  fields_text, subscribed, IsField, take_fields, parse_fields-text,
}

abbrev pub header_field : Text × Text → Text × Text
header_field (k, v) = (codes "header", k ++ (b':' ∷ v))

abbrev json_fields : Spec → List (Text × Text)
json_fields s =
    (codes "name", s.name)
    ∷ (codes "url", s.url)
    ∷ (codes "path", s.path)
    ∷ map header_field s.headers

-- A specification written out, with the subscription last.
abbrev pub print_json : Spec → Text
print_json s = fields_text (json_fields s) s.subscribe

abbrev pub IsHeader : Text × Text → Type 0
IsHeader (k, v) = Without b':' k × Without b',' (k ++ (b':' ∷ v)) × (trim k ≡ k) × (trim v ≡ v)

-- No field is empty or holds a comma, and the headers are trimmed.
pub record IsSpec (s : Spec) : Type 0 where
  pub some_name : s.name ≢ []
  pub some_url : s.url ≢ []
  pub some_path : s.path ≢ []
  pub plain : Without b',' s.name × Without b',' s.url × Without b',' s.path
  pub headers_in : All IsHeader s.headers

header_fields :
    (hs : List (Text × Text)) (src : Spec)
    → All IsHeader hs
    → take_fields json_field src (map header_field hs)
      ≡ Result.ok (record src { headers = src.headers ++ hs })
unfolding json_field add_header
header_fields [] src h =
    ap (λ l. Result.ok (record src { headers = l })) (sym (append-none src.headers))
header_fields ((k, v) ∷ hs) src h =
    rw (json_field, add_header, split_once-part b':' k v h.0.0, h.0.2, h.0.3)
      (header_fields hs (record src { headers = src.headers ++ ((k, v) ∷ []) }) h.1
        ∙ ap (λ l. Result.ok (record src { headers = l }))
            (append_assoc src.headers ((k, v) ∷ []) hs))

headers-IsField : (hs : List (Text × Text)) → All IsHeader hs → All IsField (map header_field hs)
headers-IsField [] h = tt
headers-IsField ((k, v) ∷ hs) h = ((ground arith, refl, refl, h.0.1), headers-IsField hs h.1)

is_empty-some : (t : Text) → t ≢ [] → is_empty t ≡ false
is_empty-some [] h = absurd (h refl)
is_empty-some (c ∷ cs) h = refl

checked_json-IsSpec : (s : Spec) → IsSpec s → checked_json s ≡ Result.ok s
unfolding checked_json
checked_json-IsSpec s h =
    rw
      (
        is_empty-some s.name h.some_name,
        is_empty-some s.url h.some_url,
        is_empty-some s.path h.some_path,
      )
      refl

subscribed-fields :
    (n u p : Text) (hs : List (Text × Text)) (sub : Option Text)
    → subscribed sub (record { name = n; url = u; path = p; headers = hs; subscribe = none })
      ≡ record { name = n; url = u; path = p; headers = hs; subscribe = sub }
subscribed-fields n u p hs none = refl
subscribed-fields n u p hs (some s) = refl

json_fields-taken :
    (s : Spec)
    → All IsHeader s.headers
    → take_fields json_field no_spec (json_fields s) ≡ Result.ok (record s { subscribe = none })
unfolding json_field
json_fields-taken s h =
    header_fields s.headers
      (record { name = s.name; url = s.url; path = s.path; headers = []; subscribe = none }) h

json_fields-IsField : (s : Spec) → IsSpec s → All IsField (json_fields s)
json_fields-IsField s h = (
  (ground arith, refl, refl, h.plain.0),
  (
    (ground arith, refl, refl, h.plain.1),
    ((ground arith, refl, refl, h.plain.2), headers-IsField s.headers h.headers_in),
  ),
)

-- `WsJsonSource::parse` reads back a specification that was written out.
pub parse_json-print : (s : Spec) → IsSpec s → parse_json (print_json s) ≡ Result.ok s
unfolding parse_json
parse_json-print s h =
    ap (λ r. r and_then checked_json)
      (parse_fields-text json_field (json_fields s) s.subscribe (length (print_json s)) no_spec
          (json_fields-IsField s h) (omega arith)
        ∙ ap (λ r. r and_then λ last. Result.ok (subscribed s.subscribe last))
            (json_fields-taken s h.headers_in)
        ∙ ap Result.ok (subscribed-fields s.name s.url s.path s.headers s.subscribe))
    ∙ checked_json-IsSpec s h
