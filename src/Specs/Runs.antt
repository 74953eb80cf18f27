-- ===== src/Specs/Runs.antt =====
-- The specifications of the tests of src/wsjson.rs and src/wsraw.rs.
use robinhood_feed_bench.Common.{◌≡◌, refl, [], ◌∷◌, some, none, arith}
use robinhood_feed_bench.Common.Results.{Result}
use robinhood_feed_bench.Common.Splits.{split_once}
use robinhood_feed_bench.Common.Texts.{codes}
use robinhood_feed_bench.Specs.{
  SpecError, Spec, parse_json, parse_raw, parse_fields, json_field, checked_json,
}
use robinhood_feed_bench.Specs.RoundTrip.{IsSpec, print_json, parse_json-print}
use robinhood_feed_bench.Specs.Ends.{Ends, parse-Ends}

abbrev other_feed : Spec
other_feed = record {
  name = codes "other";
  url = codes "wss://feed.example.com/v1";
  path = codes "params.result.hash";
  headers = (codes "Authorization", codes "Bearer x") ∷ [];
  subscribe = some (codes "{op:sub,ch:[tx]}");
}

other_feed-IsSpec : IsSpec other_feed
other_feed-IsSpec = record {
  some_name = λ e. cc;
  some_url = λ e. cc;
  some_path = λ e. cc;
  plain = ground arith;
  headers_in = ground arith;
}

parse_json-print_example : parse_json (print_json other_feed) ≡ Result.ok other_feed
parse_json-print_example = parse_json-print other_feed other_feed-IsSpec

shorthand :
    parse_json (codes "x=wss://h,path=a")
    ≡ Result.ok (record {
      name = codes "x";
      url = codes "wss://h";
      path = codes "a";
      headers = [];
      subscribe = none;
    })
unfolding parse_json parse_fields json_field checked_json split_once
shorthand = refl

no_path_given : parse_json (codes "x=wss://h") ≡ Result.err SpecError.no_path
unfolding parse_json parse_fields json_field checked_json split_once
no_path_given = refl

parse-Ends_example : Ends (parse_json (codes "x=,=")) × Ends (parse_raw (codes "x=,="))
parse-Ends_example = parse-Ends (codes "x=,=")
