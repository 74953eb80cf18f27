-- ===== src/Ws/Url/Runs.antt =====
-- URLs through `parse_url` of src/ws.rs.
use robinhood_feed_bench.Common.{◌≡◌, refl, true, false, arith}
use robinhood_feed_bench.Common.Results.{Result}
use robinhood_feed_bench.Common.Decimal.{read_from}
use robinhood_feed_bench.Common.Parse.{parse_unsigned}
use robinhood_feed_bench.Common.Texts.{codes}
use robinhood_feed_bench.Ws.Url.{
  Url, UrlError, cut_scheme, rsplit_once, scheme_tls, host_port, url_of, parse_url,
}
use robinhood_feed_bench.Ws.Url.Written.{IsUrl, print_url, parse_url-print}

abbrev feed : Url
feed = record { tls = true; host = codes "feed.example.com"; port = 8443; path = codes "/v1" }

feed-IsUrl : IsUrl feed
feed-IsUrl = record {
  some_host = λ e. cc;
  host_in = ground arith;
  port_in = omega arith;
  rooted = (codes "v1", refl);
}

parse_url-print_example : parse_url (print_url feed) ≡ Result.ok feed
parse_url-print_example = parse_url-print feed feed-IsUrl

without_port :
    parse_url (codes "WS://h/x")
    ≡ Result.ok (record { tls = false; host = codes "h"; port = 80; path = codes "/x" })
unfolding parse_url cut_scheme scheme_tls host_port url_of rsplit_once
without_port = refl

bracketed :
    parse_url (codes "ws://[::1]:9/")
    ≡ Result.ok (record { tls = false; host = codes "::1"; port = 9; path = codes "/" })
unfolding parse_url cut_scheme scheme_tls host_port url_of rsplit_once parse_unsigned read_from
bracketed = refl

-- A bracketed address without a port is refused.
bracketed_without_port : parse_url (codes "ws://[::1]/") ≡ Result.err UrlError.bad_port
unfolding parse_url cut_scheme scheme_tls host_port url_of rsplit_once parse_unsigned read_from
bracketed_without_port = refl
