-- ===== src/Ws/Url/Written.antt =====
-- A URL that is written out and read by `parse_url` of src/ws.rs.
use robinhood_feed_bench.Common.{
  ℕ, ◌^◌, ◌<◌, ◌≡◌, ◌≢◌, refl, ap, subst, sym, ◌∙◌, Bool, true, false, [], ◌∷◌, ◌++◌, none, some,
  All, arith, append_assoc,
}
use robinhood_feed_bench.Common.Results.{Result, ◌and_then◌}
use robinhood_feed_bench.Common.Decimal.{decimal}
use robinhood_feed_bench.Common.Parse.{
  all_digits, is_digit, all_digits-decimal, parse_unsigned-decimal,
}
use robinhood_feed_bench.Common.Splits.{Without, Without-append}
use robinhood_feed_bench.Common.Texts.{Text, codes}
use robinhood_feed_bench.Ws.Url.{
  Url, cut_scheme, before_slash, from_slash, or_root, rsplit_once, holds, trim_front, trim_back,
  scheme_tls, host_port, url_of, parse_url,
}

abbrev pub scheme_of : Bool → Text
scheme_of true = codes "wss://"
scheme_of false = codes "ws://"

abbrev pub print_url : Url → Text
print_url u = scheme_of u.tls ++ (u.host ++ (b':' ∷ (decimal u.port ++ u.path)))

-- A host without a colon, a slash or a bracket, a port of 16 bits and a path from the root.
abbrev pub HostChar : ℕ → Type 0
HostChar c = (c ≢ b':') × (c ≢ b'/') × (c ≢ b'[') × (c ≢ b']')

pub record IsUrl (u : Url) : Type 0 where
  pub some_host : u.host ≢ []
  pub host_in : All HostChar u.host
  pub port_in : u.port < 2 ^ 16
  pub rooted : (rest : Text) × (u.path ≡ b'/' ∷ rest)

before_slash-part : (a rest : Text) → Without b'/' a → before_slash (a ++ (b'/' ∷ rest)) ≡ a
before_slash-part [] rest h = refl
before_slash-part (c ∷ a) rest h = ground (arith, before_slash-part a rest)

from_slash-part : (a rest : Text) → Without b'/' a → from_slash (a ++ (b'/' ∷ rest)) ≡ b'/' ∷ rest
from_slash-part [] rest h = refl
from_slash-part (c ∷ a) rest h = ground (arith, from_slash-part a rest)

rsplit_once-none : (t : Text) → Without b':' t → rsplit_once b':' t ≡ none
unfolding rsplit_once
rsplit_once-none [] h = refl
rsplit_once-none (c ∷ cs) h = rw (rsplit_once, rsplit_once-none cs h.1) (ground arith)

rsplit_once-part : (a t : Text) → Without b':' t → rsplit_once b':' (a ++ (b':' ∷ t)) ≡ some (a, t)
unfolding rsplit_once
rsplit_once-part [] t h = rw (rsplit_once, rsplit_once-none t h) refl
rsplit_once-part (c ∷ a) t h = rw (rsplit_once, rsplit_once-part a t h) refl

decimal-Without : (c n : ℕ) → is_digit c ≡ false → Without c (decimal n)
decimal-Without c n out = plain (decimal n) (all_digits-decimal n)
  where
    plain : (t : Text) → all_digits t ≡ true → Without c t
    plain [] h = tt
    plain (d ∷ ds) h = ground (arith, plain ds)

host-Without : (t : Text) → All HostChar t → Without b'/' t × (holds b']' t ≡ false)
host-Without [] h = (tt, refl)
host-Without (c ∷ cs) h = ground (arith, host-Without cs)

trim_front-host : (t : Text) → All HostChar t → trim_front t ≡ t
trim_front-host [] h = refl
trim_front-host (c ∷ cs) h = ground arith

trim_back-host : (t : Text) → All HostChar t → trim_back t ≡ t
trim_back-host [] h = refl
trim_back-host (c ∷ cs) h = ground (arith, trim_back-host cs)

host_port-written :
    (tls : Bool) (host : Text) (port : ℕ)
    → All HostChar host
    → port < 2 ^ 16
    → host_port tls (host ++ (b':' ∷ decimal port)) ≡ Result.ok (host, port)
unfolding host_port
host_port-written tls host port h lt =
    rw
      (
        host_port,
        rsplit_once-part host (decimal port) (decimal-Without b':' port refl),
        (host-Without host h).1,
        parse_unsigned-decimal (2 ^ 16) port lt,
      )
      refl

url_of-host :
    (tls : Bool) (path host : Text) (port : ℕ)
    → All HostChar host
    → host ≢ []
    → url_of tls path (host, port)
      ≡ Result.ok (record { tls = tls; host = host; port = port; path = path })
unfolding url_of
url_of-host tls path [] port h some_host = absurd (some_host refl)
url_of-host tls path (c ∷ cs) port h some_host =
    ap (λ t. Result.ok (record { tls = tls; host = t; port = port; path = path }))
      (ap trim_back (trim_front-host (c ∷ cs) h) ∙ trim_back-host (c ∷ cs) h)

-- What follows the scheme, once it is cut off.
rest_url :
    (tls : Bool) (host rest : Text) (port : ℕ)
    → All HostChar host
    → host ≢ []
    → port < 2 ^ 16
    → (let text = host ++ (b':' ∷ (decimal port ++ (b'/' ∷ rest))) in
        (host_port tls (before_slash text) and_then λ hp. url_of tls (or_root (from_slash text)) hp)
        ≡ Result.ok (record { tls = tls; host = host; port = port; path = b'/' ∷ rest }))
rest_url tls host rest port h some_host lt =
    let authority = host ++ (b':' ∷ decimal port) in
    let plain : Without b'/' authority =
      Without-append b'/' host (b':' ∷ decimal port) (host-Without host h).0
        (omega arith, decimal-Without b'/' port refl) in
    let same : authority ++ (b'/' ∷ rest) ≡ host ++ (b':' ∷ (decimal port ++ (b'/' ∷ rest))) =
      append_assoc host (b':' ∷ decimal port) (b'/' ∷ rest) in
    subst
      (λ text.
        (host_port tls (before_slash text) and_then λ hp. url_of tls (or_root (from_slash text)) hp)
        ≡ Result.ok (record { tls = tls; host = host; port = port; path = b'/' ∷ rest }))
      same
      (ap
          (λ a. host_port tls a and_then λ hp.
            url_of tls (or_root (from_slash (authority ++ (b'/' ∷ rest)))) hp)
          (before_slash-part authority rest plain)
        ∙ ap (λ f. host_port tls authority and_then λ hp. url_of tls (or_root f) hp)
            (from_slash-part authority rest plain)
        ∙ ap (λ r. r and_then λ hp. url_of tls (b'/' ∷ rest) hp)
            (host_port-written tls host port h lt)
        ∙ url_of-host tls (b'/' ∷ rest) host port h some_host)

parse_url-written :
    (tls : Bool) (host rest : Text) (port : ℕ)
    → All HostChar host
    → host ≢ []
    → port < 2 ^ 16
    → parse_url (scheme_of tls ++ (host ++ (b':' ∷ (decimal port ++ (b'/' ∷ rest)))))
      ≡ Result.ok (record { tls = tls; host = host; port = port; path = b'/' ∷ rest })
unfolding parse_url cut_scheme scheme_tls
parse_url-written true host rest port h some_host lt = rest_url true host rest port h some_host lt
parse_url-written false host rest port h some_host lt = rest_url false host rest port h some_host lt

-- `parse_url` reads back a URL that was written out with its port.
pub parse_url-print : (u : Url) → IsUrl u → parse_url (print_url u) ≡ Result.ok u
parse_url-print u h =
    let (rest, e) = h.rooted in
    ap (λ p. parse_url (scheme_of u.tls ++ (u.host ++ (b':' ∷ (decimal u.port ++ p))))) e
    ∙ parse_url-written u.tls u.host rest u.port h.host_in h.some_host h.port_in
    ∙ ap (λ p. Result.ok (record u { path = p })) (sym e)
