-- ===== src/Ws/Url.antt =====
-- src/ws.rs: `parse_url`.
pub mod Written
mod Runs
use robinhood_feed_bench.Common.{
  ℕ, zero, suc, ◌+◌, ◌^◌, Bool, true, false, not, ◌&&◌, ◌||◌, List, [], ◌∷◌, ◌++◌, Option, none,
  some, length, drop, ◌==◌, if◌then◌else◌,
}
use robinhood_feed_bench.Common.Results.{Result, ◌and_then◌}
use robinhood_feed_bench.Common.Decimal.{decimal}
use robinhood_feed_bench.Common.Parse.{parse_unsigned}
use robinhood_feed_bench.Common.Splits.{starts_with, lowercase}
use robinhood_feed_bench.Common.Texts.{Text, text_eq, codes}

pub record Url : Type 0 where
  pub tls : Bool
  pub host : Text
  pub port : ℕ
  pub path : Text

pub data UrlError : Type 0 where
  no_scheme bad_port no_host : UrlError
  unsupported_scheme : Text → UrlError

-- `s.split_once("://")`
pub cut_scheme : Text → Option (Text × Text)
cut_scheme [] = none
cut_scheme (c ∷ cs) =
    let rest = cut_scheme cs in
    if starts_with (codes "://") (c ∷ cs)
    then some ([], drop 3 (c ∷ cs))
    else elim rest [ none ↦ none | some (a, b) ↦ some (c ∷ a, b) ]

-- `rest.find('/')`: what is before it, and what starts with it.
abbrev pub before_slash : Text → Text
before_slash [] = []
before_slash (c ∷ cs) = if c == b'/' then [] else c ∷ before_slash cs

abbrev pub from_slash : Text → Text
from_slash [] = []
from_slash (c ∷ cs) = if c == b'/' then c ∷ cs else from_slash cs

abbrev pub or_root : Text → Text
or_root [] = codes "/"
or_root (c ∷ cs) = c ∷ cs

-- `authority.rsplit_once(':')`
pub rsplit_once : ℕ → Text → Option (Text × Text)
rsplit_once sep [] = none
rsplit_once sep (c ∷ cs) = elim (rsplit_once sep cs) [
  | some (a, b) ↦ some (c ∷ a, b)
  | none ↦ if c == sep then some ([], cs) else none
]

abbrev pub holds : ℕ → Text → Bool
holds c [] = false
holds c (d ∷ ds) = (d == c) || holds c ds

abbrev pub ends_with : ℕ → Text → Bool
ends_with c [] = false
ends_with c (d ∷ []) = d == c
ends_with c (d ∷ e ∷ es) = ends_with c (e ∷ es)

abbrev pub is_bracket : ℕ → Bool
is_bracket c = (c == b'[') || (c == b']')

-- `trim_matches(|c| c == '[' || c == ']')`
abbrev pub trim_front : Text → Text
trim_front [] = []
trim_front (c ∷ cs) = if is_bracket c then trim_front cs else c ∷ cs

abbrev pub all_brackets : Text → Bool
all_brackets [] = true
all_brackets (c ∷ cs) = is_bracket c && all_brackets cs

abbrev pub trim_back : Text → Text
trim_back [] = []
trim_back (c ∷ cs) = if all_brackets (c ∷ cs) then [] else c ∷ trim_back cs

pub scheme_tls : Text → Result UrlError Bool
scheme_tls scheme =
    let s = lowercase scheme in
    if text_eq s (codes "wss") || text_eq s (codes "https")
    then Result.ok true
    else if text_eq s (codes "ws") || text_eq s (codes "http")
    then Result.ok false
    else Result.err (UrlError.unsupported_scheme s)

abbrev pub default_port : Bool → ℕ
default_port tls = if tls then 443 else 80

pub host_port : Bool → Text → Result UrlError (Text × ℕ)
host_port tls authority = elim (rsplit_once b':' authority) [
  | none ↦ Result.ok (authority, default_port tls)
  | some (h, p) ↦
      if not (holds b']' h) || ends_with b']' h
      then (elim (parse_unsigned (2 ^ 16) p) [
        | none ↦ Result.err UrlError.bad_port
        | some port ↦ Result.ok (h, port)
      ])
      else Result.ok (authority, default_port tls)
]

-- From the host and the port on.
pub url_of : Bool → Text → Text × ℕ → Result UrlError Url
url_of tls path (host, port) = elim host [
  | [] ↦ Result.err UrlError.no_host
  | c ∷ cs ↦
      Result.ok
        (record { tls = tls; host = trim_back (trim_front (c ∷ cs)); port = port; path = path })
]

pub parse_url : Text → Result UrlError Url
parse_url s = elim (cut_scheme s) [
  | none ↦ Result.err UrlError.no_scheme
  | some (scheme, rest) ↦ scheme_tls scheme and_then λ tls.
      host_port tls (before_slash rest) and_then λ hp. url_of tls (or_root (from_slash rest)) hp
]

-- `host_header`: the port is left out where it is that of the scheme.
unfoldable pub host_header : Url → Text
host_header url =
    if url.port == default_port url.tls
    then url.host
    else url.host ++ (codes ":" ++ decimal url.port)
