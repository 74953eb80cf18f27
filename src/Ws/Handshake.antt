-- ===== src/Ws/Handshake.antt =====
-- src/ws.rs: `connect` behind its socket: the request, the head of the response and what is made of
-- it. `reads` are what the reads of the socket return, and the end of the list a read that times
-- out. `from_utf8` (the standard library), `sha1` and `encode` (the sha1 and base64 crates) are
-- parameters; `key` is the encoded random key, `version` the package's.
pub mod Reads
pub mod Answer
pub mod Upgrade
pub mod Trusted
mod Runs
use robinhood_feed_bench.Common.{
  ℕ, zero, suc, ◌+◌, ◌^◌, Bool, true, false, not, ◌&&◌, ◌||◌, List, [], ◌∷◌, ◌++◌, map, Option,
  none, some, length, take, drop, ltb, ◌==◌, if◌then◌else◌, ◌>>=◌, unwrap_or, get_elem?,
}
use robinhood_feed_bench.Common.Texts.{Text, codes, text_eq}
use robinhood_feed_bench.Common.Results.{Result, ◌and_then◌}
use robinhood_feed_bench.Common.Parse.{parse_unsigned}
use robinhood_feed_bench.Common.Splits.{
  is_space, put_first, split_once, starts_with, trim, same_word,
}
use robinhood_feed_bench.Inflate.{Flate, Mode, Fault, Inflater, new_inflater}
use robinhood_feed_bench.Ws.Negotiation.{
  Offer, Rejected, Refusal, header_value, negotiated_mode, nitro_extension, standard_extension,
}
use robinhood_feed_bench.Ws.Session.{Client}
use robinhood_feed_bench.Ws.Url.{Url, UrlError, parse_url, host_header}

abbrev pub Headers : Type 0
Headers = List (Text × Text)

pub record Config : Type 0 where
  pub url : Text
  pub headers : Headers
  pub offer : Offer
  pub max_message : ℕ
  pub ping_every : ℕ
  pub read_timeout : ℕ

pub record Handshake : Type 0 where
  pub compression : Text
  pub server_headers : Headers

-- `find(|(k, _)| k.eq_ignore_ascii_case(name))`
abbrev pub find_header : Text → Headers → Option Text
find_header name [] = none
find_header name ((k, v) ∷ hs) = if same_word k name then some v else find_header name hs

pub header : Handshake → Text → Option Text
header h name = find_header name h.server_headers

abbrev pub crlf : Text
crlf = 13 ∷ 10 ∷ []

abbrev pub header_lines : Headers → Text
header_lines [] = []
header_lines ((k, v) ∷ hs) = k ++ (codes ": " ++ (v ++ (crlf ++ header_lines hs)))

abbrev pub offer_line : Option Text → Text
offer_line none = []
offer_line (some offer) = codes "Sec-WebSocket-Extensions: " ++ (offer ++ crlf)

-- What is written to the server.
pub request : Url → Config → Text → Text → Text
request url cfg key version =
    codes "GET "
    ++ (url.path
        ++ (codes " HTTP/1.1"
            ++ (crlf
                ++ (header_lines (
                      (codes "Host", host_header url)
                      ∷ (codes "Upgrade", codes "websocket")
                      ∷ (codes "Connection", codes "Upgrade")
                      ∷ (codes "Sec-WebSocket-Key", key)
                      ∷ (codes "Sec-WebSocket-Version", codes "13")
                      ∷ [])
                    ++ (offer_line (header_value cfg.offer)
                        ++ (header_lines cfg.headers
                            ++ (codes "User-Agent: feedbench/" ++ (version ++ (crlf ++ crlf)))))))))

-- `buf.windows(4).position(|w| w == b"\r\n\r\n")`
pub head_end : List ℕ → Option ℕ
head_end [] = none
head_end (b ∷ bs) =
    if starts_with (crlf ++ crlf) (b ∷ bs) then some 0 else (do i ← head_end bs; some (suc i))

pub data Failure : Type 0 where
  bad_url : UrlError → Failure
  head_too_large closed timed_out not_text bad_accept : Failure
  extension : Refusal → Failure
  inflating : Fault → Failure
  rejected : Rejected → Failure

-- `err.downcast_ref::<Rejected>()`
abbrev pub downcast : Failure → Option Rejected
downcast (Failure.rejected r) = some r
downcast other = none

-- The limit on the head of a response.
abbrev pub head_limit : ℕ
head_limit = 65536

abbrev pub Head : Type 0
Head = List ℕ × List ℕ × List (List ℕ)

-- The loop that reads the head: the head, the buffer behind it and the reads that are left.
pub read_head : List ℕ → List (List ℕ) → Result Failure Head
read_head buf [] = elim (head_end buf) [
  | some i ↦ Result.ok (take i buf, drop (i + 4) buf, [])
  | none ↦
      Result.err (if ltb head_limit (length buf) then Failure.head_too_large else Failure.timed_out)
]
read_head buf (r ∷ rs) =
    let more = read_head (buf ++ r) rs in
    elim (head_end buf) [
      | some i ↦ Result.ok (take i buf, drop (i + 4) buf, r ∷ rs)
      | none ↦
          if ltb head_limit (length buf)
          then Result.err Failure.head_too_large
          else elim r [ [] ↦ Result.err Failure.closed | b ∷ bs ↦ more ]
    ]

-- `head.split("\r\n")`
pub split_lines : Text → List Text
split_lines [] = [] ∷ []
split_lines (c ∷ []) = (c ∷ []) ∷ []
split_lines (c ∷ d ∷ ds) =
    let ended = split_lines ds in
    let longer = split_lines (d ∷ ds) in
    if (c == 13) && (d == 10) then [] ∷ ended else put_first c longer

abbrev pub in_word : Text → Bool
in_word [] = false
in_word (c ∷ cs) = not (is_space c)

-- `split_whitespace`
pub words : Text → List Text
words [] = []
words (c ∷ cs) =
    let rest = words cs in
    if is_space c then rest else if in_word cs then put_first c rest else (c ∷ []) ∷ rest

pub status_of : Text → ℕ
status_of line = unwrap_or (do w ← get_elem? (words line) 1; parse_unsigned (2 ^ 16) w) 0

pub headers_of : List Text → Headers
headers_of [] = []
headers_of (l ∷ ls) = elim (split_once b':' l) [
  | none ↦ headers_of ls
  | some (k, v) ↦ (trim k, trim v) ∷ headers_of ls
]

pub retry_after : Headers → Option ℕ
retry_after hs = do v ← find_header (codes "retry-after") hs; parse_unsigned (2 ^ 64) (trim v)

abbrev pub ws_guid : Text
ws_guid = codes "258EAFA5-E914-47DA-95CA-C5AB0DC85B11"

-- `Mode::name`, and what the handshake says without a mode.
abbrev pub mode_name : Option Mode → Text
mode_name none = codes "none"
mode_name (some Mode.nitro) = nitro_extension
mode_name (some (Mode.standard flag)) = standard_extension

abbrev pub failing {ℓ} : {A : Type ℓ} {E : Type 0} → (E → Failure) → Result E A → Result Failure A
failing fault (Result.err e) = Result.err (fault e)
failing fault (Result.ok a) = Result.ok a

module _ (flate : Flate) (decompress : flate.D) (from_utf8 : List ℕ → Option Text)
    (sha1 : List ℕ → List ℕ) (encode : List ℕ → Text) where
  -- What `connect` makes: the client, its buffer and the reads that are left, and the handshake.
  pub record Connection : Type 0 where
    pub client : Client flate
    pub buf : List ℕ
    pub reads : List (List ℕ)
    pub handshake : Handshake

  -- The accept header that the key asks for.
  pub expected : Text → Text
  expected key = encode (sha1 (key ++ ws_guid))

  pub accepted : Text → Headers → Bool
  accepted key hs = elim (find_header (codes "sec-websocket-accept") hs) [
    | none ↦ false
    | some v ↦ text_eq v (expected key)
  ]

  pub chosen_mode : Config → Headers → Result Failure (Option Mode)
  chosen_mode cfg hs = elim (find_header (codes "sec-websocket-extensions") hs) [
    | none ↦ Result.ok none
    | some v ↦ failing Failure.extension (negotiated_mode v cfg.offer)
  ]

  pub chosen_inflater : Config → Option Mode → Result Failure (Option (Inflater flate))
  chosen_inflater cfg none = Result.ok none
  chosen_inflater cfg (some mode) =
      failing Failure.inflating (new_inflater flate decompress mode cfg.max_message) and_then λ inf.
      Result.ok (some inf)

  -- From the headers on, once the status is 101.
  pub opened : Config → Text → Headers → List ℕ → List (List ℕ) → Result Failure Connection
  opened cfg key hs buf reads =
      if not (accepted key hs)
      then Result.err Failure.bad_accept
      else (chosen_mode cfg hs and_then λ mode. chosen_inflater cfg mode and_then λ inflater.
          Result.ok (record {
            client = record { inflater = inflater; in_progress = none; max = cfg.max_message };
            buf = buf;
            reads = reads;
            handshake = record { compression = mode_name mode; server_headers = hs };
          }))

  -- From the lines of the head on.
  pub answered :
      Config → Text → Text → List Text → List ℕ → List (List ℕ) → Result Failure Connection
  answered cfg key status_line lines buf reads =
      let hs = headers_of lines in
      if not (status_of status_line == 101)
      then Result.err (
          Failure.rejected (record {
            status = status_of status_line;
            reason = status_line;
            retry_after = retry_after hs;
          }))
      else opened cfg key hs buf reads

  -- From the request on.
  pub upgrade : Config → Text → List (List ℕ) → Result Failure Connection
  upgrade cfg key reads = read_head [] reads and_then λ (head, buf, later). elim (from_utf8 head) [
    | none ↦ Result.err Failure.not_text
    | some text ↦ elim (split_lines text) [
      | [] ↦ answered cfg key [] [] buf later
      | line ∷ lines ↦ answered cfg key line lines buf later
    ]
  ]

  -- The whole of `connect`, with what it writes: nothing for a URL that it refuses.
  pub connect : Config → Text → Text → List (List ℕ) → Text × Result Failure Connection
  connect cfg key version reads = elim (parse_url cfg.url) [
    | Result.err e ↦ ([], Result.err (Failure.bad_url e))
    | Result.ok url ↦ (request url cfg key version, upgrade cfg key reads)
  ]
