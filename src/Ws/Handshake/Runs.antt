-- ===== src/Ws/Handshake/Runs.antt =====
-- A handshake with a server that agrees to the standard compression, and one that asks to wait.
use robinhood_feed_bench.Common.{ℕ, ◌≡◌, refl, List, [], ◌∷◌, ◌++◌, some, true, take, drop, arith}
use robinhood_feed_bench.Common.Texts.{codes, join}
use robinhood_feed_bench.Common.Decimal.{decimal}
use robinhood_feed_bench.Inflate.Runs.{copy}
use robinhood_feed_bench.Ws.Negotiation.{Offer, header_value}
use robinhood_feed_bench.Ws.Url.{host_header}
use robinhood_feed_bench.Ws.Handshake.{Config, request, upgrade, crlf}
use robinhood_feed_bench.Ws.Handshake.Reads.{blank, joined}
use robinhood_feed_bench.Ws.Handshake.Answer.{Response, IsResponse, print_head}
use robinhood_feed_bench.Ws.Handshake.Upgrade.{outcome, upgrade-outcome}
use robinhood_feed_bench.Ws.Handshake.Trusted.{Trusted, upgrade-Trusted}

abbrev config : Config
config = record {
  url = codes "wss://h/feed";
  headers = (codes "X-Key", codes "1") ∷ [];
  offer = Offer.standard;
  max_message = 100;
  ping_every = 20;
  read_timeout = 60;
}

written :
    request
      (record { tls = true; host = codes "h"; port = 443; path = codes "/feed" })
      config
      (codes "k")
      (codes "0.1.0")
    ≡ join crlf (
        codes "GET /feed HTTP/1.1"
        ∷ codes "Host: h"
        ∷ codes "Upgrade: websocket"
        ∷ codes "Connection: Upgrade"
        ∷ codes "Sec-WebSocket-Key: k"
        ∷ codes "Sec-WebSocket-Version: 13"
        ∷ codes
            "Sec-WebSocket-Extensions: permessage-deflate; server_no_context_takeover; client_no_context_takeover"
        ∷ codes "X-Key: 1"
        ∷ codes "User-Agent: feedbench/0.1.0"
        ∷ []
        ∷ []
        ∷ [])
unfolding request host_header header_value
written = refl

abbrev agreed : Response
agreed = record {
  status = 101;
  reason = codes "Switching Protocols";
  headers =
      (codes "sec-websocket-accept", codes "k258EAFA5-E914-47DA-95CA-C5AB0DC85B11")
      ∷ (codes "sec-websocket-extensions", codes "permessage-deflate")
      ∷ [];
}

abbrev agreed_bytes : List ℕ
agreed_bytes = print_head agreed ++ (blank ++ (130 ∷ 1 ∷ 7 ∷ []))

abbrev reads : List (List ℕ)
reads = take 40 agreed_bytes ∷ drop 40 agreed_bytes ∷ []

agreed-IsResponse : IsResponse agreed
agreed-IsResponse = record {
  in_u16 = omega arith;
  one_line = ground arith;
  headers_in = (
    (ground arith, ground arith, ground arith, refl, refl),
    ((ground arith, ground arith, ground arith, refl, refl), tt),
  );
}

upgrade-outcome_example :
    (buf : List ℕ) × (later : List (List ℕ)) × (buf ++ joined later ≡ 130 ∷ 1 ∷ 7 ∷ [])
    × (upgrade copy 0 some (λ b. b) (λ b. b) config (codes "k") reads
        ≡ outcome copy 0 some (λ b. b) (λ b. b) config (codes "k") agreed buf later)
unfolding decimal
upgrade-outcome_example =
    upgrade-outcome copy 0 some (λ b. b) (λ b. b) agreed config (codes "k") (130 ∷ 1 ∷ 7 ∷ []) reads
      agreed-IsResponse refl refl (omega arith) ((λ e. cc), ((λ e. cc), tt))

upgrade-Trusted_example :
    Trusted copy 0 some
      (λ b. b)
      (λ b. b)
      config
      (codes "k")
      (upgrade copy 0 some (λ b. b) (λ b. b) config (codes "k") reads)
upgrade-Trusted_example = upgrade-Trusted copy 0 some (λ b. b) (λ b. b) config (codes "k") reads
