-- ===== src/Adapter/Sources.antt =====
-- The adapters of src/nitro.rs, src/wsjson.rs and src/wsraw.rs, as what their `run` fills the
-- common loop with. What `run` of src/wsraw.rs prints about the first frame is left out.
use robinhood_feed_bench.Common.{ℕ, ◌*◌, List, [], ◌∷◌, ◌++◌, Option, none, some}
use robinhood_feed_bench.Common.Decimal.{decimal}
use robinhood_feed_bench.Common.Texts.{Text, codes}
use robinhood_feed_bench.Event.{Hash, Stamp}
use robinhood_feed_bench.Specs.{Target, Spec}
use robinhood_feed_bench.Ws.Handshake.{Config, Headers, Handshake, header}
use robinhood_feed_bench.Ws.Negotiation.{Offer, second}
use robinhood_feed_bench.Nitro.{FeedMessage, stamped}
use robinhood_feed_bench.Nitro
use robinhood_feed_bench.WsJson.{Value}
use robinhood_feed_bench.WsJson
use robinhood_feed_bench.WsRaw.Frames
use robinhood_feed_bench.Adapter.{Adapter, Attempt, Action, run}

abbrev pub max_size : ℕ
max_size = 15 * 1024 * 1024

abbrev pub version_header : Text × Text
version_header = (codes "Arbitrum-Feed-Client-Version", codes "2")

abbrev pub cursor_name : Text
cursor_name = codes "Arbitrum-Requested-Sequence-Number"

-- The headers of a connection attempt with this cursor.
unfoldable pub cursor_headers : Option ℕ → Headers
cursor_headers none = version_header ∷ []
cursor_headers (some n) = version_header ∷ (cursor_name, decimal n) ∷ []

abbrev pub config_of : Text → Headers → Offer → Config
config_of url headers offer = record {
  url = url;
  headers = headers;
  offer = offer;
  max_message = max_size;
  ping_every = 20 * second;
  read_timeout = 60 * second;
}

abbrev pub detail_part : Text → Option Text → Text
detail_part label none = []
detail_part label (some v) = label ++ v

pub nitro_detail : Handshake → Text
nitro_detail h =
    codes "compression="
    ++ (h.compression
        ++ (detail_part (codes " server-version=") (header h (codes "arbitrum-feed-server-version"))
            ++ detail_part (codes " chain-id=") (header h (codes "arbitrum-chain-id"))))

-- The state is `next_seq`.
unfoldable pub nitro_adapter :
    (List ℕ → Option (List FeedMessage))
    → (Text → Option (List ℕ))
    → (List ℕ → Hash)
    → ℕ
    → Target
    → Offer
    → Stamp
    → Adapter (Option ℕ)
nitro_adapter from_slice decode keccak256 index src offer stamp = record {
  index = index;
  config = λ next_seq. config_of src.url (cursor_headers next_seq) offer;
  subscribe = none;
  detail = nitro_detail;
  on_message = Nitro.on_message from_slice decode keccak256 index stamp;
}

-- `run` of src/nitro.rs.
unfoldable pub nitro_run :
    (List ℕ → Option (List FeedMessage))
    → (Text → Option (List ℕ))
    → (List ℕ → Hash)
    → ℕ
    → Target
    → Offer
    → Stamp
    → ℕ
    → List Attempt
    → List Action
nitro_run from_slice decode keccak256 index src offer stamp =
    run (nitro_adapter from_slice decode keccak256 index src offer stamp) none second

module _ (from_slice : List ℕ → Option Value) (hex_decode : Text → Option (List ℕ))
    (keccak256 : List ℕ → Hash) where
  unfoldable pub json_adapter : ℕ → Spec → Stamp → Adapter (Unit {0})
  json_adapter index src stamp = record {
    index = index;
    config = λ s. config_of src.url src.headers Offer.standard;
    subscribe = src.subscribe;
    detail = λ h. codes "compression=" ++ (h.compression ++ (codes " path=" ++ src.path));
    on_message = λ s msg. (
      s,
      WsJson.on_message from_slice hex_decode keccak256 index src.path (stamped stamp msg)
          msg.bytes,
    );
  }

  unfoldable pub raw_adapter : ℕ → Spec → Stamp → Adapter (Unit {0})
  raw_adapter index src stamp = record {
    index = index;
    config = λ s. config_of src.url src.headers Offer.standard;
    subscribe = src.subscribe;
    detail = λ h. codes "compression=" ++ (h.compression ++ codes " format=binary-txs");
    on_message = λ s msg.
        (s, Frames.on_frame from_slice hex_decode keccak256 index (stamped stamp msg) msg.bytes);
  }

  -- `run` of src/wsjson.rs, and of src/wsraw.rs.
  unfoldable pub json_run : ℕ → Spec → Stamp → ℕ → List Attempt → List Action
  json_run index src stamp = run (json_adapter index src stamp) tt second

  unfoldable pub raw_run : ℕ → Spec → Stamp → ℕ → List Attempt → List Action
  raw_run index src stamp = run (raw_adapter index src stamp) tt second
