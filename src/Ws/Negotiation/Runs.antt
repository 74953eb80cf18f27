-- ===== src/Ws/Negotiation/Runs.antt =====
-- The replies of the unit test of src/ws.rs.
use robinhood_feed_bench.Common.{◌≡◌, refl, false, some}
use robinhood_feed_bench.Common.Texts.{codes}
use robinhood_feed_bench.Common.Results.{Result}
use robinhood_feed_bench.Common.Splits.{split}
use robinhood_feed_bench.Inflate.{Mode}
use robinhood_feed_bench.Ws.Negotiation.{
  Offer, negotiated_mode, read_extensions, read_extension, read_parameters,
}

nitro_reply :
    negotiated_mode
      (codes "Arbitrum-permessage-deflate; server_no_context_takeover; client_no_context_takeover")
      Offer.auto
    ≡ Result.ok (some Mode.nitro)
unfolding negotiated_mode read_extensions read_extension read_parameters split
nitro_reply = refl

standard_reply :
    negotiated_mode (codes "permessage-deflate; server_max_window_bits=15") Offer.auto
    ≡ Result.ok (some (Mode.standard false))
unfolding negotiated_mode read_extensions read_extension read_parameters split
standard_reply = refl
