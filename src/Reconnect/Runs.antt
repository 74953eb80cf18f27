-- ===== src/Reconnect/Runs.antt =====
-- Waits of the reconnect loops.
use robinhood_feed_bench.Common.{
  ℕ, ◌*◌, ◌^◌, ◌≡◌, min, true, List, [], ◌∷◌, some, get_elem?, length,
}
use robinhood_feed_bench.Common.Texts.{codes}
use robinhood_feed_bench.Ws.Negotiation.{second}
use robinhood_feed_bench.Reconnect.{Ended, eira_run, eira_run-waits}

abbrev ends : List Ended
ends =
    Ended.failed (codes "stream ended") 5 true
    ∷ Ended.failed (codes "transport error") 9 true
    ∷ Ended.gone
    ∷ []

eira_run-waits_example :
    (let r = eira_run 2 second ends in
      (length r.0 ≡ length r.1)
      × ((i w : ℕ) → get_elem? r.0 i ≡ some w → w ≡ min (2 ^ i * second) (30 * second)))
eira_run-waits_example = eira_run-waits ends 2
