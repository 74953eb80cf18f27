-- ===== src/Stats/Windows/Clock.antt =====
-- Under a clock that does not go back, the connection events of src/stats.rs keep the windows in
-- order.
use robinhood_feed_bench.Common.{
  ℕ, ◌≤◌, ◌<◌, true, set, Bool-cases, inl, inr, arith, Ensures, Ensures-get, Ensures-update,
}
use robinhood_feed_bench.Common.Texts.{Text}
use robinhood_feed_bench.Event.{Instant}
use robinhood_feed_bench.Stats.{Collector}
use robinhood_feed_bench.Stats.Wf.{IsWf}
use robinhood_feed_bench.Stats.Windows.{all_true, last_closed, on_connected, on_disconnected}
use robinhood_feed_bench.Stats.Windows.Order.{
  Ordered, Ordered-later, opened-Ordered, close_last-Ordered,
}

module _ {n : ℕ} (c : Collector) (s : ℕ) (last t : Instant) (wf : IsWf n c) (lt : s < n)
    (ordered : Ordered last c.all_up) (later : last ≤ t) where
  open wf use {sizes}

  pub on_connected-Ordered :
      (detail : Text) → Ensures (λ r. Ordered t r.0.all_up) (on_connected c s t detail)
  unfolding on_connected
  on_connected-Ordered detail =
      let kept = Ordered-later last t c.all_up later ordered in
      Ensures-get _ _ c.connected s (omega arith) λ up _.
        Ensures-update _ _ c.details s (omega arith) (λ _. detail)
          λ _ _. elim (Bool-cases up) [
            | inl again ↦ rw again kept
            | inr fresh ↦ rw fresh (
                Ensures-get _ _ c.ever_connected s (omega arith) λ ever _.
                  Ensures-update _ _ c.reconnects s (omega arith) _ λ r _.
                    Ensures-update _ _ c.connected s (omega arith) _ λ _ _.
                      Ensures-update _ _ c.ever_connected s (omega arith) _ λ _ _.
                        elim (Bool-cases (all_true (set c.connected s true))) [
                          | inr down ↦ rw down kept
                          | inl all ↦ elim (Bool-cases (last_closed c.all_up)) [
                            | inl shut ↦
                                rw (all, shut) (opened-Ordered last t c.all_up later shut ordered)
                            | inr still ↦ rw (all, still) kept
                          ]
                        ])
          ]

  pub on_disconnected-Ordered :
      (reason : Text) → Ensures (λ r. Ordered t r.0.all_up) (on_disconnected c s t reason)
  unfolding on_disconnected
  on_disconnected-Ordered reason = Ensures-get _ _ c.connected s (omega arith) λ up _.
      Ensures-update _ _ c.connected s (omega arith) _ λ _ _. elim (Bool-cases up) [
        | inl was_up ↦ rw was_up (close_last-Ordered last t c.all_up later ordered)
        | inr down ↦ rw down (Ordered-later last t c.all_up later ordered)
      ]
