-- ===== src/Stats/Windows/Times.antt =====
-- What `in_window` of src/stats.rs says of an instant after a connection event: later instants
-- follow the connections, earlier ones keep their answer.
use robinhood_feed_bench.Common.{
  ℕ, ◌+◌, ◌≤◌, ◌<◌, ◌≡◌, refl, ap, ◌∙◌, true, false, not, ◌&&◌, [], ◌∷◌, none, some, get_elem?, set,
  leb, Ensures, Ensures-get, Ensures-update, arith, Bool-cases, inl, inr,
}
use robinhood_feed_bench.Common.Texts.{Text}
use robinhood_feed_bench.Event.{Instant}
use robinhood_feed_bench.Stats.{Windows, Collector}
use robinhood_feed_bench.Stats.Wf.{IsWf}
use robinhood_feed_bench.Stats.Windows.{
  all_true, last_closed, close_last, in_windows, in_window, on_connected, on_disconnected,
}
use robinhood_feed_bench.Stats.Windows.Order.{
  Ordered, Ordered-later, opened, opened-Ordered, close_last-Ordered, last_closed-close_last,
  in_windows-past, in_windows-opened,
}
use robinhood_feed_bench.Stats.Windows.Keeps.{all_true-down}

pub in_window-same :
    (d c : Collector) (u : ℕ)
    → d.all_up ≡ c.all_up
    → d.warmup ≡ c.warmup
    → in_window d u ≡ in_window c u
unfolding in_window
in_window-same d c u same_windows same_warmup = rw (same_windows, same_warmup)

opened-before :
    (warmup t u : ℕ) (ws : Windows)
    → u < t
    → in_windows warmup u (opened t ws) ≡ in_windows warmup u ws
unfolding in_windows
opened-before warmup t u [] h = ground arith
opened-before warmup t u (w ∷ ws) h = ground (arith, opened-before warmup t u ws h)

close_last-before :
    (warmup t u : ℕ) (ws : Windows)
    → u < t
    → in_windows warmup u (close_last t ws) ≡ in_windows warmup u ws
unfolding in_windows
close_last-before warmup t u [] h = refl
close_last-before warmup t u ((a, none) ∷ []) h = ground arith
close_last-before warmup t u ((a, some b) ∷ []) h = refl
close_last-before warmup t u (w ∷ v ∷ ws) h =
    ground (arith, close_last-before warmup t u (v ∷ ws) h)

module _ {n : ℕ} (c : Collector) (s : ℕ) (now t u : Instant) (wf : IsWf n c) (lt : s < n)
    (ordered : Ordered now c.all_up) (later : now ≤ t) (past : t ≤ u) where
  open wf use {sizes}

  none_open : all_true c.connected ≡ false → in_windows c.warmup u c.all_up ≡ false
  none_open down =
      in_windows-past c.warmup now u c.all_up ordered (wf.last_window ∙ ap not down) (omega arith)

  -- A known source that was not connected connects at `t`, when the windows so far are in order and
  -- none is later than `t`: an instant from `t` on is then in the window just when all sources are
  -- connected and the warm-up after `t` is over, and the windows are in order again.
  pub on_connected-in_window :
      (detail : Text)
      → get_elem? c.connected s ≡ some false
      → Ensures
          (λ r.
            Ordered t r.0.all_up
            × (in_window r.0 u ≡ all_true r.0.connected && leb (t + c.warmup) u))
          (on_connected c s t detail)
  unfolding on_connected in_window
  on_connected-in_window detail down =
      let shut = wf.last_window ∙ ap not (all_true-down c.connected s down) in
      let now_open = in_windows-opened c.warmup now t u c.all_up ordered shut (omega arith) in
      let before = none_open (all_true-down c.connected s down) in
      let open_order = opened-Ordered now t c.all_up later shut ordered in
      let kept_order = Ordered-later now t c.all_up later ordered in
      rw down (
        Ensures-update _ _ c.details s (omega arith) (λ _. detail)
          λ _ _. Ensures-get _ _ c.ever_connected s (omega arith) λ ever _.
            Ensures-update _ _ c.reconnects s (omega arith) _ λ r _.
              Ensures-update _ _ c.connected s (omega arith) _ λ _ _.
                Ensures-update _ _ c.ever_connected s (omega arith) _ λ _ _.
                  elim (Bool-cases (all_true (set c.connected s true))) [
                    | inl all ↦ rw (all, shut) (open_order, now_open)
                    | inr some_down ↦ rw some_down (kept_order, before)
                  ])

  -- A `Disconnected` event of a known source at `t`, when the windows so far are in order and none is
  -- later than `t`: no instant from `t` on is then in the window, and the windows are in order again.
  pub on_disconnected-in_window :
      (reason : Text)
      → Ensures
          (λ r. Ordered t r.0.all_up × (in_window r.0 u ≡ false))
          (on_disconnected c s t reason)
  unfolding on_disconnected in_window
  on_disconnected-in_window reason = Ensures-get _ _ c.connected s (omega arith) λ up was_up.
      Ensures-update _ _ c.connected s (omega arith) _ λ _ _. elim (Bool-cases up) [
        | inl still ↦
            let ended = close_last-Ordered now t c.all_up later ordered in
            rw still (
              ended,
              in_windows-past c.warmup t u (close_last t c.all_up) ended
                  (last_closed-close_last t c.all_up) past,
            )
        | inr was_down ↦ rw was_down (
          Ordered-later now t c.all_up later ordered,
          none_open (all_true-down c.connected s (was_up ∙ ap some was_down)),
        )
      ]

-- The answer for an instant before the event is settled.
module _ {n : ℕ} (c : Collector) (s : ℕ) (t u : Instant) (wf : IsWf n c) (lt : s < n)
    (early : u < t) where
  open wf use {sizes}

  pub on_connected-settled :
      (detail : Text) → Ensures (λ r. in_window r.0 u ≡ in_window c u) (on_connected c s t detail)
  unfolding on_connected in_window
  on_connected-settled detail = Ensures-get _ _ c.connected s (omega arith) λ up was_up.
      Ensures-update _ _ c.details s (omega arith) (λ _. detail)
        λ _ _. elim (Bool-cases up) [
          | inl again ↦ rw again refl
          | inr fresh ↦ rw fresh (
              Ensures-get _ _ c.ever_connected s (omega arith) λ ever _.
                Ensures-update _ _ c.reconnects s (omega arith) _ λ r _.
                  Ensures-update _ _ c.connected s (omega arith) _ λ _ _.
                    Ensures-update _ _ c.ever_connected s (omega arith) _ λ _ _.
                      elim (Bool-cases
                        (all_true (set c.connected s true) && last_closed c.all_up)) [
                          | inl opens ↦ rw opens (opened-before c.warmup t u c.all_up early)
                          | inr stays ↦ rw stays refl
                        ])
        ]

  pub on_disconnected-settled :
      (reason : Text)
      → Ensures (λ r. in_window r.0 u ≡ in_window c u) (on_disconnected c s t reason)
  unfolding on_disconnected in_window
  on_disconnected-settled reason = Ensures-get _ _ c.connected s (omega arith) λ up was_up.
      Ensures-update _ _ c.connected s (omega arith) _ λ _ _. elim (Bool-cases up) [
        | inl still ↦ rw still (close_last-before c.warmup t u c.all_up early)
        | inr was_down ↦ rw was_down refl
      ]
