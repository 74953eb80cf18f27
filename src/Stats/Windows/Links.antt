-- ===== src/Stats/Windows/Links.antt =====
-- What the `Connected` and `Disconnected` branches of `on_event` of src/stats.rs do to the flags and
-- the count of reconnects of each source.
use robinhood_feed_bench.Common.{
  ℕ, ◌+◌, ◌%◌, ◌<◌, ◌≡◌, ◌≢◌, ap, ◌∙◌, Bool, true, false, some, get_elem?, if◌then◌else◌,
  Bool-cases, inl, inr, arith, Ensures, Ensures-get, Ensures-update, get_elem?-set_ne,
  get_elem?-set_self,
}
use robinhood_feed_bench.Common.Texts.{Text}
use robinhood_feed_bench.Stats.{Collector, u32_mod}
use robinhood_feed_bench.Stats.Wf.{IsWf}
use robinhood_feed_bench.Stats.Windows.{on_connected, on_disconnected}

-- Whether source `i` is connected, whether it ever was, and its reconnects.
abbrev pub Link : ℕ → Bool → Bool → ℕ → Collector → Type 0
Link i up ever r c =
    (get_elem? c.connected i ≡ some up)
    × (get_elem? c.ever_connected i ≡ some ever)
    × (get_elem? c.reconnects i ≡ some r)

module _ (c : Collector) (s t : ℕ) {n : ℕ} (wf : IsWf n c) (lt : s < n) where
  pub on_connected-other :
      (detail : Text) (i : ℕ) (up ever : Bool) (r : ℕ)
      → s ≢ i
      → Link i up ever r c
      → Ensures (λ q. Link i up ever r q.0) (on_connected c s t detail)
  unfolding on_connected
  on_connected-other detail i up ever r ne link =
      Ensures-get _ _ c.connected s (omega (arith, wf.sizes)) λ was _.
        Ensures-update _ _ c.details s (omega (arith, wf.sizes)) _ λ _ _. elim (Bool-cases was) [
          | inl was_up ↦ rw was_up link
          | inr was_down ↦ rw was_down (
              Ensures-get _ _ c.ever_connected s (omega (arith, wf.sizes)) λ again _.
                Ensures-update _ _ c.reconnects s (omega (arith, wf.sizes)) _ λ _ _.
                  Ensures-update _ _ c.connected s (omega (arith, wf.sizes)) _ λ _ _.
                    Ensures-update _ _ c.ever_connected s (omega (arith, wf.sizes)) _ λ _ _. (
                      get_elem?-set_ne c.connected true ne ∙ link.0,
                      get_elem?-set_ne c.ever_connected true ne ∙ link.1,
                      get_elem?-set_ne c.reconnects _ ne ∙ link.2,
                    ))
        ]

  -- A source that was down goes up, with a reconnect unless this is the first time.
  pub on_connected-up :
      (detail : Text) (ever : Bool) (r : ℕ)
      → Link s false ever r c
      → Ensures
          (λ q. Link s true true (if ever then (r + 1) % u32_mod else r) q.0)
          (on_connected c s t detail)
  unfolding on_connected
  on_connected-up detail ever r link = rw link.0 (
      Ensures-update _ _ c.details s (omega (arith, wf.sizes)) _ λ _ _. rw link.1 (
        Ensures-update _ _ c.reconnects s (omega (arith, wf.sizes)) _ λ k got.
          Ensures-update _ _ c.connected s (omega (arith, wf.sizes)) _ λ _ _.
            Ensures-update _ _ c.ever_connected s (omega (arith, wf.sizes)) _ λ _ _.
              let same : k ≡ r = cc in
              (
                get_elem?-set_self c.connected s true (omega (arith, wf.sizes)),
                get_elem?-set_self c.ever_connected s true (omega (arith, wf.sizes)),
                get_elem?-set_self c.reconnects s _ (omega (arith, wf.sizes))
                    ∙ ap (λ j. some (if ever then (j + 1) % u32_mod else j)) same,
              )))

  pub on_disconnected-other :
      (reason : Text) (i : ℕ) (up ever : Bool) (r : ℕ)
      → s ≢ i
      → Link i up ever r c
      → Ensures (λ q. Link i up ever r q.0) (on_disconnected c s t reason)
  unfolding on_disconnected
  on_disconnected-other reason i up ever r ne link =
      Ensures-get _ _ c.connected s (omega (arith, wf.sizes)) λ was _.
        Ensures-update _ _ c.connected s (omega (arith, wf.sizes)) _ λ _ _. elim (Bool-cases was) [
          | inl was_up ↦ rw was_up (get_elem?-set_ne c.connected false ne ∙ link.0, link.1, link.2)
          | inr was_down ↦ rw was_down link
        ]

  -- A source that was up goes down.
  pub on_disconnected-down :
      (reason : Text) (ever : Bool) (r : ℕ)
      → Link s true ever r c
      → Ensures (λ q. Link s false ever r q.0) (on_disconnected c s t reason)
  unfolding on_disconnected
  on_disconnected-down reason ever r link = rw link.0 (
      Ensures-update _ _ c.connected s (omega (arith, wf.sizes)) _
        λ _ _. (get_elem?-set_self c.connected s false (omega (arith, wf.sizes)), link.1, link.2))
