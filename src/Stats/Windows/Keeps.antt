-- ===== src/Stats/Windows/Keeps.antt =====
-- The connection branches of `on_event` of src/stats.rs keep the collector's invariant.
use robinhood_feed_bench.Common.{
  Option, ℕ, zero, suc, ◌+◌, ◌%◌, ◌<◌, ◌≡◌, refl, ap, ◌∙◌, Bool, true, false, List, [], ◌∷◌, some,
  length, get_elem?, set, length-set, Ensures-get, Ensures-update, if◌then◌else◌, arith, Bool-cases,
  inl, inr,
}
use robinhood_feed_bench.Common.Texts.{Text}
use robinhood_feed_bench.Event.{Instant}
use robinhood_feed_bench.Stats.{Collector, Notice, u32_mod}
use robinhood_feed_bench.Stats.Windows.{all_true, on_connected, on_disconnected}
use robinhood_feed_bench.Stats.Windows.Order.{
  last_closed-opened, last_closed-close_last, opened-OnlyLastOpen, close_last-OnlyLastOpen,
}
use robinhood_feed_bench.Stats.Wf.{IsWf, Keeps}

pub all_true-down : (bs : List Bool) (s : ℕ) → get_elem? bs s ≡ some false → all_true bs ≡ false
all_true-down [] s h = cc
all_true-down (b ∷ bs) zero h = ground arith
all_true-down (b ∷ bs) (suc s) h = ground (arith, all_true-down bs s h)

all_true-set_down : (bs : List Bool) (s : ℕ) → s < length bs → all_true (set bs s false) ≡ false
all_true-set_down [] s h = absurd (omega arith)
all_true-set_down (b ∷ bs) zero h = refl
all_true-set_down (b ∷ bs) (suc s) h = ground (arith, all_true-set_down bs s)

module _ {n : ℕ} (c : Collector) (s : ℕ) (t : Instant) (wf : IsWf n c) (lt : s < n) where
  open wf use {sizes}

  pub on_connected-Keeps : (detail : Text) → Keeps n c (on_connected c s t detail)
  unfolding on_connected
  on_connected-Keeps detail = Ensures-get _ _ c.connected s (omega arith) λ up was_up.
      Ensures-update _ _ c.details s (omega arith) (λ _. detail)
        λ _ _. elim (Bool-cases up) [
          | inl again ↦ rw again (ground (arith, length-set c.details s detail), omega arith)
          | inr fresh ↦
              let was_down : get_elem? c.connected s ≡ some false = was_up ∙ ap some fresh in
              rw fresh (
                Ensures-get _ _ c.ever_connected s (omega arith) λ ever _.
                  Ensures-update _ _ c.reconnects s (omega arith) _ λ r _.
                    Ensures-update _ _ c.connected s (omega arith) _ λ _ _.
                      Ensures-update _ _ c.ever_connected s (omega arith) _ λ _ _. (
                        ground (
                          arith,
                          length-set c.details s detail,
                          length-set c.connected s true,
                          length-set c.ever_connected s true,
                          length-set c.reconnects s (if ever then (r + 1) % u32_mod else r),
                          all_true-down c.connected s was_down,
                          last_closed-opened t c.all_up,
                          opened-OnlyLastOpen t c.all_up,
                        ),
                        omega arith,
                      ))
        ]

  pub on_disconnected-Keeps : (reason : Text) → Keeps n c (on_disconnected c s t reason)
  unfolding on_disconnected
  on_disconnected-Keeps reason = Ensures-get _ _ c.connected s (omega arith) λ up _.
      Ensures-update _ _ c.connected s (omega arith) _ λ _ _. elim (Bool-cases up) [
        | inl was_up ↦ rw was_up (
          ground (
            arith,
            length-set c.connected s false,
            all_true-set_down c.connected s (omega arith),
            last_closed-close_last t c.all_up,
            close_last-OnlyLastOpen t c.all_up,
          ),
          omega arith,
        )
        | inr down ↦ rw down (wf, omega arith)
      ]

pub on_connected-blocks :
    (c : Collector) (s t : ℕ) (detail : Text) {q : Collector × Option Notice}
    → on_connected c s t detail ≡ some q
    → q.0.blocks ≡ c.blocks
unfolding on_connected
on_connected-blocks c s t detail h = ground arith

pub on_disconnected-blocks :
    (c : Collector) (s t : ℕ) (reason : Text) {q : Collector × Option Notice}
    → on_disconnected c s t reason ≡ some q
    → q.0.blocks ≡ c.blocks
unfolding on_disconnected
on_disconnected-blocks c s t reason h = ground arith

pub on_connected-reference :
    (c : Collector) (s t : ℕ) (detail : Text) {q : Collector × Option Notice}
    → on_connected c s t detail ≡ some q
    → q.0.reference ≡ c.reference
unfolding on_connected
on_connected-reference c s t detail h = ground arith

pub on_disconnected-reference :
    (c : Collector) (s t : ℕ) (reason : Text) {q : Collector × Option Notice}
    → on_disconnected c s t reason ≡ some q
    → q.0.reference ≡ c.reference
unfolding on_disconnected
on_disconnected-reference c s t reason h = ground arith
