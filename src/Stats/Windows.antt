-- ===== src/Stats/Windows.antt =====
-- src/stats.rs: the `Connected` and `Disconnected` branches of `on_event`, and the windows in
-- which every source is connected.
pub mod Order
pub mod Keeps
pub mod Times
pub mod Links
pub mod Clock
pub mod Timely
use robinhood_feed_bench.Common.{
  ℕ, zero, suc, ◌+◌, ◌%◌, Bool, true, false, not, ◌&&◌, ◌||◌, List, [], ◌∷◌, ◌++◌, Option, none,
  some, get_elem?, update, ltb, leb, if◌then◌else◌, ◌>>=◌, is_some,
}
use robinhood_feed_bench.Common.Texts.{Text}
use robinhood_feed_bench.Event.{Instant, later}
use robinhood_feed_bench.Stats.{Windows, Collector, Notice, Step, u32_mod}

abbrev pub all_true : List Bool → Bool
all_true [] = true
all_true (b ∷ bs) = b && all_true bs

-- `all_up.last().is_none_or(|(_, end)| end.is_some())`
abbrev pub last_closed : Windows → Bool
last_closed [] = true
last_closed ((a, b) ∷ []) = is_some b
last_closed (w ∷ v ∷ ws) = last_closed (v ∷ ws)

-- `if let Some(last) = all_up.last_mut() && last.1.is_none() { last.1 = Some(t) }`
abbrev pub close_last : Instant → Windows → Windows
close_last t [] = []
close_last t ((a, none) ∷ []) = (a, some t) ∷ []
close_last t ((a, some b) ∷ []) = (a, some b) ∷ []
close_last t (w ∷ v ∷ ws) = w ∷ close_last t (v ∷ ws)

unfoldable pub on_connected : Collector → ℕ → Instant → Text → Step
on_connected c s t detail = do
  up ← get_elem? c.connected s
  details ← update c.details s (λ _. detail)
  if up then some (record c { details = details }, none) else do
    reconnect ← get_elem? c.ever_connected s
    reconnects ← update c.reconnects s (λ r. if reconnect then (r + 1) % u32_mod else r)
    connected ← update c.connected s (λ _. true)
    ever_connected ← update c.ever_connected s (λ _. true)
    let opens = all_true connected && last_closed c.all_up
    some (
      record c {
        reconnects = reconnects;
        connected = connected;
        ever_connected = ever_connected;
        details = details;
        all_up = if opens then c.all_up ++ ((t, none) ∷ []) else c.all_up;
      },
      some (Notice.connected s detail reconnect),
    )

unfoldable pub on_disconnected : Collector → ℕ → Instant → Text → Step
on_disconnected c s t reason = do
  up ← get_elem? c.connected s
  connected ← update c.connected s (λ _. false)
  if not up
      then some (c, none)
      else some (
        record c { connected = connected; all_up = close_last t c.all_up },
        some (Notice.disconnected s reason),
      )

-- `self.all_up.iter().any(|(a, b)| t >= *a + self.warmup && b.is_none_or(|b| t < b))`
abbrev pub before_end : Instant → Option Instant → Bool
before_end t none = true
before_end t (some b) = ltb t b

-- `none` is the panic of a sum that overflows.
unfoldable pub try_in_windows : ℕ → Instant → Windows → Option Bool
try_in_windows warmup t [] = some false
try_in_windows warmup t ((a, b) ∷ ws) = do
  begin ← later a warmup
  let rest = try_in_windows warmup t ws
  if leb begin t && before_end t b then some true else rest

unfoldable pub try_in_window : Collector → Instant → Option Bool
try_in_window c t = try_in_windows c.warmup t c.all_up

-- The answer when no sum overflows: see Timely.
unfoldable pub in_windows : ℕ → Instant → Windows → Bool
in_windows warmup t [] = false
in_windows warmup t ((a, b) ∷ ws) = leb (a + warmup) t && before_end t b || in_windows warmup t ws

unfoldable pub in_window : Collector → Instant → Bool
unfolding in_windows
in_window c t = in_windows c.warmup t c.all_up
