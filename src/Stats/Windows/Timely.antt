-- ===== src/Stats/Windows/Timely.antt =====
-- No sum of `in_window` of src/stats.rs overflows when the warm-up after every window's start is a
-- time that the clock can tell.
use robinhood_feed_bench.Common.{
  ℕ, ◌+◌, ◌≤◌, ◌≡◌, ◌⊎◌, refl, sym, subst, ◌∙◌, List, [], ◌∷◌, ◌++◌, Option, none, some, All, leb,
  Bool-cases, inl, inr, ◌&&◌, arith,
}
use robinhood_feed_bench.Common.Texts.{Text}
use robinhood_feed_bench.Event.{Instant, latest, later}
use robinhood_feed_bench.Stats.{SourceInfo, Windows, Collector, Notice}
use robinhood_feed_bench.Stats.Windows.{
  close_last, before_end, in_windows, in_window, try_in_windows, try_in_window, on_connected,
  on_disconnected,
}

abbrev pub Timely : ℕ → Windows → Type 0
Timely warmup = All (λ w. w.0 + warmup ≤ latest)

pub later-some : (t d : ℕ) → t + d ≤ latest → later t d ≡ some (t + d)
unfolding later
later-some t d h = ground arith

pub try_in_windows-some :
    (warmup t : ℕ) (ws : Windows)
    → Timely warmup ws
    → try_in_windows warmup t ws ≡ some (in_windows warmup t ws)
unfolding try_in_windows in_windows
try_in_windows-some warmup t [] h = refl
try_in_windows-some warmup t ((a, b) ∷ ws) h =
    rw (later-some a warmup h.0, try_in_windows-some warmup t ws h.1)
      (elim (Bool-cases (leb (a + warmup) t && before_end t b)) [
        | inl inside ↦ rw inside refl
        | inr outside ↦ rw outside refl
      ])

pub try_in_window-some :
    (c : Collector) (t : Instant)
    → Timely c.warmup c.all_up
    → try_in_window c t ≡ some (in_window c t)
unfolding try_in_window in_window
try_in_window-some c t h = try_in_windows-some c.warmup t c.all_up h

Timely-opened :
    (warmup t : ℕ) (ws : Windows)
    → t + warmup ≤ latest
    → Timely warmup ws
    → Timely warmup (ws ++ ((t, none) ∷ []))
Timely-opened warmup t [] h k = (h, tt)
Timely-opened warmup t (w ∷ ws) h k = (k.0, Timely-opened warmup t ws h k.1)

Timely-close_last :
    (warmup t : ℕ) (ws : Windows) → Timely warmup ws → Timely warmup (close_last t ws)
Timely-close_last warmup t [] h = tt
Timely-close_last warmup t ((a, none) ∷ []) h = h
Timely-close_last warmup t ((a, some b) ∷ []) h = h
Timely-close_last warmup t (w ∷ v ∷ ws) h = (h.0, Timely-close_last warmup t (v ∷ ws) h.1)

-- What a run keeps of the warm-up, the sources and the windows.
abbrev pub Runs : ℕ → List SourceInfo → Collector → Type 0
Runs warmup sources c = (c.warmup ≡ warmup) × (c.sources ≡ sources) × Timely warmup c.all_up

pub connected-cases :
    (c : Collector) (s t : ℕ) (detail : Text) {q : Collector × Option Notice}
    → on_connected c s t detail ≡ some q
    → (q.0.warmup ≡ c.warmup)
      × (q.0.sources ≡ c.sources)
      × ((q.0.all_up ≡ c.all_up) ⊎ (q.0.all_up ≡ c.all_up ++ ((t, none) ∷ [])))
unfolding on_connected
connected-cases c s t detail h = ground arith

pub disconnected-cases :
    (c : Collector) (s t : ℕ) (reason : Text) {q : Collector × Option Notice}
    → on_disconnected c s t reason ≡ some q
    → (q.0.warmup ≡ c.warmup)
      × (q.0.sources ≡ c.sources)
      × ((q.0.all_up ≡ c.all_up) ⊎ (q.0.all_up ≡ close_last t c.all_up))
unfolding on_disconnected
disconnected-cases c s t reason h = ground arith

-- A step that keeps the windows or replaces them by others.
pub Runs-step :
    (warmup : ℕ) (sources : List SourceInfo) (c d : Collector) (ws : Windows)
    → Runs warmup sources c
    → d.warmup ≡ c.warmup
    → d.sources ≡ c.sources
    → (d.all_up ≡ c.all_up) ⊎ (d.all_up ≡ ws)
    → (Timely warmup c.all_up → Timely warmup ws)
    → Runs warmup sources d
Runs-step warmup sources c d ws h e f (inl same) k =
    (e ∙ h.0, f ∙ h.1, subst (Timely warmup) (sym same) h.2)
Runs-step warmup sources c d ws h e f (inr moved) k =
    (e ∙ h.0, f ∙ h.1, subst (Timely warmup) (sym moved) (k h.2))

pub on_connected-Runs :
    (warmup : ℕ) (sources : List SourceInfo) (c : Collector) (s t : ℕ) (detail : Text)
    {q : Collector × Option Notice}
    → t + warmup ≤ latest
    → Runs warmup sources c
    → on_connected c s t detail ≡ some q
    → Runs warmup sources q.0
on_connected-Runs warmup sources c s t detail {q} lt h e =
    let (same, kept, windows) = connected-cases c s t detail e in
    Runs-step warmup sources c q.0 _ h same kept windows (Timely-opened warmup t c.all_up lt)

pub on_disconnected-Runs :
    (warmup : ℕ) (sources : List SourceInfo) (c : Collector) (s t : ℕ) (reason : Text)
    {q : Collector × Option Notice}
    → Runs warmup sources c
    → on_disconnected c s t reason ≡ some q
    → Runs warmup sources q.0
on_disconnected-Runs warmup sources c s t reason {q} h e =
    let (same, kept, windows) = disconnected-cases c s t reason e in
    Runs-step warmup sources c q.0 _ h same kept windows (Timely-close_last warmup t c.all_up)
