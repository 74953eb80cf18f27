-- ===== src/Stats/Windows/Order.antt =====
-- The windows of src/stats.rs: at most the last is open, and under a clock that does not go back
-- they follow one another.
use robinhood_feed_bench.Common.{
  ℕ, ◌+◌, ◌≤◌, ◌≡◌, refl, true, false, [], ◌∷◌, ◌++◌, none, some, leb, is_some, arith,
}
use robinhood_feed_bench.Event.{Instant}
use robinhood_feed_bench.Stats.{Windows}
use robinhood_feed_bench.Stats.Windows.{last_closed, close_last, in_windows}

-- Every window but the last has an end.
abbrev pub OnlyLastOpen : Windows → Type 0
OnlyLastOpen [] = Unit {0}
OnlyLastOpen (w ∷ []) = Unit {0}
OnlyLastOpen ((a, b) ∷ v ∷ ws) = (is_some b ≡ true) × OnlyLastOpen (v ∷ ws)

abbrev pub opened : Instant → Windows → Windows
opened t ws = ws ++ ((t, none) ∷ [])

pub last_closed-opened : (t : Instant) (ws : Windows) → last_closed (opened t ws) ≡ false
last_closed-opened t [] = refl
last_closed-opened t (w ∷ []) = refl
last_closed-opened t (w ∷ v ∷ ws) = last_closed-opened t (v ∷ ws)

pub last_closed-close_last : (t : Instant) (ws : Windows) → last_closed (close_last t ws) ≡ true
last_closed-close_last t [] = refl
last_closed-close_last t ((a, none) ∷ []) = refl
last_closed-close_last t ((a, some b) ∷ []) = refl
last_closed-close_last t (w ∷ (a, none) ∷ []) = refl
last_closed-close_last t (w ∷ (a, some b) ∷ []) = refl
last_closed-close_last t (w ∷ v ∷ u ∷ ws) = last_closed-close_last t (v ∷ u ∷ ws)

pub opened-OnlyLastOpen :
    (t : Instant) (ws : Windows)
    → last_closed ws ≡ true
    → OnlyLastOpen ws
    → OnlyLastOpen (opened t ws)
opened-OnlyLastOpen t [] h o = tt
opened-OnlyLastOpen t (w ∷ []) h o = (h, tt)
opened-OnlyLastOpen t (w ∷ v ∷ ws) h o = (o.0, opened-OnlyLastOpen t (v ∷ ws) h o.1)

pub close_last-OnlyLastOpen :
    (t : Instant) (ws : Windows) → OnlyLastOpen ws → OnlyLastOpen (close_last t ws)
close_last-OnlyLastOpen t [] o = tt
close_last-OnlyLastOpen t ((a, none) ∷ []) o = tt
close_last-OnlyLastOpen t ((a, some b) ∷ []) o = tt
close_last-OnlyLastOpen t (w ∷ (a, none) ∷ []) o = (o.0, tt)
close_last-OnlyLastOpen t (w ∷ (a, some b) ∷ []) o = (o.0, tt)
close_last-OnlyLastOpen t (w ∷ v ∷ u ∷ ws) o = (o.0, close_last-OnlyLastOpen t (v ∷ u ∷ ws) o.1)

-- One window after the other, none later than `now`, and only the last may be open.
abbrev pub After : Instant → Windows → Type 0
After b [] = Unit {0}
After b ((a, e) ∷ ws) = b ≤ a

abbrev pub Ordered : Instant → Windows → Type 0
Ordered now [] = Unit {0}
Ordered now ((a, none) ∷ ws) = (a ≤ now) × (ws ≡ [])
Ordered now ((a, some b) ∷ ws) = (a ≤ b) × (b ≤ now) × After b ws × Ordered now ws

pub Ordered-later : (now t : Instant) (ws : Windows) → now ≤ t → Ordered now ws → Ordered t ws
Ordered-later now t [] h o = tt
Ordered-later now t ((a, none) ∷ ws) h o = (omega arith, o.1)
Ordered-later now t ((a, some b) ∷ ws) h o = (o.0, omega arith, o.2, Ordered-later now t ws h o.3)

pub opened-Ordered :
    (now t : Instant) (ws : Windows)
    → now ≤ t
    → last_closed ws ≡ true
    → Ordered now ws
    → Ordered t (opened t ws)
opened-Ordered now t [] h c o = (omega arith, refl)
opened-Ordered now t ((a, none) ∷ []) h c o = cc
opened-Ordered now t ((a, none) ∷ v ∷ ws) h c o = cc
opened-Ordered now t ((a, some b) ∷ []) h c o = (o.0, omega arith, omega arith, (omega arith, refl))
opened-Ordered now t ((a, some b) ∷ v ∷ ws) h c o =
    (o.0, omega arith, o.2, opened-Ordered now t (v ∷ ws) h c o.3)

After-close_last : (b t : Instant) (ws : Windows) → After b ws → After b (close_last t ws)
After-close_last b t [] h = tt
After-close_last b t ((a, none) ∷ []) h = h
After-close_last b t ((a, some e) ∷ []) h = h
After-close_last b t (w ∷ v ∷ ws) h = h

pub close_last-Ordered :
    (now t : Instant) (ws : Windows) → now ≤ t → Ordered now ws → Ordered t (close_last t ws)
close_last-Ordered now t [] h o = tt
close_last-Ordered now t ((a, none) ∷ []) h o = omega arith
close_last-Ordered now t ((a, some b) ∷ []) h o = omega arith
close_last-Ordered now t ((a, none) ∷ v ∷ ws) h o = cc
close_last-Ordered now t ((a, some b) ∷ v ∷ ws) h o =
    (o.0, omega arith, After-close_last b t (v ∷ ws) o.2, close_last-Ordered now t (v ∷ ws) h o.3)

-- Past a moment by which every window has ended there is none.
pub in_windows-past :
    (warmup now t : ℕ) (ws : Windows)
    → Ordered now ws
    → last_closed ws ≡ true
    → now ≤ t
    → in_windows warmup t ws ≡ false
unfolding in_windows
in_windows-past warmup now t [] o c h = refl
in_windows-past warmup now t ((a, none) ∷ []) o c h = cc
in_windows-past warmup now t ((a, none) ∷ v ∷ ws) o c h = cc
in_windows-past warmup now t ((a, some b) ∷ []) o c h = ground arith
in_windows-past warmup now t ((a, some b) ∷ v ∷ ws) o c h =
    ground (arith, in_windows-past warmup now t (v ∷ ws) o.3 c h)

pub in_windows-opened :
    (warmup now a t : ℕ) (ws : Windows)
    → Ordered now ws
    → last_closed ws ≡ true
    → now ≤ t
    → in_windows warmup t (opened a ws) ≡ leb (a + warmup) t
unfolding in_windows
in_windows-opened warmup now a t [] o c h = ground arith
in_windows-opened warmup now a t ((x, none) ∷ []) o c h = cc
in_windows-opened warmup now a t ((x, none) ∷ v ∷ ws) o c h = cc
in_windows-opened warmup now a t ((x, some b) ∷ []) o c h = ground arith
in_windows-opened warmup now a t ((x, some b) ∷ v ∷ ws) o c h =
    ground (arith, in_windows-opened warmup now a t (v ∷ ws) o.3 c h)
