-- ===== src/Reconnect.antt =====
-- The waits between the connection attempts of src/nitro.rs, src/wsjson.rs and src/wsraw.rs, whose
-- `run` has the same loop, and of src/eira.rs. Durations are in nanoseconds.
mod Runs
use native.Mathlib.Nat.{pow-suc, suc-add, add-suc, add-zero, zero-add}
use robinhood_feed_bench.Common.{
  sym, length, ℕ, zero, suc, ◌+◌, ◌*◌, ◌^◌, ◌≡◌, refl, ap, ◌∙◌, min, Bool, true, false, List, [],
  ◌∷◌, Option, none, some, get_elem?, arith,
}
use robinhood_feed_bench.Common.Texts.{Text}
use robinhood_feed_bench.Event.{Instant, Payload, Event}
use robinhood_feed_bench.Ws.Negotiation.{Rejected, second, retry_delay}

-- `backoff = (backoff * 2).min(Duration::from_secs(30))`
pub next_backoff : ℕ → ℕ
next_backoff backoff = min (backoff * 2) (30 * second)

-- The waits of a loop whose connects fail one after another with these errors.
pub connect_waits : ℕ → List (Option Rejected) → List ℕ
connect_waits backoff [] = []
connect_waits backoff (e ∷ es) = retry_delay e backoff ∷ connect_waits (next_backoff backoff) es

-- How a session of src/eira.rs ended: the collector is gone, or an error, the instant at which it
-- is reported and whether the collector still takes the report.
pub data Ended : Type 0 where
  gone : Ended
  failed : Text → Instant → Bool → Ended

-- The waits of the loop of src/eira.rs, and the events that it sends between the sessions.
pub eira_run : ℕ → ℕ → List Ended → List ℕ × List Event
eira_run index backoff [] = ([], [])
eira_run index backoff (Ended.gone ∷ es) = ([], [])
eira_run index backoff (Ended.failed reason t false ∷ es) = ([], [])
eira_run index backoff (Ended.failed reason t true ∷ es) =
    let (waits, events) = eira_run index (next_backoff backoff) es in
    (
      backoff ∷ waits,
      record { source = index; t = t; payload = Payload.disconnected reason } ∷ events,
    )

-- One second, doubled `n` times, and 30 seconds at most.
abbrev pub doubled : ℕ → ℕ
doubled n = min (2 ^ n * second) (30 * second)

next_backoff-doubled : (n : ℕ) → next_backoff (doubled n) ≡ doubled (suc n)
unfolding next_backoff
next_backoff-doubled n = omega (arith, ap (λ p. p * second) (pow-suc 2 n))

-- The waits after these errors, when `n` others came before.
abbrev pub delays : ℕ → List (Option Rejected) → List ℕ
delays n [] = []
delays n (e ∷ es) = retry_delay e (doubled n) ∷ delays (suc n) es

connect_waits_from :
    (es : List (Option Rejected)) (n : ℕ) → connect_waits (doubled n) es ≡ delays n es
unfolding connect_waits
connect_waits_from [] n = refl
connect_waits_from (e ∷ es) n =
    ap (λ ws. retry_delay e (doubled n) ∷ ws)
      (ap (λ b. connect_waits b es) (next_backoff-doubled n) ∙ connect_waits_from es (suc n))

-- When connects fail one after another, the delay for the n-th error (from 0) is that of
-- `retry_delay` with a backoff of 2 ^ n seconds, and of 30 seconds at most.
pub connect_waits-delays : (es : List (Option Rejected)) → connect_waits second es ≡ delays 0 es
connect_waits-delays es = connect_waits_from es 0

eira_run_from :
    (es : List Ended) (index n i w : ℕ)
    → get_elem? (eira_run index (doubled n) es).0 i ≡ some w
    → w ≡ doubled (n + i)
unfolding eira_run
eira_run_from [] index n i w h = cc
eira_run_from (Ended.gone ∷ es) index n i w h = cc
eira_run_from (Ended.failed reason t false ∷ es) index n i w h = cc
eira_run_from (Ended.failed reason t true ∷ es) index n zero w h =
    let e : doubled n ≡ w = cc in sym e ∙ ap doubled (sym (add-zero n))
eira_run_from (Ended.failed reason t true ∷ es) index n (suc i) w h =
    eira_run_from es index (suc n) i w
      (ap (λ b. get_elem? (eira_run index b es).0 i) (sym (next_backoff-doubled n)) ∙ h)
    ∙ ap doubled (suc-add n i ∙ sym (add-suc n i))

eira_run-one_report :
    (es : List Ended) (index backoff : ℕ)
    → length (eira_run index backoff es).0 ≡ length (eira_run index backoff es).1
unfolding eira_run
eira_run-one_report [] index backoff = refl
eira_run-one_report (Ended.gone ∷ es) index backoff = refl
eira_run-one_report (Ended.failed reason t false ∷ es) index backoff = refl
eira_run-one_report (Ended.failed reason t true ∷ es) index backoff =
    ap suc (eira_run-one_report es index (next_backoff backoff))

-- The loop of src/eira.rs waits once for each report that a session failed, and its n-th wait (from
-- 0) is 2 ^ n seconds, and 30 seconds at most.
pub eira_run-waits :
    (es : List Ended) (index : ℕ)
    → (let r = eira_run index second es in
        (length r.0 ≡ length r.1)
        × ((i w : ℕ) → get_elem? r.0 i ≡ some w → w ≡ min (2 ^ i * second) (30 * second)))
eira_run-waits es index = (
  eira_run-one_report es index second,
  λ i w h. eira_run_from es index 0 i w h ∙ ap doubled (zero-add i),
)
