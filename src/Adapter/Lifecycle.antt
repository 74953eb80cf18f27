-- ===== src/Adapter/Lifecycle.antt =====
-- The order of the events that the adapters of src/nitro.rs, src/wsjson.rs and src/wsraw.rs send.
use robinhood_feed_bench.Common.{
  ℕ, zero, suc, ◌≡◌, refl, sym, ap, subst, ◌∙◌, Bool, true, false, List, [], ◌∷◌, ◌++◌, map, Option,
  none, some, ◌==◌, if◌then◌else◌, append-none, All, Bool-cases, Option-cases, inl, inr, arith,
}
use robinhood_feed_bench.Event.{Payload, Event}
use robinhood_feed_bench.Ws.Negotiation.{second}
use robinhood_feed_bench.Ws.Session.{Message}
use robinhood_feed_bench.Reconnect.{next_backoff}
use robinhood_feed_bench.Adapter.{
  Adapter, Served, Attempt, Action, Sent, after_sent, send_one, send_each, exchange, serve, opening,
  closing, conclude, rest_of, run, events_of, unsubscribed,
}

-- Whether a source is up after an event of it; `none` is an event that may not come then.
unfoldable pub live_step : Bool → Payload → Option Bool
live_step false (Payload.connected detail) = some true
live_step true (Payload.connected detail) = none
live_step false (Payload.disconnected reason) = none
live_step true (Payload.disconnected reason) = some false
live_step false (Payload.block key seq hash count wire_len) = none
live_step true (Payload.block key seq hash count wire_len) = some true
live_step false (Payload.tx hash key count swap raw_len) = none
live_step true (Payload.tx hash key count swap raw_len) = some true

abbrev pub then_watch : Option Bool → (Bool → Option Bool) → Option Bool
then_watch none f = none
then_watch (some up) f = f up

-- A source is watched through the events of all sources.
unfoldable pub watch : ℕ → Bool → List Event → Option Bool
watch i up [] = some up
watch i up (ev ∷ evs) =
    let later = λ (next : Bool). watch i next evs in
    if ev.source == i then then_watch (live_step up ev.payload) later else later up

abbrev pub IsDelivery : ℕ → Event → Type 0
IsDelivery i ev = (ev.source ≡ i) × (live_step true ev.payload ≡ some true)

abbrev pub From : ℕ → List Event → Type 0
From i = All (λ ev. ev.source ≡ i)

pub watch-append :
    (i : ℕ) (up : Bool) (a b : List Event)
    → watch i up (a ++ b) ≡ then_watch (watch i up a) (λ next. watch i next b)
unfolding watch
watch-append i up [] b = refl
watch-append i up (ev ∷ a) b = elim (Bool-cases (ev.source == i)) [
  | inr other ↦ rw (watch, other) (watch-append i up a b)
  | inl own ↦ elim (Option-cases (live_step up ev.payload)) [
    | inl bad ↦ rw (watch, own, bad) refl
    | inr (next, good) ↦ rw (watch, own, good) (watch-append i next a b)
  ]
]

pub watch-deliveries :
    (i : ℕ) (evs : List Event) → All (IsDelivery i) evs → watch i true evs ≡ some true
unfolding watch
watch-deliveries i [] h = refl
watch-deliveries i (ev ∷ evs) h =
    let own : (ev.source == i) ≡ true = ground (arith, h.0.0) in
    rw (watch, own, h.0.1) (watch-deliveries i evs h.1)

pub All-append {ℓ κ} :
    {A : Type ℓ} (P : A → Type κ) (xs ys : List A) → All P xs → All P ys → All P (xs ++ ys)
All-append P [] ys h k = k
All-append P (x ∷ xs) ys h k = (h.0, All-append P xs ys h.1 k)

send_each-All :
    (P : Event → Type 0) (room : ℕ) (evs : List Event) → All P evs → All P (send_each room evs).0
unfolding send_each send_one
send_each-All P room [] h = tt
send_each-All P zero (ev ∷ evs) h = tt
send_each-All P (suc room) (ev ∷ evs) h = (h.0, send_each-All P room evs h.1)

-- What is sent before and after a result satisfies `P`.
after_sent-All :
    {A B : Type 0} (P : Event → Type 0) (m : Sent A) (f : A → Sent B)
    → All P m.0
    → ((x : A) → All P (f x).0)
    → All P (after_sent m.0 m.1 f).0
after_sent-All P (events, none) f h k = h
after_sent-All P (events, some x) f h k = All-append P events (f x).0 h (k x)

-- Events of source `i` alone, which goes up and down in turn and delivers while it is up.
abbrev pub Lives : ℕ → List Event → Type 0
Lives i events = From i events × ((up : Bool) × (watch i false events ≡ some up))

pub events_of-sends :
    (events : List Event) (more : List Action)
    → events_of (map Action.send events ++ more) ≡ events ++ events_of more
unfolding events_of
events_of-sends [] more = refl
events_of-sends (ev ∷ events) more = ap (λ l. ev ∷ l) (events_of-sends events more)

module _ {S : Type 0} (a : Adapter S)
    (quiet : (s : S) (msg : Message) → All (IsDelivery a.index) (a.on_message s msg).1) where
  exchange-All :
      (s : S) (room : ℕ) (msgs : List Message) → All (IsDelivery a.index) (exchange a s room msgs).0
  unfolding exchange
  exchange-All s room [] = tt
  exchange-All s room (msg ∷ msgs) =
      after_sent-All (IsDelivery a.index) (send_each room (a.on_message s msg).1) _
        (send_each-All (IsDelivery a.index) room (a.on_message s msg).1 (quiet s msg))
        λ left. exchange-All (a.on_message s msg).0 left msgs

  -- A session sends events of its source only, and a complete one leaves the source down.
  abbrev Bracketed : Sent (S × ℕ) → Type 0
  Bracketed (events, none) =
      From a.index events × ((up : Bool) × (watch a.index false events ≡ some up))
  Bracketed (events, some next) = From a.index events × (watch a.index false events ≡ some false)

  deliveries-From : (evs : List Event) → All (IsDelivery a.index) evs → From a.index evs
  deliveries-From [] h = tt
  deliveries-From (ev ∷ evs) h = (h.0.0, deliveries-From evs h.1)

  watch-opening :
      (c : Served) (evs : List Event)
      → watch a.index false (opening a c ∷ evs) ≡ watch a.index true evs
  unfolding watch live_step
  watch-opening c evs =
      let own : (a.index == a.index) ≡ true = ground arith in rw (watch, own, live_step) refl

  watch-closing : (c : Served) → watch a.index true (closing a c ∷ []) ≡ some false
  unfolding watch live_step
  watch-closing c =
      let own : (a.index == a.index) ≡ true = ground arith in rw (watch, own, live_step) refl

  -- After the opening event and the deliveries that reached the collector.
  watch-served :
      (c : Served) (evs more : List Event)
      → All (IsDelivery a.index) evs
      → watch a.index false (opening a c ∷ (evs ++ more)) ≡ watch a.index true more
  watch-served c evs more h =
      watch-opening c (evs ++ more)
      ∙ watch-append a.index true evs more
      ∙ ap (λ o. then_watch o (λ next. watch a.index next more)) (watch-deliveries a.index evs h)

  concluded-Bracketed :
      (c : Served) (m : Sent (S × ℕ))
      → All (IsDelivery a.index) m.0
      → Bracketed (after_sent (opening a c ∷ []) (some tt) λ u. after_sent m.0 m.1 (conclude a c))
  unfolding conclude send_one watch
  concluded-Bracketed c (evs, none) h = (
    (refl, deliveries-From evs h),
    (
      true,
      ap (λ l. watch a.index false (opening a c ∷ l)) (sym (append-none evs))
          ∙ watch-served c evs [] h,
    ),
  )
  concluded-Bracketed c (evs, some (next, zero)) h = (
    (refl, All-append (λ ev. ev.source ≡ a.index) evs [] (deliveries-From evs h) tt),
    (true, watch-served c evs [] h),
  )
  concluded-Bracketed c (evs, some (next, suc room)) h = (
    (
      refl,
      All-append (λ ev. ev.source ≡ a.index) evs (closing a c ∷ []) (deliveries-From evs h)
          (refl, tt),
    ),
    watch-served c evs (closing a c ∷ []) h ∙ watch-closing c,
  )

  serve-Bracketed : (s : S) (room : ℕ) (c : Served) → Bracketed (serve a s room c)
  unfolding serve send_one watch
  serve-Bracketed s zero c = (tt, (false, refl))
  serve-Bracketed s (suc room) c =
      concluded-Bracketed c (exchange a s room c.messages) (exchange-All s room c.messages)

  rest_of-Lives :
      (m : Sent (S × ℕ)) (again : S → ℕ → List Action)
      → Bracketed m
      → ((s : S) (room : ℕ) → Lives a.index (events_of (again s room)))
      → Lives a.index (events_of (rest_of a m.0 m.1 again))
  unfolding events_of
  rest_of-Lives (events, none) again h k =
      let sends = map Action.send events in
      subst (Lives a.index)
        (sym
          (ap events_of (sym (append-none sends)) ∙ events_of-sends events [] ∙ append-none events))
        h
  rest_of-Lives (events, some (s, room)) again h k =
      let more = events_of (again s room) in
      let (own, (up, later)) = k s room in
      subst (Lives a.index) (sym (events_of-sends events (Action.sleep second ∷ again s room))) (
        All-append (λ ev. ev.source ≡ a.index) events more h.0 own,
        (
          up,
          watch-append a.index false events more
              ∙ ap (λ o. then_watch o (λ next. watch a.index next more)) h.1
              ∙ later,
        ),
      )

  -- So it is for an adapter whose messages give blocks and transactions of its source.
  pub run-Lives :
      (s : S) (backoff room : ℕ) (attempts : List Attempt)
      → Lives a.index (events_of (run a s backoff room attempts))
  unfolding run events_of watch
  run-Lives s backoff room [] = (tt, (false, refl))
  run-Lives s backoff room (Attempt.failed e ∷ rest) = run-Lives s (next_backoff backoff) room rest
  run-Lives s backoff room (Attempt.served c ∷ rest) =
      elim (Bool-cases (unsubscribed a.subscribe c.subscribed)) [
        | inl unwritten ↦ rw (run, unwritten, events_of) (run-Lives s second room rest)
        | inr written ↦
            rw (run, written, events_of)
              (rest_of-Lives (serve a s room c) (λ next left. run a next second left rest)
                (serve-Bracketed s room c) (λ next left. run-Lives next second left rest))
      ]
