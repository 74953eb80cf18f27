-- ===== src/Adapter/Delivers.antt =====
-- While the collector is there, the adapters of src/nitro.rs, src/wsjson.rs and src/wsraw.rs go on.
use robinhood_feed_bench.Common.{
  take, ℕ, zero, suc, ◌+◌, ◌-◌, ◌≤◌, ◌<◌, ◌≡◌, refl, ap, ◌∙◌, List, [], ◌∷◌, ◌++◌, map, Option,
  none, some, length, length-append, if◌then◌else◌, arith, Bool-cases, inl, inr,
}
use robinhood_feed_bench.Event.{Event}
use robinhood_feed_bench.Ws.Negotiation.{second}
use robinhood_feed_bench.Ws.Session.{Message}
use robinhood_feed_bench.Reconnect.{next_backoff}
use robinhood_feed_bench.Adapter.{
  Adapter, Served, Attempt, Action, Sent, after_sent, send_one, send_each, exchange, serve, opening,
  closing, conclude, rest_of, run, events_of, unsubscribed,
}
use robinhood_feed_bench.Adapter.Lifecycle.{events_of-sends}

-- The attempts to connect among the actions.
abbrev pub dials : List Action → ℕ
dials [] = 0
dials (Action.dial cfg ∷ rest) = 1 + dials rest
dials (Action.send ev ∷ rest) = dials rest
dials (Action.sleep d ∷ rest) = dials rest

dials-sends :
    (evs : List Event) (rest : List Action) → dials (map Action.send evs ++ rest) ≡ dials rest
dials-sends [] rest = refl
dials-sends (ev ∷ evs) rest = dials-sends evs rest

-- What is sent by one step and then by the next.
pub then_sent :
    {A B : Type 0} (m : Sent A) (f : A → Sent B) (first more : List Event) (x : A) (r : Option B)
    → m ≡ (first, some x)
    → f x ≡ (more, r)
    → after_sent m.0 m.1 f ≡ (first ++ more, r)
then_sent m f first more x r e e' =
    ap (λ (n : Sent _). after_sent n.0 n.1 f) e ∙ ap (λ (n : Sent _). (first ++ n.0, n.1)) e'

send_one-all : (room : ℕ) (ev : Event) → 1 ≤ room → send_one room ev ≡ (ev ∷ [], some (room - 1))
unfolding send_one
send_one-all zero ev h = absurd (omega arith)
send_one-all (suc room) ev h = ap (λ k. (ev ∷ [], some k)) (omega arith)

pub send_each-all :
    (evs : List Event) (room : ℕ)
    → length evs ≤ room
    → send_each room evs ≡ (evs, some (room - length evs))
unfolding send_each
send_each-all [] room h = ap (λ k. ([], some k)) (omega arith)
send_each-all (ev ∷ evs) room h =
    then_sent (send_one room ev) (λ left. send_each left evs) (ev ∷ []) evs (room - 1)
      (some (room - 1 - length evs)) (send_one-all room ev (omega arith))
      (send_each-all evs (room - 1) (omega arith))
    ∙ ap (λ k. (ev ∷ evs, some k)) (omega arith)

pub send_each-short :
    (evs : List Event) (room : ℕ) → room < length evs → send_each room evs ≡ (take room evs, none)
unfolding send_each send_one
send_each-short [] room h = absurd (omega arith)
send_each-short (ev ∷ evs) zero h = refl
send_each-short (ev ∷ evs) (suc room) h =
    ap (λ (m : Sent ℕ). (ev ∷ m.0, m.1)) (send_each-short evs room (omega arith))

module _ {S : Type 0} (a : Adapter S) where
  -- The state after some messages, and the events of them all.
  abbrev pub after_messages : S → List Message → S
  after_messages s [] = s
  after_messages s (msg ∷ msgs) = after_messages (a.on_message s msg).0 msgs

  abbrev pub message_events : S → List Message → List Event
  message_events s [] = []
  message_events s (msg ∷ msgs) =
      (a.on_message s msg).1 ++ message_events (a.on_message s msg).0 msgs

  -- All events of a session.
  abbrev pub session_events : S → Served → List Event
  session_events s c = opening a c ∷ (message_events s c.messages ++ (closing a c ∷ []))

  -- All events of the sessions that are subscribed.
  unfoldable pub all_events : S → List Attempt → List Event
  all_events s [] = []
  all_events s (Attempt.failed e ∷ rest) = all_events s rest
  all_events s (Attempt.served c ∷ rest) =
      let later = λ (next : S). all_events next rest in
      if unsubscribed a.subscribe c.subscribed
      then later s
      else session_events s c ++ later (after_messages s c.messages)

  exchange-all :
      (s : S) (room : ℕ) (msgs : List Message)
      → length (message_events s msgs) ≤ room
      → exchange a s room msgs ≡ (
        message_events s msgs,
        some (after_messages s msgs, room - length (message_events s msgs)),
      )
  unfolding exchange
  exchange-all s room [] h = ap (λ k. ([], some (s, k))) (omega arith)
  exchange-all s room (msg ∷ msgs) h =
      let (next, events) = a.on_message s msg in
      let more = message_events next msgs in
      let size = length-append events more in
      then_sent (send_each room events) (λ left. exchange a next left msgs) events more
        (room - length events) _ (send_each-all events room (omega (arith, size)))
        (exchange-all next (room - length events) msgs (omega (arith, size)))
      ∙ ap (λ k. (events ++ more, some (after_messages next msgs, k))) (omega (arith, size))

  serve-all :
      (s : S) (room : ℕ) (c : Served)
      → length (session_events s c) ≤ room
      → serve a s room c ≡ (
        session_events s c,
        some (after_messages s c.messages, room - length (session_events s c)),
      )
  unfolding serve conclude
  serve-all s room c h =
      let told = message_events s c.messages in
      let last = after_messages s c.messages in
      let size = length-append told (closing a c ∷ []) in
      let left = room - 1 - length told in
      then_sent (send_one room (opening a c)) _ (opening a c ∷ []) (told ++ (closing a c ∷ []))
        (room - 1) (some (last, left - 1)) (send_one-all room (opening a c) (omega arith))
        (then_sent (exchange a s (room - 1) c.messages) (conclude a c) told (closing a c ∷ [])
          (last, left) (some (last, left - 1))
          (exchange-all s (room - 1) c.messages (omega (arith, size)))
          (then_sent (send_one left (closing a c)) _ (closing a c ∷ []) [] (left - 1)
            (some (last, left - 1)) (send_one-all left (closing a c) (omega (arith, size))) refl))
      ∙ ap (λ k. (session_events s c, some (last, k))) (omega (arith, size))

  rest_of-all :
      (m : Sent (S × ℕ)) (again : S → ℕ → List Action) (told : List Event) (last : S) (left : ℕ)
      → m ≡ (told, some (last, left))
      → (dials (rest_of a m.0 m.1 again) ≡ dials (again last left))
        × (events_of (rest_of a m.0 m.1 again) ≡ told ++ events_of (again last left))
  unfolding events_of
  rest_of-all m again told last left e =
      let next = Action.sleep second ∷ again last left in
      (
        ap (λ (n : Sent _). dials (rest_of a n.0 n.1 again)) e ∙ dials-sends told next,
        ap (λ (n : Sent _). events_of (rest_of a n.0 n.1 again)) e ∙ events_of-sends told next,
      )

  -- Every attempt is made, and every event reaches the collector.
  abbrev pub Delivers : S → List Attempt → List Action → Type 0
  Delivers s attempts actions =
      (dials actions ≡ length attempts) × (events_of actions ≡ all_events s attempts)

  -- As long as the collector takes all events of the sessions, an adapter makes one attempt to
  -- connect after the other, as long as there are any, and every event of every subscribed session
  -- reaches the collector, in order.
  pub run-Delivers :
      (s : S) (backoff room : ℕ) (attempts : List Attempt)
      → length (all_events s attempts) ≤ room
      → Delivers s attempts (run a s backoff room attempts)
  unfolding run events_of all_events
  run-Delivers s backoff room [] h = (refl, refl)
  run-Delivers s backoff room (Attempt.failed e ∷ rest) h =
      let (count, events) = run-Delivers s (next_backoff backoff) room rest h in
      (omega (arith, count), events)
  run-Delivers s backoff room (Attempt.served c ∷ rest) h =
      elim (Bool-cases (unsubscribed a.subscribe c.subscribed)) [
        | inl unwritten ↦
            let (count, events) = run-Delivers s second room rest (rw unwritten at h) in
            rw (run, unwritten, events_of, all_events) (omega (arith, count), events)
        | inr written ↦
            let told = session_events s c in
            let last = after_messages s c.messages in
            let more = all_events last rest in
            let fits : length (told ++ more) ≤ room = rw written at h in
            let size = length-append told more in
            let left = room - length told in
            let (count, events) = run-Delivers last second left rest (omega (arith, size, fits)) in
            let (dialled, sent) =
              rest_of-all (serve a s room c) (λ next k. run a next second k rest) told last left
                (serve-all s room c (omega (arith, size, fits))) in
            rw written (omega (arith, dialled, count), sent ∙ ap (λ l. told ++ l) events)
      ]
