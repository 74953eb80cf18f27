-- ===== src/Adapter/Resume.antt =====
-- What a connection attempt of src/nitro.rs asks for after what was sent before it.
use robinhood_feed_bench.Common.{
  ℕ, zero, suc, ◌≡◌, refl, sym, ap, subst, List, [], ◌∷◌, ◌++◌, map, none, some, append_assoc,
  append-none, Bool-cases, inl, inr,
}
use robinhood_feed_bench.Event.{Event}
use robinhood_feed_bench.Ws.Handshake.{Config}
use robinhood_feed_bench.Ws.Negotiation.{second}
use robinhood_feed_bench.Ws.Session.{Message}
use robinhood_feed_bench.Reconnect.{next_backoff}
use robinhood_feed_bench.Adapter.{
  Adapter, Served, Attempt, Action, Sent, after_sent, send_one, send_each, exchange, serve, opening,
  closing, conclude, rest_of, run, unsubscribed,
}

-- Every attempt to connect satisfies `P` for the events that were sent before it.
abbrev pub Asks : (List Event → Config → Type 0) → List Event → List Action → Type 0
Asks P before [] = Unit {0}
Asks P before (Action.dial cfg ∷ rest) = P before cfg × Asks P before rest
Asks P before (Action.send ev ∷ rest) = Asks P (before ++ (ev ∷ [])) rest
Asks P before (Action.sleep d ∷ rest) = Asks P before rest

Asks-sends :
    (P : List Event → Config → Type 0) (before events : List Event) (rest : List Action)
    → Asks P (before ++ events) rest
    → Asks P before (map Action.send events ++ rest)
Asks-sends P before [] rest h = subst (λ l. Asks P l rest) (append-none before) h
Asks-sends P before (ev ∷ events) rest h =
    Asks-sends P (before ++ (ev ∷ [])) events rest
      (subst (λ l. Asks P l rest) (sym (append_assoc before (ev ∷ []) events)) h)

Asks-only_sends :
    (P : List Event → Config → Type 0) (before events : List Event)
    → Asks P before (map Action.send events)
Asks-only_sends P before [] = tt
Asks-only_sends P before (ev ∷ events) = Asks-only_sends P (before ++ (ev ∷ [])) events

abbrev Whole : List Event → Sent ℕ → Type 0
Whole evs (events, none) = Unit {0}
Whole evs (events, some left) = events ≡ evs

send_each-Whole : (room : ℕ) (evs : List Event) → Whole evs (send_each room evs)
unfolding send_each send_one
send_each-Whole room [] = refl
send_each-Whole zero (ev ∷ evs) = tt
send_each-Whole (suc room) (ev ∷ evs) = first (send_each room evs) (send_each-Whole room evs)
  where
    first : (m : Sent ℕ) → Whole evs m → Whole (ev ∷ evs) (ev ∷ m.0, m.1)
    first (events, none) h = tt
    first (events, some left) h = ap (λ l. ev ∷ l) h

-- What an adapter knows of the events that it sent, as its configuration needs it.
module _ {S : Type 0} (a : Adapter S) (Knows : S → List Event → Type 0)
    (P : List Event → Config → Type 0)
    (learns : (s : S) (msg : Message) (before : List Event)
      → Knows s before
      → Knows (a.on_message s msg).0 (before ++ (a.on_message s msg).1))
    (opens : (s : S) (c : Served) (before : List Event)
      → Knows s before
      → Knows s (before ++ (opening a c ∷ [])))
    (closes : (s : S) (c : Served) (before : List Event)
      → Knows s before
      → Knows s (before ++ (closing a c ∷ [])))
    (asks : (s : S) (before : List Event) → Knows s before → P before (a.config s)) where
  abbrev Reaches : List Event → Sent (S × ℕ) → Type 0
  Reaches before (events, none) = Unit {0}
  Reaches before (events, some (s, room)) = Knows s (before ++ events)

  Reaches-after :
      (before evs : List Event) (m : Sent ℕ) (k : ℕ → Sent (S × ℕ))
      → Whole evs m
      → ((left : ℕ) → Reaches (before ++ evs) (k left))
      → Reaches before (after_sent m.0 m.1 k)
  Reaches-after before evs (events, none) k h step = tt
  Reaches-after before evs (events, some left) k h step =
      behind (k left) (subst (λ l. Reaches (before ++ l) (k left)) (sym h) (step left))
    where
      behind :
          (n : Sent (S × ℕ)) → Reaches (before ++ events) n → Reaches before (events ++ n.0, n.1)
      behind (more, none) r = tt
      behind (more, some (s, room)) r = subst (Knows s) (append_assoc before events more) r

  exchange-Reaches :
      (s : S) (room : ℕ) (msgs : List Message) (before : List Event)
      → Knows s before
      → Reaches before (exchange a s room msgs)
  unfolding exchange
  exchange-Reaches s room [] before h = subst (Knows s) (sym (append-none before)) h
  exchange-Reaches s room (msg ∷ msgs) before h =
      let (next, events) = a.on_message s msg in
      Reaches-after before events (send_each room events) (λ left. exchange a next left msgs)
        (send_each-Whole room events)
        λ left. exchange-Reaches next left msgs (before ++ events) (learns s msg before h)

  concluded-Reaches :
      (c : Served) (before : List Event) (m : Sent (S × ℕ))
      → Reaches before m
      → Reaches before (after_sent m.0 m.1 (conclude a c))
  unfolding conclude send_one
  concluded-Reaches c before (events, none) h = tt
  concluded-Reaches c before (events, some (s, zero)) h = tt
  concluded-Reaches c before (events, some (s, suc room)) h =
      subst (Knows s) (append_assoc before events (closing a c ∷ []))
        (closes s c (before ++ events) h)

  serve-Reaches :
      (s : S) (room : ℕ) (c : Served) (before : List Event)
      → Knows s before
      → Reaches before (serve a s room c)
  unfolding serve send_one
  serve-Reaches s zero c before h = tt
  serve-Reaches s (suc room) c before h =
      Reaches-after before (opening a c ∷ []) (opening a c ∷ [], some room)
        (λ left.
          after_sent (exchange a s left c.messages).0 (exchange a s left c.messages).1
            (conclude a c))
        refl
        λ left.
          let later = before ++ (opening a c ∷ []) in
          concluded-Reaches c later (exchange a s left c.messages)
            (exchange-Reaches s left c.messages later (opens s c before h))

  rest_of-Asks :
      (before : List Event) (m : Sent (S × ℕ)) (again : S → ℕ → List Action)
      → Reaches before m
      → ((s : S) (room : ℕ) (later : List Event) → Knows s later → Asks P later (again s room))
      → Asks P before (rest_of a m.0 m.1 again)
  rest_of-Asks before (events, none) again h k = Asks-only_sends P before events
  rest_of-Asks before (events, some (s, room)) again h k =
      Asks-sends P before events (Action.sleep second ∷ again s room)
        (k s room (before ++ events) h)

  pub run-Asks :
      (s : S) (backoff room : ℕ) (attempts : List Attempt) (before : List Event)
      → Knows s before
      → Asks P before (run a s backoff room attempts)
  unfolding run
  run-Asks s backoff room [] before h = tt
  run-Asks s backoff room (Attempt.failed e ∷ rest) before h =
      (asks s before h, run-Asks s (next_backoff backoff) room rest before h)
  run-Asks s backoff room (Attempt.served c ∷ rest) before h =
      elim (Bool-cases (unsubscribed a.subscribe c.subscribed)) [
        | inl unwritten ↦
            rw (run, unwritten) (asks s before h, run-Asks s second room rest before h)
        | inr written ↦
            rw (run, written)
              (
                asks s before h,
                rest_of-Asks before (serve a s room c) (λ next left. run a next second left rest)
                    (serve-Reaches s room c before h)
                    (λ next left later k. run-Asks next second left rest later k),
              )
      ]
