-- ===== src/Adapter.antt =====
-- The loop of `run` in src/nitro.rs, src/wsjson.rs and src/wsraw.rs around the WebSocket client: the
-- same statements in the three, but for what an `Adapter` holds. An `Attempt` is what one round
-- meets: the error of `connect`, or the handshake, the messages that `next_message` returns and the
-- error that ends them. The collector takes `room` more events before its receiver is dropped.
pub mod Sources
pub mod Lifecycle
pub mod Quiet
pub mod Resume
pub mod Cursor
pub mod Collected
pub mod Delivers
mod Runs
use robinhood_feed_bench.Common.{
  ℕ, zero, suc, Bool, true, false, List, [], ◌∷◌, ◌++◌, map, Option, none, some, if◌then◌else◌,
}
use robinhood_feed_bench.Common.Texts.{Text}
use robinhood_feed_bench.Event.{Instant, Payload, Event}
use robinhood_feed_bench.Reconnect.{next_backoff}
use robinhood_feed_bench.Ws.Handshake.{Config, Handshake}
use robinhood_feed_bench.Ws.Negotiation.{Rejected, second, retry_delay}
use robinhood_feed_bench.Ws.Session.{Message}

pub record Adapter (S : Type 0) : Type 0 where
  pub index : ℕ
  pub config : S → Config
  pub subscribe : Option Text
  pub detail : Handshake → Text
  -- The state after a message and what it sends.
  pub on_message : S → Message → S × List Event

pub record Served : Type 0 where
  pub handshake : Handshake
  -- Whether the subscription is written, if there is one to write.
  pub subscribed : Bool
  pub connected_at : Instant
  pub messages : List Message
  pub reason : Text
  pub disconnected_at : Instant

pub data Attempt : Type 0 where
  failed : Option Rejected → Attempt
  served : Served → Attempt

pub data Action : Type 0 where
  dial : Config → Action
  send : Event → Action
  sleep : ℕ → Action

-- The events that reached the collector, and the result unless the collector is gone.
abbrev pub Sent : Type 0 → Type 0
Sent A = List Event × Option A

abbrev pub after_sent : {A B : Type 0} → List Event → Option A → (A → Sent B) → Sent B
after_sent events none f = (events, none)
after_sent events (some a) f = let (more, r) = f a in (events ++ more, r)

infixl 5 ◌>>=◌
abbrev pub ◌>>=◌ : {A B : Type 0} → Sent A → (A → Sent B) → Sent B
m >>= f = after_sent m.0 m.1 f

-- `out.send(ev)`: the room behind it.
pub send_one : ℕ → Event → Sent ℕ
send_one zero ev = ([], none)
send_one (suc room) ev = (ev ∷ [], some room)

pub send_each : ℕ → List Event → Sent ℕ
send_each room [] = ([], some room)
send_each room (ev ∷ evs) = do left ← send_one room ev; send_each left evs

-- Whether a subscription has to be written and is not.
abbrev pub unsubscribed : Option Text → Bool → Bool
unsubscribed none written = false
unsubscribed (some text) true = false
unsubscribed (some text) false = true

module _ {S : Type 0} (a : Adapter S) where
  -- The loop over the messages of a connection.
  pub exchange : S → ℕ → List Message → Sent (S × ℕ)
  exchange s room [] = ([], some (s, room))
  exchange s room (msg ∷ msgs) =
      let (next, events) = a.on_message s msg in
      do left ← send_each room events; exchange next left msgs

  abbrev pub opening : Served → Event
  opening c = record {
    source = a.index;
    t = c.connected_at;
    payload = Payload.connected (a.detail c.handshake);
  }

  abbrev pub closing : Served → Event
  closing c = record {
    source = a.index;
    t = c.disconnected_at;
    payload = Payload.disconnected c.reason;
  }

  -- The end of a session.
  pub conclude : Served → S × ℕ → Sent (S × ℕ)
  conclude c (next, room) = do left ← send_one room (closing c); ([], some (next, left))

  -- From the `Connected` event to the `Disconnected` event.
  pub serve : S → ℕ → Served → Sent (S × ℕ)
  serve s room c = do left ← send_one room (opening c); r ← exchange s left c.messages; conclude c r

  -- What follows a session: the wait and the next round, unless the collector is gone.
  abbrev pub rest_of : List Event → Option (S × ℕ) → (S → ℕ → List Action) → List Action
  rest_of events none again = map Action.send events
  rest_of events (some (s, room)) again =
      map Action.send events ++ (Action.sleep second ∷ again s room)

  pub run : S → ℕ → ℕ → List Attempt → List Action
  run s backoff room [] = []
  run s backoff room (Attempt.failed e ∷ rest) =
      Action.dial (a.config s)
      ∷ Action.sleep (retry_delay e backoff)
      ∷ run s (next_backoff backoff) room rest
  run s backoff room (Attempt.served c ∷ rest) =
      let again = λ (next : S) (left : ℕ). run next second left rest in
      let sent = serve s room c in
      Action.dial (a.config s)
      ∷ (if unsubscribed a.subscribe c.subscribed
          then again s room
          else rest_of sent.0 sent.1 again)

-- The events of a run, in order.
pub events_of : List Action → List Event
events_of [] = []
events_of (Action.dial cfg ∷ rest) = events_of rest
events_of (Action.send ev ∷ rest) = ev ∷ events_of rest
events_of (Action.sleep d ∷ rest) = events_of rest
