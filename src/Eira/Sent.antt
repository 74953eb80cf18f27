-- ===== src/Eira/Sent.antt =====
-- The loop of `session` in src/eira.rs over a channel whose collector takes `room` events more and
-- then goes away: the session ends with the first send that fails.
use robinhood_feed_bench.Common.{
  ℕ, ◌-◌, ◌≤◌, ◌≡◌, refl, sym, ap, ◌∙◌, List, [], ◌∷◌, ◌++◌, some, length, take, arith, leb,
  is_some, Bool-cases, inl, inr, length-append, take-append_le, take-all, take-past, ◌<◌,
}
use robinhood_feed_bench.Eira.{Level, Session, Stamped, on_update, on_updates}
use robinhood_feed_bench.Adapter.Delivers.{send_each-all, send_each-short, then_sent}
use robinhood_feed_bench.Adapter.{Sent, after_sent, send_each}

module _ (index : ℕ) (level : Level) (wanted : ℕ) where
  pub session_sent : Session → ℕ → List Stamped → Sent (Session × ℕ)
  session_sent st room [] = ([], some (st, room))
  session_sent st room (s ∷ rest) =
      let (next, events) = on_update index level wanted st s.t s.update in
      let m = send_each room events in after_sent m.0 m.1 λ left. session_sent next left rest

module _ (index : ℕ) (level : Level) (wanted : ℕ) where
  -- Of the events of `on_updates`, the collector gets as many as it takes, from the first on; the
  -- session goes on to the end of the updates just when it takes them all.
  pub session_sent-take :
      (st : Session) (room : ℕ) (us : List Stamped)
      → (let m = session_sent index level wanted st room us in
          let events = (on_updates index level wanted st us).1 in
          (m.0 ≡ take room events) × (is_some m.1 ≡ leb (length events) room))
  unfolding session_sent on_updates
  session_sent-take st room [] = (sym (take-all [] room (omega arith)), ground arith)
  session_sent-take st room (s ∷ rest) =
      let (next, events) = on_update index level wanted st s.t s.update in
      let more = (on_updates index level wanted next rest).1 in
      let go_on = λ (left : ℕ). session_sent index level wanted next left rest in
      let size = length-append events more in
      elim (Bool-cases (leb (length events) room)) [
        | inl all ↦
            let fits : length events ≤ room = ground arith in
            let left = room - length events in
            let (told, ended) = session_sent-take next left rest in
            let e =
              then_sent (send_each room events) go_on events (go_on left).0 left (go_on left).1
                (send_each-all events room fits) refl in
            (
              ap (λ (m : Sent _). m.0) e
                  ∙ ap (λ t. events ++ t) told
                  ∙ sym (take-past events more room fits),
              ap (λ (m : Sent _). is_some m.1) e ∙ ended ∙ ground (arith, size),
            )
        | inr part ↦
            let short : room < length events = ground arith in
            let e =
              ap (λ (m : Sent ℕ). after_sent m.0 m.1 go_on) (send_each-short events room short) in
            (
              ap (λ (m : Sent _). m.0) e ∙ sym (take-append_le room events more (omega arith)),
              ap (λ (m : Sent _). is_some m.1) e ∙ ground (arith, size),
            )
      ]
