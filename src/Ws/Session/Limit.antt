-- ===== src/Ws/Session/Limit.antt =====
-- The limit on a message of src/ws.rs holds through fragments and inflating.
use robinhood_feed_bench.Common.{
  ℕ, zero, suc, ◌+◌, ◌≤◌, ◌<◌, ◌≡◌, ◌≢◌, refl, subst, Bool, true, false, ◌&&◌, List, [], ◌++◌,
  Option, none, some, length, ltb, ◌==◌, if◌then◌else◌, is_some, is_none, arith, Bool-cases,
  Option-cases, inl, inr,
}
use robinhood_feed_bench.Common.Results.{Result, ◌and_then◌}
use robinhood_feed_bench.Event.{Instant}
use robinhood_feed_bench.Inflate.{Flate, Fault, Inflater, inflate_message}
use robinhood_feed_bench.Inflate.Totals.{TakesInput, Sound, inflate_message-Sound}
use robinhood_feed_bench.Ws.{Frame, Parsed, parse_frame, op_ping, op_pong, op_close}
use robinhood_feed_bench.Ws.Stream.{parse_frame-Taken}
use robinhood_feed_bench.Ws.Session.{
  OpenMessage, Message, inflated, Refusal, Client, Handled, Drained, finish, data_frame, on_frame,
  drain, is_start, is_data,
}

abbrev pub FitsOpen : ℕ → Option OpenMessage → Type 0
FitsOpen max none = Unit {0}
FitsOpen max (some o) = length o.acc ≤ max

abbrev pub FitsMessage : ℕ → Option Message → Type 0
FitsMessage max none = Unit {0}
FitsMessage max (some m) = length m.bytes ≤ max

module _ (flate : Flate) (takes : TakesInput flate) where
  abbrev pub FitsInflater : ℕ → Option (Inflater flate) → Type 0
  FitsInflater max none = Unit {0}
  FitsInflater max (some inf) = inf.max ≡ max

  -- The message in progress and the inflater respect the client's limit.
  abbrev pub Fits : ℕ → Client flate → Type 0
  Fits max c = (c.max ≡ max) × FitsOpen max c.in_progress × FitsInflater max c.inflater

  abbrev pub FitsResult : ℕ → Result Refusal (Client flate × Option Message) → Type 0
  FitsResult max (Result.err refusal) = refusal ≢ Refusal.inflating Fault.out_of_fuel
  FitsResult max (Result.ok r) = Fits max r.0 × FitsMessage max r.1

  inflated-Fits :
      (max : ℕ) (c : Client flate) (wire_len : ℕ) (arrival now : Instant)
      (res : Result Fault (Inflater flate × List ℕ))
      → Fits max c
      → Sound flate takes max res
      → FitsResult max (
          inflated res and_then λ (inf', plain). Result.ok (
            record c { inflater = some inf' },
            some (record { bytes = plain; arrival = arrival; decoded = now; wire_len = wire_len }),
          ))
  inflated-Fits max c wire_len arrival now (Result.err fault) fits sound = λ e. sound (cc)
  inflated-Fits max c wire_len arrival now (Result.ok r) fits sound =
      ((fits.0, fits.1, sound.1), sound.0)

  finish-Fits :
      (max : ℕ) (c : Client flate) (compressed : Bool) (payload : List ℕ) (wire_len : ℕ)
      (arrival now : Instant)
      → Fits max c
      → length payload ≤ max
      → FitsResult max (finish flate c compressed payload wire_len arrival now)
  unfolding finish
  finish-Fits max c false payload wire_len arrival now fits within = (fits, within)
  finish-Fits max c true payload wire_len arrival now fits within = elim (Option-cases c.inflater) [
    | inl missing ↦ rw (finish, missing) (λ e. cc)
    | inr (inf, there) ↦
        let same : inf.max ≡ max = rw there at fits.2 in
        rw (finish, there)
          (inflated-Fits max c wire_len arrival now (inflate_message flate inf payload) fits (
            subst (λ k. Sound flate takes k (inflate_message flate inf payload)) same
              (inflate_message-Sound flate takes inf payload)))
  ]

  data_frame-Fits :
      (max : ℕ) (c : Client flate) (f : Frame) (arrival now : Instant)
      → Fits max c
      → length f.payload ≤ max
      → FitsResult max (data_frame flate c f arrival now)
  unfolding data_frame
  data_frame-Fits max c f arrival now fits within = elim (Bool-cases (is_start f.opcode)) [
    | inl starts ↦ rw (data_frame, starts) (start_Fits)
    | inr goes_on ↦ elim (Option-cases c.in_progress) [
      | inl nothing ↦ rw (data_frame, goes_on, nothing) (λ e. cc)
      | inr (o, there) ↦ elim (Bool-cases (ltb c.max (length (o.acc ++ f.payload)))) [
        | inl long ↦ rw (data_frame, goes_on, there, long) (λ e. cc)
        | inr short ↦ elim (Bool-cases f.fin) [
          | inl last ↦
              rw (data_frame, goes_on, there, short, last)
                (finish-Fits max (record c { in_progress = none }) o.compressed (o.acc ++ f.payload)
                  (o.wire_len + f.wire_len) arrival now (fits.0, tt, fits.2)
                  (ground (arith, fits.0)))
          | inr more ↦
              rw (data_frame, goes_on, there, short, more)
                ((fits.0, ground (arith, fits.0), fits.2), tt)
        ]
      ]
    ]
  ]
    where
      start_Fits : FitsResult max (
          if is_some c.in_progress
          then Result.err Refusal.nested
          else if f.rsv1 && is_none c.inflater
          then Result.err Refusal.no_compression
          else if f.fin
          then finish flate c f.rsv1 f.payload f.wire_len arrival now
          else Result.ok (
            record c {
              in_progress =
                  some (record { compressed = f.rsv1; acc = f.payload; wire_len = f.wire_len });
            },
            none,
          ))
      start_Fits = elim (Bool-cases (is_some c.in_progress)) [
        | inl busy ↦ rw busy (λ e. cc)
        | inr idle ↦ elim (Bool-cases (f.rsv1 && is_none c.inflater)) [
          | inl bare ↦ rw (idle, bare) (λ e. cc)
          | inr served ↦ elim (Bool-cases f.fin) [
            | inl last ↦
                rw (idle, served, last)
                  (finish-Fits max c f.rsv1 f.payload f.wire_len arrival now fits within)
            | inr more ↦ rw (idle, served, more) ((fits.0, within, fits.2), tt)
          ]
        ]
      ]

  abbrev pub FitsHandled : ℕ → Result Refusal (Handled flate) → Type 0
  FitsHandled max (Result.err refusal) = refusal ≢ Refusal.inflating Fault.out_of_fuel
  FitsHandled max (Result.ok h) = Fits max h.client × FitsMessage max h.message

  on_frame-Fits :
      (max : ℕ) (c : Client flate) (f : Frame) (arrival now : Instant) (mask : List ℕ)
      → Fits max c
      → length f.payload ≤ max
      → FitsHandled max (on_frame flate c f arrival now mask)
  unfolding on_frame
  on_frame-Fits max c f arrival now mask fits within = elim (Bool-cases (is_data f.opcode)) [
    | inl carries ↦
        rw (on_frame, carries) (handled _ (data_frame-Fits max c f arrival now fits within))
    | inr control ↦ elim (Bool-cases (f.opcode == op_ping)) [
      | inl ping ↦ rw (on_frame, control, ping) (fits, tt)
      | inr no_ping ↦ elim (Bool-cases (f.opcode == op_pong)) [
        | inl pong ↦ rw (on_frame, control, no_ping, pong) (fits, tt)
        | inr no_pong ↦ elim (Bool-cases (f.opcode == op_close)) [
          | inl closes ↦ rw (on_frame, control, no_ping, no_pong, closes) (λ e. cc)
          | inr other ↦ rw (on_frame, control, no_ping, no_pong, other) (λ e. cc)
        ]
      ]
    ]
  ]
    where
      handled :
          (res : Result Refusal (Client flate × Option Message))
          → FitsResult max res
          → FitsHandled max (
              res and_then λ (c', message).
              Result.ok (record { client = c'; message = message; writes = [] }))
      handled (Result.err refusal) h = h
      handled (Result.ok r) h = h

  -- The client and the message are within the limit, and the buffer left has no more than `size`.
  abbrev pub Within : ℕ → ℕ → Result Refusal (Option (Drained flate)) → Type 0
  Within max size (Result.err refusal) = refusal ≢ Refusal.inflating Fault.out_of_fuel
  Within max size (Result.ok none) = ⊥
  Within max size (Result.ok (some d)) =
      Fits max d.handled.client × FitsMessage max d.handled.message × (length d.buf ≤ size)

  -- For a client within its limit, a decompressor that consumes what it is given at most, and more
  -- fuel than the buffer has bytes, `drain` ends with an error other than that of an endless inflater,
  -- or it leaves the client, the message if there is one, and the buffer within their bounds.
  pub drain-Within :
      (fuel : ℕ) (masks : ℕ → List ℕ) (max : ℕ) (c : Client flate) (buf : List ℕ) (n : ℕ)
      (arrival now : Instant)
      → Fits max c
      → length buf < fuel
      → Within max (length buf) (drain flate fuel masks c buf n arrival now)
  unfolding drain
  drain-Within zero masks max c buf n arrival now fits enough = absurd (omega arith)
  drain-Within (suc fuel) masks max c buf n arrival now fits enough =
      parsed (parse_frame buf c.max) refl λ r rest n' fitting shorter.
        drain-Within fuel masks max r rest n' arrival now fitting (omega arith)
    where
      went_on :
          (h : Handled flate) (rest : List ℕ)
          → length rest ≤ length buf
          → (more : Result Refusal (Option (Drained flate))) → Within max (length rest) more
          → Within max (length buf) (
              more and_then λ found. Result.ok (elim found [
                | none ↦ none
                | some last ↦ some (record last {
                  handled = record last.handled { writes = h.writes ++ last.handled.writes };
                })
              ]))
      went_on h rest shorter (Result.err refusal) w = w
      went_on h rest shorter (Result.ok none) w = w
      went_on h rest shorter (Result.ok (some d)) w = (w.0, w.1, omega (arith, w.2))

      Again : Type 0
      Again =
          (r : Client flate) (rest : List ℕ) (n' : ℕ)
          → Fits max r
          → length rest < length buf
          → Within max (length rest) (drain flate fuel masks r rest n' arrival now)

      handled :
          (f : Frame) (rest : List ℕ)
          → length rest < length buf
          → Again
          → (res : Result Refusal (Handled flate)) → FitsHandled max res
          → Within max (length buf) (
              res and_then λ h.
              let again = drain flate fuel masks h.client rest (n + length h.writes) arrival now in
              if is_some h.message
              then Result.ok (some (record { handled = h; buf = rest }))
              else (again and_then λ more. Result.ok (elim more [
                | none ↦ none
                | some last ↦ some (record last {
                  handled = record last.handled { writes = h.writes ++ last.handled.writes };
                })
              ])))
      handled f rest shorter again (Result.err refusal) h = h
      handled f rest shorter again (Result.ok r) h = elim (Bool-cases (is_some r.message)) [
        | inl done ↦ rw done (h.0, h.1, omega arith)
        | inr waits ↦
            rw waits (
              went_on r rest (omega arith) _
                (again r.client rest (n + length r.writes) h.0 shorter))
      ]

      parsed :
          (p : Parsed)
          → parse_frame buf c.max ≡ p
          → Again
          → Within max (length buf) (drain flate (suc fuel) masks c buf n arrival now)
      parsed Parsed.reserved_bits e again = rw (drain, e) (λ x. cc)
      parsed (Parsed.too_long len) e again = rw (drain, e) (λ x. cc)
      parsed Parsed.incomplete e again = rw (drain, e) (fits, tt, omega arith)
      parsed (Parsed.complete f rest) e again =
          let taken = parse_frame-Taken c.max buf f rest e in
          rw (drain, e)
            (handled f rest (omega (arith, taken.0, taken.3)) again _
              (on_frame-Fits max c f arrival now (masks n) fits (omega (arith, taken.2, fits.0))))
