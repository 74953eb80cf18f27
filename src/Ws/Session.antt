-- ===== src/Ws/Session.antt =====
-- src/ws.rs: `data_frame`, `finish` and the frames that `next_message` handles before it reads
-- again. `now` is the `Instant::now()` of a message, and `masks n` the random mask of the n-th frame
-- written. The writes are those the client asks for; a write that fails ends the session.
pub mod Fragments
pub mod Limit
mod Runs
use robinhood_feed_bench.Common.{
  ℕ, zero, suc, ◌+◌, ◌-◌, ◌<◌, min, Bool, true, false, not, ◌&&◌, ◌||◌, List, [], ◌∷◌, ◌++◌, Option,
  none, some, length, take, drop, ltb, leb, ◌==◌, if◌then◌else◌, is_some, is_none,
}
use robinhood_feed_bench.Common.Bytes.{from_be}
use robinhood_feed_bench.Common.Results.{Result, ◌and_then◌}
use robinhood_feed_bench.Event.{Instant}
use robinhood_feed_bench.Inflate.{Flate, Fault, Inflater, inflate_message}
use robinhood_feed_bench.Ws.{
  Frame, Parsed, parse_frame, client_frame, op_text, op_binary, op_cont, op_close, op_ping, op_pong,
}

pub record OpenMessage : Type 0 where
  pub compressed : Bool
  pub acc : List ℕ
  pub wire_len : ℕ

pub record Message : Type 0 where
  -- `data`
  pub bytes : List ℕ
  pub arrival : Instant
  pub decoded : Instant
  pub wire_len : ℕ

pub data Refusal : Type 0 where
  nested no_compression no_message message_too_long no_inflater reserved_bits : Refusal
  inflating : Fault → Refusal
  frame_too_long unknown_opcode : ℕ → Refusal
  -- The code, when the frame carries one, and the reason's bytes.
  closed : Option ℕ → List ℕ → Refusal

abbrev inflated {ℓ} : {A : Type ℓ} → Result Fault A → Result Refusal A
inflated (Result.err fault) = Result.err (Refusal.inflating fault)
inflated (Result.ok a) = Result.ok a

-- `OP_TEXT | OP_BINARY` and the three data opcodes.
abbrev pub is_start : ℕ → Bool
is_start op = (op == op_text) || (op == op_binary)

abbrev pub is_data : ℕ → Bool
is_data op = is_start op || (op == op_cont)

module _ (flate : Flate) where
  -- The part of `Client` that the frames change; `in_progress` is its `open`.
  pub record Client : Type 0 where
    pub inflater : Option (Inflater flate)
    pub in_progress : Option OpenMessage
    pub max : ℕ

  pub finish :
      Client → Bool → List ℕ → ℕ → Instant → Instant → Result Refusal (Client × Option Message)
  finish c compressed payload wire_len arrival now =
      if compressed
      then elim c.inflater [
        | none ↦ Result.err Refusal.no_inflater
        | some inf ↦
            (inflated (inflate_message flate inf payload) and_then λ (inf', plain). Result.ok (
              record c { inflater = some inf' },
              some
                  (record { bytes = plain; arrival = arrival; decoded = now; wire_len = wire_len }),
            ))
      ]
      else Result.ok (
        c,
        some (record { bytes = payload; arrival = arrival; decoded = now; wire_len = wire_len }),
      )

  pub data_frame : Client → Frame → Instant → Instant → Result Refusal (Client × Option Message)
  data_frame c f arrival now =
      if is_start f.opcode
      then (if is_some c.in_progress
          then Result.err Refusal.nested
          else if f.rsv1 && is_none c.inflater
          then Result.err Refusal.no_compression
          else if f.fin
          then finish c f.rsv1 f.payload f.wire_len arrival now
          else Result.ok (
            record c {
              in_progress =
                  some (record { compressed = f.rsv1; acc = f.payload; wire_len = f.wire_len });
            },
            none,
          ))
      else elim c.in_progress [
        | none ↦ Result.err Refusal.no_message
        | some o ↦
            let acc = o.acc ++ f.payload in
            let wire_len = o.wire_len + f.wire_len in
            let taken = record c { in_progress = none } in
            if ltb c.max (length acc)
            then Result.err Refusal.message_too_long
            else if f.fin
            then finish taken o.compressed acc wire_len arrival now
            else Result.ok (
              record c {
                in_progress =
                    some (record { compressed = o.compressed; acc = acc; wire_len = wire_len });
              },
              none,
            )
      ]

  -- What a frame leads to: the client after it, the message it completes, and the frames written.
  pub record Handled : Type 0 where
    pub client : Client
    pub message : Option Message
    pub writes : List (List ℕ)

  -- The first two bytes of a close frame are its code.
  abbrev pub close_code : List ℕ → Option ℕ
  close_code payload = if ltb (length payload) 2 then none else some (from_be (take 2 payload))

  -- A close frame is answered with its code before the session ends; `Refusal` drops the answer.
  pub on_frame : Client → Frame → Instant → Instant → List ℕ → Result Refusal Handled
  on_frame c f arrival now mask =
      if is_data f.opcode
      then (data_frame c f arrival now and_then λ (c', message).
          Result.ok (record { client = c'; message = message; writes = [] }))
      else if f.opcode == op_ping
      then Result.ok
          (record { client = c; message = none; writes = client_frame mask f.payload op_pong ∷ [] })
      else if f.opcode == op_pong
      then Result.ok (record { client = c; message = none; writes = [] })
      else if f.opcode == op_close
      then Result.err
          (Refusal.closed (close_code f.payload) (drop (min (length f.payload) 2) f.payload))
      else Result.err (Refusal.unknown_opcode f.opcode)

  -- Where the frames of the buffer lead: a message, or no complete frame is left.
  pub record Drained : Type 0 where
    pub handled : Handled
    pub buf : List ℕ

  -- The inner loop of `next_message`: `n` is the count of frames written before. The answer is `none`
  -- where the fuel runs out.
  pub drain :
      ℕ → (ℕ → List ℕ) → Client → List ℕ → ℕ → Instant → Instant → Result Refusal (Option Drained)
  drain zero masks c buf n arrival now = Result.ok none
  drain (suc fuel) masks c buf n arrival now = elim (parse_frame buf c.max) [
    | Parsed.reserved_bits ↦ Result.err Refusal.reserved_bits
    | Parsed.too_long len ↦ Result.err (Refusal.frame_too_long len)
    | Parsed.incomplete ↦
        Result.ok (
          some (record { handled = record { client = c; message = none; writes = [] }; buf = buf }))
    | Parsed.complete f rest ↦
        (on_frame c f arrival now (masks n) and_then λ handled.
        let again = drain fuel masks handled.client rest (n + length handled.writes) arrival now in
        if is_some handled.message
        then Result.ok (some (record { handled = handled; buf = rest }))
        else (again and_then λ more. Result.ok (elim more [
          | none ↦ none
          | some last ↦ some (record last {
            handled = record last.handled { writes = handled.writes ++ last.handled.writes };
          })
        ])))
  ]
