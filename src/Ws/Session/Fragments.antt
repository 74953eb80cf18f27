-- ===== src/Ws/Session/Fragments.antt =====
-- A message of src/ws.rs that arrives in fragments is the message that one frame would carry.
use robinhood_feed_bench.Common.{
  ℕ, ◌+◌, ◌≤◌, ◌≡◌, refl, sym, ◌∙◌, Bool, true, false, ◌&&◌, List, [], ◌∷◌, ◌++◌, Option, none,
  some, length, length-append, ltb, is_none, arith,
}
use robinhood_feed_bench.Common.Results.{Result, ◌and_then◌}
use robinhood_feed_bench.Event.{Instant}
use robinhood_feed_bench.Inflate.{Flate, Inflater}
use robinhood_feed_bench.Ws.{Frame, op_cont}
use robinhood_feed_bench.Ws.Session.{Message, Refusal, Client, finish, data_frame, is_start}

-- The payload of a fragment and the bytes of its frame.
abbrev pub Piece : Type 0
Piece = List ℕ × ℕ

abbrev pub first_frame : ℕ → Bool → Bool → Piece → Frame
first_frame op fin rsv1 p = record {
  fin = fin;
  rsv1 = rsv1;
  opcode = op;
  payload = p.0;
  wire_len = p.1;
}

-- The continuation frames; the last one ends the message.
abbrev pub continuations : List Piece → Piece → List Frame
continuations [] last = first_frame op_cont true false last ∷ []
continuations (p ∷ ps) last = first_frame op_cont false false p ∷ continuations ps last

abbrev pub joined : Piece → List Piece → Piece → Piece
joined acc [] last = (acc.0 ++ last.0, acc.1 + last.1)
joined acc (p ∷ ps) last = joined (acc.0 ++ p.0, acc.1 + p.1) ps last

joined-length :
    (acc : Piece) (ps : List Piece) (last : Piece) → length acc.0 ≤ length (joined acc ps last).0
joined-length acc [] last = omega (arith, length-append acc.0 last.0)
joined-length acc (p ∷ ps) last =
    omega (arith, length-append acc.0 p.0, joined-length (acc.0 ++ p.0, acc.1 + p.1) ps last)

and_then-ok {ℓ κ} : {E : Type ℓ} {A : Type κ} (m : Result E A) → (m and_then λ a. Result.ok a) ≡ m
and_then-ok (Result.err e) = refl
and_then-ok (Result.ok a) = refl

module _ (flate : Flate) (arrival now : Instant) where
  -- The frames one after another; the outcome is that of the last.
  abbrev pub feed :
      Client flate × Option Message → List Frame → Result Refusal (Client flate × Option Message)
  feed r [] = Result.ok r
  feed r (f ∷ fs) = data_frame flate r.0 f arrival now and_then λ q. feed q fs

  module _ (compressed : Bool) (inflater : Option (Inflater flate)) (max : ℕ) where
    abbrev busy : Piece → Client flate
    busy acc = record {
      inflater = inflater;
      in_progress = some (record { compressed = compressed; acc = acc.0; wire_len = acc.1 });
      max = max;
    }

    abbrev pub idle : Client flate
    idle = record { inflater = inflater; in_progress = none; max = max }

    feed-continuations :
        (acc : Piece) (ps : List Piece) (last : Piece)
        → length (joined acc ps last).0 ≤ max
        → feed (busy acc, none) (continuations ps last)
          ≡ finish flate idle compressed (joined acc ps last).0 (joined acc ps last).1 arrival now
    unfolding data_frame
    feed-continuations acc [] last within =
        let short : ltb max (length (acc.0 ++ last.0)) ≡ false = ground arith in
        rw (data_frame, short) (and_then-ok _)
    feed-continuations acc (p ∷ ps) last within =
        let short : ltb max (length (acc.0 ++ p.0)) ≡ false =
          ground (arith, joined-length (acc.0 ++ p.0, acc.1 + p.1) ps last) in
        rw (data_frame, short) (feed-continuations (acc.0 ++ p.0, acc.1 + p.1) ps last within)

    -- A message in fragments, from an idle client: the outcome is that of a single frame with the
    -- payloads joined, for an opcode that starts a message and a message within the limit that is
    -- compressed only if an inflater was negotiated.
    pub feed-fragments :
        (op : ℕ) (first : Piece) (ps : List Piece) (last : Piece)
        → is_start op ≡ true
        → (compressed && is_none inflater) ≡ false
        → length (joined first ps last).0 ≤ max
        → feed (idle, none) (first_frame op false compressed first ∷ continuations ps last)
          ≡ feed (idle, none) (first_frame op true compressed (joined first ps last) ∷ [])
    unfolding data_frame
    feed-fragments op first ps last starts served within =
        rw (data_frame, starts, served)
          (feed-continuations first ps last within ∙ sym (and_then-ok _))
