-- ===== src/Inflate/Totals.antt =====
-- The loops of src/inflate.rs end, within the limit, and a Nitro message does not depend on the
-- messages before it.
use robinhood_feed_bench.Common.{
  ℕ, zero, suc, ◌+◌, ◌-◌, ◌*◌, ◌≤◌, ◌<◌, ◌≡◌, ◌≢◌, refl, ◌∙◌, max, Bool, false, ◌&&◌, ◌||◌, List,
  [], ◌∷◌, ◌++◌, some, length, length-append, length-drop, drop, ltb, ◌==◌, if◌then◌else◌, arith,
  Bool-cases, Option-cases, inl, inr,
}
use robinhood_feed_bench.Common.Results.{Result, ◌and_then◌}
use robinhood_feed_bench.Inflate.{
  Flate, Step, Mode, Fault, Inflater, Ran, reset, run, settle, inflate_message, tail, is_empty,
  is_end, is_fresh, rounds,
}

-- `decompress_vec` consumes what it is given at most.
abbrev pub TakesInput : Flate → Type 0
TakesInput flate =
    (d : flate.D) (input : List ℕ) (len capacity : ℕ) (step : Step flate.D)
    → flate.decompress d input len capacity ≡ some step
    → step.consumed ≤ length input

module _ (flate : Flate) (takes : TakesInput flate) where
  open flate use {D, decompress, grow}

  abbrev Fine : ℕ → Result Fault (Ran flate) → Type 0
  Fine limit (Result.err fault) = fault ≢ Fault.out_of_fuel
  Fine limit (Result.ok r) =
      (length r.out ≤ limit) × (r.inflater.max ≡ limit) × (r.inflater.ended ≡ r.final)

  settle-Fine :
      (after : Inflater flate) (step : Step D) (left written : List ℕ) (capacity : ℕ)
      (again : Result Fault (Ran flate))
      → after.ended ≡ false
      → (length written ≤ after.max
          → 1 ≤ step.consumed + length step.produced
          → Fine after.max again)
      → Fine after.max (settle flate after step left written capacity again)
  unfolding settle
  settle-Fine after step left written capacity again live rest =
      elim (Bool-cases (ltb after.max (length written))) [
        | inl long ↦ rw (Fine, settle, long) (λ e. cc)
        | inr within ↦ elim (Bool-cases (is_end step.status)) [
          | inl ends ↦ rw (Fine, settle, within, ends) (ground arith)
          | inr goes ↦ elim (Bool-cases (is_empty left && is_empty step.produced)) [
            | inl idle ↦ rw (Fine, settle, within, goes, idle) (ground arith)
            | inr busy ↦ elim (Bool-cases ((step.consumed == 0) && is_empty step.produced)) [
              | inl stuck ↦ rw (Fine, settle, within, goes, busy, stuck) (λ e. cc)
              | inr moved ↦
                  rw (settle, within, goes, busy, moved)
                    (rest (ground arith) (some_work step moved))
            ]
          ]
        ]
      ]
    where
      some_work :
          (step : Step D)
          → ((step.consumed == 0) && is_empty step.produced) ≡ false
          → 1 ≤ step.consumed + length step.produced
      some_work step h = work step.consumed step.produced h
        where
          work : (c : ℕ) (p : List ℕ) → ((c == 0) && is_empty p) ≡ false → 1 ≤ c + length p
          work c [] h = ground arith
          work c (b ∷ bs) h = omega arith

  run-Fine :
      (fuel : ℕ) (inf : Inflater flate) (input out : List ℕ) (capacity : ℕ)
      → length out ≤ inf.max
      → inf.ended ≡ false
      → length input + (inf.max - length out) < fuel
      → Fine inf.max (run flate fuel inf input out capacity)
  unfolding run
  run-Fine zero inf input out capacity within live enough = absurd (omega arith)
  run-Fine (suc fuel) inf input out capacity within live enough =
      let room =
        if ltb (capacity - length out) 4096 then grow (length out) capacity else capacity in
      elim (Option-cases (decompress inf.de input (length out) room)) [
        | inl broken ↦ rw (run, broken) (λ e. cc)
        | inr (step, stepped) ↦
            rw (run, stepped)
              (settle-Fine (record inf { de = step.state }) step (drop step.consumed input)
                (out ++ step.produced) room _ live
                λ fits worked.
                  run-Fine fuel (record inf { de = step.state }) (drop step.consumed input)
                    (out ++ step.produced) room fits live
                    (omega (
                      arith,
                      takes inf.de input (length out) room step stepped,
                      length-drop step.consumed input,
                      length-append out step.produced,
                    )))
      ]

  -- What `reset` leaves, or it reports the dictionary.
  abbrev Restarted : Inflater flate → Result Fault (Inflater flate) → Type 0
  Restarted inf (Result.err fault) = fault ≢ Fault.out_of_fuel
  Restarted inf (Result.ok start) = (start.max ≡ inf.max) × (start.ended ≡ false)

  reset-Restarted : (inf : Inflater flate) → Restarted inf (reset flate inf)
  unfolding reset
  reset-Restarted inf = restarted inf.mode refl
    where
      restarted : (mode : Mode) → inf.mode ≡ mode → Restarted inf (reset flate inf)
      restarted Mode.nitro e = elim (Option-cases (flate.set_dictionary (flate.restart inf.de))) [
        | inl refused ↦ rw (Restarted, reset, e, refused) (λ e. cc)
        | inr (d, set) ↦ rw (Restarted, reset, e, set) (refl, refl)
      ]
      restarted (Mode.standard fresh) e = rw (Restarted, reset, e) (refl, refl)

  abbrev pub Sound : ℕ → Result Fault (Inflater flate × List ℕ) → Type 0
  Sound limit (Result.err fault) = fault ≢ Fault.out_of_fuel
  Sound limit (Result.ok r) = (length r.1 ≤ limit) × (r.0.max ≡ limit)

  module _ (limit : ℕ) (z : List ℕ) where
    second-Sound :
        (first : Ran flate)
        → Fine limit (Result.ok first)
        → Sound limit (
            if first.final
            then Result.ok (first.inflater, first.out)
            else (run flate
                  (rounds flate first.inflater tail)
                  first.inflater
                  tail
                  first.out
                  first.capacity
                and_then λ second. Result.ok (second.inflater, second.out)))
    second-Sound first fine = elim (Bool-cases first.final) [
      | inl over ↦ rw over (fine.0, fine.1)
      | inr goes ↦ rw goes (
          sound _ (
            run-Fine (rounds flate first.inflater tail) first.inflater tail first.out first.capacity
              (omega (arith, fine.0, fine.1)) (fine.2 ∙ goes) (omega arith)))
    ]
      where
        sound :
            (ran : Result Fault (Ran flate))
            → Fine first.inflater.max ran
            → Sound limit (ran and_then λ second. Result.ok (second.inflater, second.out))
        sound (Result.err fault) h = h
        sound (Result.ok second) h = (omega (arith, h.0, fine.1), h.1 ∙ fine.1)

    started :
        (start : Inflater flate)
        → start.max ≡ limit
        → start.ended ≡ false
        → Sound limit (
            run flate (rounds flate start z) start z [] (max (length z * 4) 4096) and_then λ first.
            if first.final
            then Result.ok (first.inflater, first.out)
            else (run flate
                  (rounds flate first.inflater tail)
                  first.inflater
                  tail
                  first.out
                  first.capacity
                and_then λ second. Result.ok (second.inflater, second.out)))
    started start same live = next _ (
        run-Fine (rounds flate start z) start z [] (max (length z * 4) 4096) (omega arith) live
          (omega arith))
      where
        next :
            (ran : Result Fault (Ran flate))
            → Fine start.max ran
            → Sound limit (
                ran and_then λ first.
                if first.final
                then Result.ok (first.inflater, first.out)
                else (run flate
                      (rounds flate first.inflater tail)
                      first.inflater
                      tail
                      first.out
                      first.capacity
                    and_then λ second. Result.ok (second.inflater, second.out)))
        next (Result.err fault) h = h
        next (Result.ok first) h = second-Sound first (omega (arith, h.0, same), h.1 ∙ same, h.2)

  -- A message is inflated, or refused for a fault of the stream or of the dictionary: for a
  -- decompressor that consumes what it is given at most, both loops end within the rounds allowed,
  -- whatever the inflater held before, and what is returned is within the limit.
  pub inflate_message-Sound :
      (inf : Inflater flate) (z : List ℕ) → Sound inf.max (inflate_message flate inf z)
  unfolding inflate_message
  inflate_message-Sound inf z = elim (Bool-cases (is_fresh flate inf.mode || inf.ended)) [
    | inl anew ↦ rw (inflate_message, anew) (from_reset _ (reset-Restarted inf))
    | inr goes_on ↦ rw (inflate_message, goes_on) (started inf.max z inf refl (ground arith))
  ]
    where
      from_reset :
          (start : Result Fault (Inflater flate))
          → Restarted inf start
          → Sound inf.max (
              start and_then λ begun.
              run flate (rounds flate begun z) begun z [] (max (length z * 4) 4096)
              and_then λ first.
                  if first.final
                  then Result.ok (first.inflater, first.out)
                  else (run flate
                        (rounds flate first.inflater tail)
                        first.inflater
                        tail
                        first.out
                        first.capacity
                      and_then λ second. Result.ok (second.inflater, second.out)))
      from_reset (Result.err fault) h = h
      from_reset (Result.ok start) h = started inf.max z start h.0 h.1

-- With the Nitro extension a message does not depend on the messages before it: two inflaters
-- of that mode with the same limit give the same outcome, for a decompressor that `reset` takes
-- to one state.
pub inflate_message-nitro :
    (flate : Flate) (max : ℕ) (d e : flate.D) (ended_d ended_e : Bool) (z : List ℕ)
    → flate.restart d ≡ flate.restart e
    → inflate_message flate (record { de = d; mode = Mode.nitro; max = max; ended = ended_d }) z
      ≡ inflate_message flate (record { de = e; mode = Mode.nitro; max = max; ended = ended_e }) z
unfolding inflate_message reset
inflate_message-nitro flate max d e ended_d ended_e z same = rw (inflate_message, reset, same) refl
