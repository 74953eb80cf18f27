-- ===== src/Inflate.antt =====
-- src/inflate.rs: the per-message inflater.
-- flate2 is a parameter: `D` is its `Decompress`, `restart` its `reset(false)`, `set_dictionary` with
-- the Nitro dictionary, and `decompress d input len capacity` its `decompress_vec` into a vector of
-- `len` bytes with that capacity, in `FlushDecompress::None`: the new state, the status, the count
-- of input bytes consumed and the bytes produced. `grow len capacity` is the capacity after
-- `reserve(32 * 1024)`, which is the allocator's choice.
pub mod Runs
pub mod Totals
pub mod Fresh
use robinhood_feed_bench.Common.{
  ℕ, zero, suc, ◌+◌, ◌-◌, ◌*◌, max, Bool, true, false, ◌&&◌, ◌||◌, List, [], ◌∷◌, ◌++◌, Option,
  none, some, length, drop, ltb, ◌==◌, if◌then◌else◌,
}
use robinhood_feed_bench.Common.Results.{Result, ◌and_then◌}

abbrev pub tail : List ℕ
tail = 0 ∷ 0 ∷ 255 ∷ 255 ∷ []

pub data Mode : Type 0 where
  nitro : Mode
  standard : Bool → Mode

pub data Status : Type 0 where
  progress buffer_error stream_end : Status

pub data Fault : Type 0 where
  dictionary corrupt too_long stuck out_of_fuel : Fault

-- One call of `decompress_vec`.
pub record Step (D : Type 0) : Type 0 where
  pub state : D
  pub status : Status
  pub consumed : ℕ
  pub produced : List ℕ

pub record Flate : Type 1 where
  pub D : Type 0
  pub restart : D → D
  pub set_dictionary : D → Option D
  pub decompress : D → List ℕ → ℕ → ℕ → Option (Step D)
  pub grow : ℕ → ℕ → ℕ

abbrev pub is_end : Status → Bool
is_end Status.stream_end = true
is_end _ = false

abbrev pub is_empty : List ℕ → Bool
is_empty [] = true
is_empty (b ∷ bs) = false

module _ (flate : Flate) where
  open flate use {D, restart, set_dictionary, decompress, grow}

  pub record Inflater : Type 0 where
    pub de : D
    pub mode : Mode
    pub max : ℕ
    pub ended : Bool

  -- What a run leaves: the inflater, the output and whether the stream ended. A fault leaves the
  -- inflater in a state that is not used again.
  pub record Ran : Type 0 where
    pub inflater : Inflater
    pub out : List ℕ
    pub final : Bool
    pub capacity : ℕ

  pub reset : Inflater → Result Fault Inflater
  reset inf = elim inf.mode [
    | nitro ↦ elim (set_dictionary (restart inf.de)) [
      | none ↦ Result.err Fault.dictionary
      | some d ↦ Result.ok (record inf { de = d; ended = false })
    ]
    | standard fresh ↦ Result.ok (record inf { de = restart inf.de; ended = false })
  ]

  -- `Inflater::new`; `de` is the `Decompress::new(false)`.
  pub new_inflater : D → Mode → ℕ → Result Fault Inflater
  new_inflater de mode max = reset (record { de = de; mode = mode; max = max; ended = false })

  -- The tests after a call of `decompress_vec`; `again` is the rest of the loop.
  pub settle : Inflater → Step D → List ℕ → List ℕ → ℕ → Result Fault Ran → Result Fault Ran
  settle after step left written capacity again =
      if ltb after.max (length written)
      then Result.err Fault.too_long
      else if is_end step.status
      then Result.ok (record {
        inflater = record after { ended = true };
        out = written;
        final = true;
        capacity = capacity;
      })
      else if is_empty left && is_empty step.produced
      then Result.ok
          (record { inflater = after; out = written; final = false; capacity = capacity })
      else if (step.consumed == 0) && is_empty step.produced
      then Result.err Fault.stuck
      else again

  pub run : ℕ → Inflater → List ℕ → List ℕ → ℕ → Result Fault Ran
  run zero inf input out capacity = Result.err Fault.out_of_fuel
  run (suc fuel) inf input out capacity =
      let room =
        if ltb (capacity - length out) 4096 then grow (length out) capacity else capacity in
      elim (decompress inf.de input (length out) room) [
        | none ↦ Result.err Fault.corrupt
        | some step ↦
            let left = drop step.consumed input in
            let written = out ++ step.produced in
            let after = record inf { de = step.state } in
            let again = run fuel after left written room in
            settle after step left written room again
      ]

  abbrev pub is_fresh : Mode → Bool
  is_fresh Mode.nitro = true
  is_fresh (Mode.standard server_no_context_takeover) = server_no_context_takeover

  -- Every round of the loop that is not the last consumes input or adds output within the limit.
  abbrev pub rounds : Inflater → List ℕ → ℕ
  rounds inf input = suc (length input + inf.max)

  pub inflate_message : Inflater → List ℕ → Result Fault (Inflater × List ℕ)
  inflate_message inf z =
      (if is_fresh inf.mode || inf.ended then reset inf else Result.ok inf) and_then λ start.
      run (rounds start z) start z [] (max (length z * 4) 4096) and_then λ first.
      if first.final
      then Result.ok (first.inflater, first.out)
      else (run (rounds first.inflater tail) first.inflater tail first.out first.capacity
          and_then λ second. Result.ok (second.inflater, second.out))
