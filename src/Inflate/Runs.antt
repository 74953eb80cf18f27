-- ===== src/Inflate/Runs.antt =====
-- Messages through a decompressor of src/inflate.rs that copies its input.
use robinhood_feed_bench.Common.{ℕ, ◌+◌, ◌≡◌, ap, sym, false, List, [], ◌∷◌, some, length, arith}
use robinhood_feed_bench.Inflate.{Flate, Step, Mode, Status, inflate_message}
use robinhood_feed_bench.Inflate.Totals.{TakesInput, Sound, inflate_message-Sound}

abbrev copy_step : ℕ → List ℕ → Step ℕ
copy_step d input = record {
  state = d + 1;
  status = Status.progress;
  consumed = length input;
  produced = input;
}

abbrev pub copy : Flate
copy = record {
  D = ℕ;
  restart = λ d. 0;
  set_dictionary = λ d. some d;
  decompress = λ d input len capacity. some (copy_step d input);
  grow = λ len capacity. len + 32768;
}

pub copy-TakesInput : TakesInput copy
copy-TakesInput d input len capacity step e =
    let same : step.consumed ≡ length input = ap (λ s. s.consumed) (sym (some_eq e)) in omega arith
  where
    some_eq : some (copy_step d input) ≡ some step → copy_step d input ≡ step
    some_eq e = cc

inflate_message-Sound_example : Sound copy copy-TakesInput 10 (
    inflate_message copy
      (record { de = 7; mode = Mode.standard false; max = 10; ended = false })
      (1 ∷ 2 ∷ []))
inflate_message-Sound_example =
    inflate_message-Sound copy copy-TakesInput
      (record { de = 7; mode = Mode.standard false; max = 10; ended = false }) (1 ∷ 2 ∷ [])
