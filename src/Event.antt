-- ===== src/Event.antt =====
-- src/event.rs: what every source adapter sends to the collector.
-- An `Instant` is a number of nanoseconds on the one monotonic clock; a hash is its 32 bytes.
use robinhood_feed_bench.Common.{
  ℕ, ◌+◌, ◌-◌, ◌*◌, ◌^◌, Bool, List, Option, none, some, leb, if◌then◌else◌,
}
use robinhood_feed_bench.Common.Texts.{Text}

abbrev pub Instant : Type 0
Instant = ℕ

-- The last instant that the clock of Linux can tell, of 2 ^ 63 seconds.
unfoldable pub latest : Instant
latest = 2 ^ 63 * 10 ^ 9 - 1

-- `Instant + Duration`, which panics on overflow.
unfoldable pub later : Instant → ℕ → Option Instant
later t d = if leb (t + d) latest then some (t + d) else none

abbrev pub Hash : Type 0
Hash = List ℕ

pub data Payload : Type 0 where
  -- key, seq, hash, tx_count, wire_len
  block : Text → Option ℕ → Option Text → Option ℕ → ℕ → Payload
  -- hash, block_key, tx_count, synthetic_swap, raw_len
  tx : Hash → Option Text → Option ℕ → Bool → ℕ → Payload
  -- detail
  connected : Text → Payload
  -- reason
  disconnected : Text → Payload

pub record Event : Type 0 where
  pub source : ℕ
  pub t : Instant
  pub payload : Payload

pub data Stamp : Type 0 where
  arrival decoded : Stamp
