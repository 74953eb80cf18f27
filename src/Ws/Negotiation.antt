-- ===== src/Ws/Negotiation.antt =====
-- src/ws.rs: the compression that the client offers and accepts, and how long it waits to dial
-- again. A `Duration` counts nanoseconds.
pub mod Offered
mod Runs
use robinhood_feed_bench.Common.{
  ℕ, ◌*◌, ◌/◌, ◌^◌, max, Bool, true, false, not, ◌&&◌, ◌||◌, List, [], ◌∷◌, ◌++◌, map, Option, none,
  some, if◌then◌else◌, unwrap_or, ◌==◌,
}
use robinhood_feed_bench.Common.Texts.{Text, codes, text_eq}
use robinhood_feed_bench.Common.Results.{Result, ◌and_then◌}
use robinhood_feed_bench.Common.Splits.{split, trim, lowercase, same_word}
use robinhood_feed_bench.Inflate.{Mode}

abbrev pub nitro_extension : Text
nitro_extension = codes "Arbitrum-permessage-deflate"

abbrev pub standard_extension : Text
standard_extension = codes "permessage-deflate"

abbrev pub extension_params : Text
extension_params = codes "server_no_context_takeover; client_no_context_takeover"

pub data Offer : Type 0 where
  auto nitro standard nothing : Offer

unfoldable pub header_value : Offer → Option Text
header_value offer =
    let nitro_offer = nitro_extension ++ (codes "; " ++ extension_params) in
    let standard_offer = standard_extension ++ (codes "; " ++ extension_params) in
    elim offer [
      | Offer.auto ↦ some (nitro_offer ++ (codes ", " ++ standard_offer))
      | Offer.nitro ↦ some nitro_offer
      | Offer.standard ↦ some standard_offer
      | Offer.nothing ↦ none
    ]

pub record Rejected : Type 0 where
  pub status : ℕ
  pub reason : Text
  pub retry_after : Option ℕ

abbrev pub second : ℕ
second = 10 ^ 9

-- The error of a failed connect is a `Rejected` or another one, `none`.
pub retry_delay : Option Rejected → ℕ → ℕ
retry_delay none backoff = backoff
retry_delay (some r) backoff =
    if r.status == 429
    then max (unwrap_or r.retry_after 45) 45 * second
    else unwrap_or r.retry_after (backoff / second) * second

pub data Refusal : Type 0 where
  -- The extension's name, or the parameter's.
  unknown_extension not_offered unknown_parameter : Text → Refusal

-- `p.split('=').next().unwrap_or("").trim().to_ascii_lowercase()`
abbrev pub parameter_key : Text → Text
parameter_key p = elim (split 61 p) [ [] ↦ [] | key ∷ more ↦ lowercase (trim key) ]

-- The parameters after the name; the flag is `server_no_context_takeover` so far.
pub read_parameters : Bool → List Text → Result Refusal Bool
read_parameters flag [] = Result.ok flag
read_parameters flag ([] ∷ ps) = read_parameters flag ps
read_parameters flag ((c ∷ cs) ∷ ps) =
    let key = parameter_key (c ∷ cs) in
    let ignored = read_parameters flag ps in
    let set = read_parameters true ps in
    if text_eq key (codes "server_no_context_takeover")
    then set
    else if text_eq key (codes "client_no_context_takeover")
        || text_eq key (codes "server_max_window_bits")
        || text_eq key (codes "client_max_window_bits")
    then ignored
    else Result.err (Refusal.unknown_parameter key)

abbrev pub is_offered : Offer → Bool → Bool → Bool
is_offered Offer.auto nitro_named standard_named = true
is_offered Offer.nitro nitro_named standard_named = nitro_named
is_offered Offer.standard nitro_named standard_named = standard_named
is_offered Offer.nothing nitro_named standard_named = false

-- The body of the loop over the extensions, for one of them.
pub read_extension : Offer → Text → List Text → Result Refusal (Option Mode)
read_extension offer name parameters =
    let nitro_named = same_word name nitro_extension in
    let standard_named = same_word name standard_extension in
    if not nitro_named && not standard_named
    then Result.err (Refusal.unknown_extension name)
    else if not (is_offered offer nitro_named standard_named)
    then Result.err (Refusal.not_offered name)
    else (read_parameters false parameters and_then λ flag.
        Result.ok (some (if nitro_named then Mode.nitro else Mode.standard flag)))

-- The loop returns in its first round, unless a part had no name, which `split` never leaves.
pub read_extensions : Offer → List Text → Result Refusal (Option Mode)
read_extensions offer [] = Result.ok none
read_extensions offer (ext ∷ exts) = elim (map trim (split 59 ext)) [
  | [] ↦ read_extensions offer exts
  | name ∷ parameters ↦ read_extension offer name parameters
]

pub negotiated_mode : Text → Offer → Result Refusal (Option Mode)
negotiated_mode header offer = read_extensions offer (split 44 header)
