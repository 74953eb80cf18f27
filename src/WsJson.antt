-- ===== src/WsJson.antt =====
-- src/wsjson.rs: what is taken out of a JSON message, and the events it becomes.
-- `Value` is the tree of serde_json; a number is the text that it prints. `from_slice` (serde_json),
-- `hex_decode` (the hex crate) and `keccak256` are parameters. `usize` has 64 bits.
pub mod Paths
pub mod Keys
mod Runs
use robinhood_feed_bench.Common.{
  ℕ, ◌+◌, ◌%◌, ◌^◌, Bool, true, false, not, ◌&&◌, ◌||◌, List, [], ◌∷◌, ◌++◌, map, Option, none,
  some, length, get_elem?, leb, ◌==◌, if◌then◌else◌, ◌>>=◌,
}
use robinhood_feed_bench.Common.Texts.{Text, text_eq, codes}
use robinhood_feed_bench.Common.Splits.{split, trim}
use robinhood_feed_bench.Common.Parse.{parse_unsigned}
use robinhood_feed_bench.Event.{Instant, Hash, Payload, Event}

mutual
  pub data Value : Type 0 where
    null : Value
    bool : Bool → Value
    number string : Text → Value
    array : Items → Value
    object : Members → Value

  pub data Items : Type 0 where
    end : Items
    item : Value → Items → Items

  pub data Members : Type 0 where
    close : Members
    member : Text → Value → Members → Members

abbrev pub items_list : Items → List Value
items_list Items.end = []
items_list (Items.item v vs) = v ∷ items_list vs

abbrev pub find_member : Text → Members → Option Value
find_member name Members.close = none
find_member name (Members.member key v ms) =
    if text_eq key name then some v else find_member name ms

-- `Value::get` with a name and with an index, `as_array` and `as_str`.
abbrev pub get_name : Text → Value → Option Value
get_name name (Value.object ms) = find_member name ms
get_name name _ = none

abbrev pub get_index : ℕ → Value → Option Value
get_index i (Value.array vs) = get_elem? (items_list vs) i
get_index i _ = none

abbrev pub as_array : Value → List Value
as_array (Value.array vs) = items_list vs
as_array _ = []

abbrev pub as_str : Value → Option Text
as_str (Value.string s) = some s
as_str _ = none

abbrev pub filter_map {ℓ} : {A : Type ℓ} {B : Type ℓ} → (A → Option B) → List A → List B
filter_map f [] = []
filter_map f (x ∷ xs) = elim (f x) [ none ↦ filter_map f xs | some y ↦ y ∷ filter_map f xs ]

-- `filter_map(|x| x.as_array()).flatten()`
abbrev pub fan_out : List Value → List Value
fan_out [] = []
fan_out (v ∷ vs) = as_array v ++ fan_out vs

abbrev pub trim_open : Text → Text
trim_open [] = []
trim_open (c ∷ cs) = if c == b'[' then trim_open cs else c ∷ cs

-- One step of the loop over `brackets.split(']')`; `none` is the `return Vec::new()`.
pub bracket : List Value → Text → Option (List Value)
bracket cur [] = some cur
bracket cur (c ∷ cs) = elim (trim_open (c ∷ cs)) [
  | [] ↦ some (fan_out cur)
  | d ∷ ds ↦ (do i ← parse_unsigned (2 ^ 64) (d ∷ ds); some (filter_map (get_index i) cur))
]

pub brackets : List Value → List Text → Option (List Value)
brackets cur [] = some cur
brackets cur (b ∷ bs) = do next ← bracket cur b; brackets next bs

-- `seg.find('[')`: what is before it, and what starts with it.
abbrev pub before_open : Text → Text
before_open [] = []
before_open (c ∷ cs) = if c == b'[' then [] else c ∷ before_open cs

abbrev pub from_open : Text → Text
from_open [] = []
from_open (c ∷ cs) = if c == b'[' then c ∷ cs else from_open cs

pub descend : Text → List Value → List Value
descend [] cur = cur
descend (c ∷ cs) cur = filter_map (get_name (c ∷ cs)) cur

-- An empty segment has neither a name nor brackets.
pub segments : List Value → List Text → Option (List Value)
segments cur [] = some cur
segments cur (seg ∷ segs) = do
  next ← brackets (descend (before_open seg) cur) (split b']' (from_open seg))
  segments next segs

pub extract : Value → Text → List Value
extract v path = elim (segments (v ∷ []) (split b'.' path)) [ none ↦ [] | some cur ↦ cur ]

-- `s.strip_prefix("0x").or_else(|| s.strip_prefix("0X")).unwrap_or(s)`
abbrev pub strip_0x : Text → Text
strip_0x [] = []
strip_0x (c ∷ []) = c ∷ []
strip_0x (c ∷ d ∷ ds) = if (c == b'0') && ((d == b'x') || (d == b'X')) then ds else c ∷ d ∷ ds

abbrev pub is_hex : ℕ → Bool
is_hex c = leb b'0' c && leb c b'9' || leb b'a' c && leb c b'f' || leb b'A' c && leb c b'F'

abbrev pub all_hex : Text → Bool
all_hex [] = true
all_hex (c ∷ cs) = is_hex c && all_hex cs

abbrev pub is_empty : Text → Bool
is_empty [] = true
is_empty (c ∷ cs) = false

module _ (from_slice : List ℕ → Option Value) (hex_decode : Text → Option (List ℕ))
    (keccak256 : List ℕ → Hash) where
  -- A text with other code points than the hexadecimal digits is refused, whatever its length.
  abbrev pub refused : Text → Bool
  refused hexs = is_empty hexs || not (length hexs % 2 == 0) || not (all_hex hexs)

  pub key_of_bytes : List ℕ → Hash × ℕ
  key_of_bytes bytes =
      if length bytes == 32 then (bytes, 0) else (keccak256 bytes, length bytes % 2 ^ 32)

  -- The digits after the prefix.
  pub key_of_hex : Text → Option (Hash × ℕ)
  key_of_hex hexs =
      if refused hexs then none else do bytes ← hex_decode hexs; some (key_of_bytes bytes)

  pub key_from_value : Value → Option (Hash × ℕ)
  key_from_value v = do s ← as_str v; key_of_hex (strip_0x (trim s))

  unfoldable pub tx_event : ℕ → Instant → Hash × ℕ → Event
  tx_event index t (hash, raw_len) = record {
    source = index;
    t = t;
    payload = Payload.tx hash none none false raw_len;
  }

  -- The body of the loop over the messages: what it sends.
  unfoldable pub on_message : ℕ → Text → Instant → List ℕ → List Event
  on_message index path t bytes = elim (from_slice bytes) [
    | none ↦ []
    | some v ↦ map (tx_event index t) (filter_map key_from_value (extract v path))
  ]
