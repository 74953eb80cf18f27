-- ===== src/Ws.antt =====
-- src/ws.rs: the frames of the WebSocket client.
-- A buffer is the list of its bytes; `advance` and `split_to` are `drop`. A mask of bits on a byte
-- is the digits it selects: `b & 0x7f` is `b % 128`, and `b & 0x80 != 0` is the digit at 128.
pub mod Frames
pub mod Stream
pub mod Session
pub mod Negotiation
pub mod Url
pub mod Handshake
mod Runs
use robinhood_feed_bench.Common.{
  ℕ, ◌+◌, ◌-◌, ◌%◌, ◌/◌, Bool, true, false, not, List, [], ◌∷◌, ◌++◌, Option, none, some, length,
  take, drop, get_elem?, ltb, leb, ◌==◌, if◌then◌else◌, unwrap_or,
}
use Prim.Native.Nat.{bit_or, bit_xor}
use robinhood_feed_bench.Common.Bytes.{from_be, to_be}

abbrev pub op_cont : ℕ
op_cont = 0

abbrev pub op_text : ℕ
op_text = 1

abbrev pub op_binary : ℕ
op_binary = 2

abbrev pub op_close : ℕ
op_close = 8

abbrev pub op_ping : ℕ
op_ping = 9

abbrev pub op_pong : ℕ
op_pong = 10

pub record Frame : Type 0 where
  pub fin : Bool
  pub rsv1 : Bool
  pub opcode : ℕ
  pub payload : List ℕ
  pub wire_len : ℕ

-- `complete` carries the buffer after the frame is taken off; otherwise nothing is taken.
pub data Parsed : Type 0 where
  reserved_bits incomplete : Parsed
  too_long : ℕ → Parsed
  complete : Frame → List ℕ → Parsed

-- `b & place != 0` for a power of two.
abbrev pub flag : ℕ → ℕ → Bool
flag b place = b / place % 2 == 1

-- The bytes of the extended length: `len` is the 7-bit field.
abbrev pub extended : ℕ → ℕ
extended len = if len == 126 then 2 else if len == 127 then 8 else 0

-- `*b ^= m[i & 3]` from position `i` on.
pub xor_mask : List ℕ → ℕ → List ℕ → List ℕ
xor_mask m i [] = []
xor_mask m i (b ∷ bs) = bit_xor b (unwrap_or (get_elem? m (i % 4)) 0) ∷ xor_mask m (i + 1) bs

-- From the check of the length on; `hl` is the length of the header.
pub take_frame : ℕ → ℕ → Bool → ℕ → ℕ → List ℕ → Parsed
take_frame b0 max masked hl len buf =
    let payload = take len (drop hl buf) in
    if ltb max len
    then Parsed.too_long len
    else if ltb (length buf) (hl + len)
    then Parsed.incomplete
    else Parsed.complete
        (record {
          fin = flag b0 128;
          rsv1 = flag b0 64;
          opcode = b0 % 16;
          payload = if masked then xor_mask (take 4 (drop (hl - 4) buf)) 0 payload else payload;
          wire_len = hl + len;
        })
        (drop (hl + len) buf)

pub parse_frame : List ℕ → ℕ → Parsed
parse_frame [] max = Parsed.incomplete
parse_frame (b0 ∷ []) max = Parsed.incomplete
parse_frame (b0 ∷ b1 ∷ rest) max =
    let masked = flag b1 128 in
    let len = b1 % 128 in
    let more = extended len in
    let hl = 2 + more + (if masked then 4 else 0) in
    if not (b0 / 16 % 4 == 0)
    then Parsed.reserved_bits
    else if ltb (length rest) more
    then Parsed.incomplete
    else take_frame b0 max masked hl (if more == 0 then len else from_be (take more rest))
        (b0 ∷ b1 ∷ rest)

-- The second byte and the extended length of a frame of `n` bytes.
pub length_field : ℕ → List ℕ
length_field n =
    if ltb n 126
    then bit_or 128 n ∷ []
    else if ltb n 65536
    then bit_or 128 126 ∷ to_be 2 n
    else bit_or 128 127 ∷ to_be 8 n

-- The mask is the four random bytes.
pub client_frame : List ℕ → List ℕ → ℕ → List ℕ
client_frame mask payload opcode =
    bit_or 128 opcode ∷ (length_field (length payload) ++ (mask ++ xor_mask mask 0 payload))
