-- ===== src/Ws/Frames.antt =====
-- The round trip of the frames of src/ws.rs: what `client_frame` writes, `parse_frame` reads.
use Prim.Native.Nat.{bit_or}
use robinhood_feed_bench.Common.{
  ℕ, ◌+◌, ◌-◌, ◌%◌, ◌/◌, ◌^◌, ◌≤◌, ◌<◌, ◌≡◌, refl, ap, sym, subst, ◌∙◌, true, false, List, [], ◌∷◌,
  ◌++◌, All-get, get_elem?, get_elem?-in, unwrap_or, length, length-append, take, drop, ltb, ◌==◌,
  if◌then◌else◌, Bool-cases, inl, inr, arith, take-length_append, drop-length_append, drop-drop,
}
use mathlib.Core.List.{append_assoc}
use robinhood_feed_bench.Common.Bits.{bit_or_field, bit_xor_twice}
use robinhood_feed_bench.Common.Bytes.{IsByte, IsBytes, from_be, to_be, length-to_be, from_be-to_be}
use robinhood_feed_bench.Ws.{
  Parsed, flag, extended, xor_mask, take_frame, parse_frame, length_field, client_frame,
}
use robinhood_feed_bench.Ws.Stream.{length-xor_mask}

module _ {ℓ} {A : Type ℓ} where
  drop-n_append : (n : ℕ) (xs ys : List A) → length xs ≡ n → drop n (xs ++ ys) ≡ ys
  drop-n_append n xs ys h = subst (λ k. drop k (xs ++ ys) ≡ ys) h (drop-length_append xs ys)

  take-n_append : (n : ℕ) (xs ys : List A) → length xs ≡ n → take n (xs ++ ys) ≡ xs
  take-n_append n xs ys h = subst (λ k. take k (xs ++ ys) ≡ xs) h (take-length_append xs ys)

module _ (mask : List ℕ) (four : length mask ≡ 4) (bytes : IsBytes mask) where
  mask_byte : (i : ℕ) → unwrap_or (get_elem? mask (i % 4)) 0 < 256
  mask_byte i =
      let (a, e) = get_elem?-in mask (i % 4) (omega arith) in
      rw e (All-get IsByte mask (i % 4) a bytes e)

  xor_mask_twice : (i : ℕ) (bs : List ℕ) → IsBytes bs → xor_mask mask i (xor_mask mask i bs) ≡ bs
  unfolding xor_mask
  xor_mask_twice i [] h = refl
  xor_mask_twice i (b ∷ bs) h =
      rw (bit_xor_twice 8 b _ h.0 (mask_byte i), xor_mask_twice (i + 1) bs h.1)

  take_frame-body :
      (b0 max : ℕ) (head body rest : List ℕ)
      → length body ≤ max
      → IsBytes body
      → take_frame b0 max true
          (length head + 4)
          (length body)
          (head ++ (mask ++ (xor_mask mask 0 body ++ rest)))
        ≡ Parsed.complete
            (record {
              fin = flag b0 128;
              rsv1 = flag b0 64;
              opcode = b0 % 16;
              payload = body;
              wire_len = length head + 4 + length body;
            })
            rest
  unfolding take_frame
  take_frame-body b0 max head body rest within ok =
      let coded = xor_mask mask 0 body in
      let buf = head ++ (mask ++ (coded ++ rest)) in
      let past_head : drop (length head) buf ≡ mask ++ (coded ++ rest) =
        drop-length_append head (mask ++ (coded ++ rest)) in
      let past_mask : drop (length head + 4) buf ≡ coded ++ rest =
        sym (drop-drop 4 (length head) buf)
        ∙ ap (drop 4) past_head
        ∙ drop-n_append 4 mask (coded ++ rest) four in
      let coded_len : length coded ≡ length body = length-xor_mask mask 0 body in
      let past_all : drop (length head + 4 + length body) buf ≡ rest =
        sym (drop-drop (length body) (length head + 4) buf)
        ∙ ap (drop (length body)) past_mask
        ∙ drop-n_append (length body) coded rest coded_len in
      let mask_read : take 4 (drop (length head + 4 - 4) buf) ≡ mask =
        ap (λ k. take 4 (drop k buf)) (omega arith)
        ∙ ap (take 4) past_head
        ∙ take-n_append 4 mask (coded ++ rest) four in
      let body_read : take (length body) (drop (length head + 4) buf) ≡ coded =
        ap (take (length body)) past_mask ∙ take-n_append (length body) coded rest coded_len in
      let whole : ltb (length buf) (length head + 4 + length body) ≡ false = ground (
        arith,
        four,
        coded_len,
        length-append head (mask ++ (coded ++ rest)),
        length-append mask (coded ++ rest),
        length-append coded rest,
      ) in
      let limit : ltb max (length body) ≡ false = ground arith in
      rw (take_frame, limit, whole, mask_read, body_read, past_all, xor_mask_twice 0 body ok) refl

marked : (k : ℕ) → k < 128 → bit_or 128 k ≡ 128 + k
marked k h = bit_or_field 7 1 k h

-- What is read of the length that `length_field` wrote, with the bytes that it takes.
record ReadsLength (n : ℕ) (b1 : ℕ) (ext : List ℕ) : Type 0 where
  masked : flag b1 128 ≡ true
  size : extended (b1 % 128) ≡ length ext
  value : (if extended (b1 % 128) == 0 then b1 % 128 else from_be ext) ≡ n

length_field-reads :
    (n : ℕ)
    → n < 2 ^ 64
    → (b1 : ℕ) × (ext : List ℕ) × (length_field n ≡ b1 ∷ ext) × ReadsLength n b1 ext
unfolding length_field
length_field-reads n h = elim (Bool-cases (ltb n 126)) [
  | inl short ↦ (
    128 + n,
    [],
    rw (length_field, short, marked n (ground arith)) refl,
    record { masked = ground arith; size = ground arith; value = ground arith },
  )
  | inr longer ↦ elim (Bool-cases (ltb n 65536)) [
    | inl middle ↦ (
      254,
      to_be 2 n,
      rw (length_field, longer, middle, marked 126 (omega arith)) refl,
      record {
        masked = refl;
        size = sym (length-to_be 2 n);
        value = from_be-to_be 2 n (ground arith);
      },
    )
    | inr long ↦ (
      255,
      to_be 8 n,
      rw (length_field, longer, long, marked 127 (omega arith)) refl,
      record {
        masked = refl;
        size = sym (length-to_be 8 n);
        value = from_be-to_be 8 n (ground arith);
      },
    )
  ]
]

-- `parse_frame` reads back the frame that `client_frame` wrote, unmasked, and leaves what stands
-- behind it, for four mask bytes, a 4-bit opcode and a payload within the limit and 64 bits.
pub parse_frame-client_frame :
    (mask payload rest : List ℕ) (opcode max : ℕ)
    → length mask ≡ 4
    → IsBytes mask
    → IsBytes payload
    → opcode < 16
    → length payload ≤ max
    → length payload < 2 ^ 64
    → parse_frame (client_frame mask payload opcode ++ rest) max
      ≡ Parsed.complete
          (record {
            fin = true;
            rsv1 = false;
            opcode = opcode;
            payload = payload;
            wire_len = length (client_frame mask payload opcode);
          })
          rest
unfolding client_frame parse_frame
parse_frame-client_frame mask payload rest opcode max four ok_mask ok_payload ok_op within fits =
    let coded = xor_mask mask 0 payload in
    let (b1, ext, written, reads) = length_field-reads (length payload) fits in
    let b0 = 128 + opcode in
    let behind : (b0 ∷ (length_field (length payload) ++ (mask ++ coded))) ++ rest
        ≡ (b0 ∷ b1 ∷ ext) ++ (mask ++ (coded ++ rest)) =
      rw (written, append_assoc ext (mask ++ coded) rest, append_assoc mask coded rest) refl in
    let frame : client_frame mask payload opcode
        ≡ b0 ∷ (length_field (length payload) ++ (mask ++ coded)) =
      ap (λ b. b ∷ (length_field (length payload) ++ (mask ++ coded)))
        (marked opcode (omega arith)) in
    let no_reserved : (b0 / 16 % 4 == 0) ≡ true = ground arith in
    let there : ltb (length (ext ++ (mask ++ (coded ++ rest)))) (length ext) ≡ false =
      ground (arith, length-append ext (mask ++ (coded ++ rest))) in
    let size : length (b0 ∷ (length_field (length payload) ++ (mask ++ coded)))
        ≡ length (b0 ∷ b1 ∷ ext) + 4 + length payload =
      rw written (
        omega (
          arith,
          length-append ext (mask ++ coded),
          length-append mask coded,
          length-xor_mask mask 0 payload,
          four,
        )) in
    let taken =
      take_frame-body mask four ok_mask b0 max (b0 ∷ b1 ∷ ext) payload rest within ok_payload in
    let value : (if length ext == 0 then b1 % 128 else from_be ext) ≡ length payload =
      rw reads.size at reads.value in
    let head_len : 2 + length ext + 4 ≡ length (b0 ∷ b1 ∷ ext) + 4 = omega arith in
    let fin : flag b0 128 ≡ true = ground arith in
    let rsv1 : flag b0 64 ≡ false = ground arith in
    let low : b0 % 16 ≡ opcode = omega arith in
    let read : parse_frame ((b0 ∷ b1 ∷ ext) ++ (mask ++ (coded ++ rest))) max
        ≡ Parsed.complete
            (record {
              fin = true;
              rsv1 = false;
              opcode = opcode;
              payload = payload;
              wire_len = length (b0 ∷ b1 ∷ ext) + 4 + length payload;
            })
            rest =
      rw
        (
          parse_frame,
          no_reserved,
          reads.size,
          there,
          reads.masked,
          take-length_append ext (mask ++ (coded ++ rest)),
          value,
          head_len,
        )
        (taken ∙ rw (fin, rsv1, low) refl) in
    ap (λ b. parse_frame b max) (ap (λ b. b ++ rest) frame ∙ behind)
    ∙ read
    ∙ ap
        (λ w.
          Parsed.complete
            (record { fin = true; rsv1 = false; opcode = opcode; payload = payload; wire_len = w })
            rest)
        (sym size ∙ sym (ap length frame))
