-- ===== src/Ws/Stream.antt =====
-- How src/ws.rs reads frames off a buffer that fills up as the bytes arrive.
use robinhood_feed_bench.Common.{
  ℕ, suc, ◌+◌, ◌-◌, ◌%◌, ◌/◌, ◌≤◌, ◌<◌, ◌≡◌, ◌⊎◌, refl, ap, sym, ◌∙◌, Bool, false, List, [], ◌∷◌,
  ◌++◌, length, length-append, take, drop, ltb, ◌==◌, if◌then◌else◌, Bool-cases, inl, inr, arith,
  length-take, length-drop, take-append_le, drop-append_le, take-append-drop,
}
use robinhood_feed_bench.Common.Bytes.{from_be}
use robinhood_feed_bench.Ws.{Frame, Parsed, flag, extended, xor_mask, take_frame, parse_frame}

-- The outcome with more bytes behind it.
abbrev pub extend : List ℕ → Parsed → Parsed
extend more (Parsed.complete f rest) = Parsed.complete f (rest ++ more)
extend more Parsed.reserved_bits = Parsed.reserved_bits
extend more Parsed.incomplete = Parsed.incomplete
extend more (Parsed.too_long n) = Parsed.too_long n

abbrev Stable : Parsed → Parsed → List ℕ → Type 0
Stable p q more = (p ≡ Parsed.incomplete) ⊎ (q ≡ extend more p)

module _ (b0 max : ℕ) (masked : Bool) (hl len : ℕ) (buf more : List ℕ)
    (head : 2 + (if masked then 4 else 0) ≤ hl) where
  slices :
      hl + len ≤ length buf
      → (take len (drop hl (buf ++ more)) ≡ take len (drop hl buf))
        × ((if masked
              then xor_mask (take 4 (drop (hl - 4) (buf ++ more))) 0 (take len (drop hl buf))
              else take len (drop hl buf))
            ≡ (if masked
                then xor_mask (take 4 (drop (hl - 4) buf)) 0 (take len (drop hl buf))
                else take len (drop hl buf)))
  slices fits = (
    rw (drop-append_le hl buf more (omega arith))
        (take-append_le len (drop hl buf) more (omega (arith, length-drop hl buf))),
    elim (Bool-cases masked) [
      | inl under ↦
          let room : 6 ≤ hl = rw under at head in
          rw (
            under,
            drop-append_le (hl - 4) buf more (omega arith),
            take-append_le 4 (drop (hl - 4) buf) more (omega (arith, length-drop (hl - 4) buf)),
          )
      | inr plain ↦ rw plain refl
    ],
  )

  take_frame-Stable :
      Stable
        (take_frame b0 max masked hl len buf)
        (take_frame b0 max masked hl len (buf ++ more))
        more
  unfolding take_frame
  take_frame-Stable = elim (Bool-cases (ltb max len)) [
    | inl long ↦ inr (rw (take_frame, long) refl)
    | inr within ↦ elim (Bool-cases (ltb (length buf) (hl + len))) [
      | inl short ↦ inl (rw (take_frame, within, short) refl)
      | inr enough ↦
          let fits : hl + len ≤ length buf = ground arith in
          let still : ltb (length (buf ++ more)) (hl + len) ≡ false =
            ground (arith, length-append buf more) in
          let (same, same_payload) = slices fits in
          inr (
            rw
              (
                take_frame,
                within,
                enough,
                still,
                same,
                same_payload,
                drop-append_le (hl + len) buf more fits,
              )
              refl)
    ]
  ]

abbrev header : ℕ → ℕ
header b1 = 2 + extended (b1 % 128) + (if flag b1 128 then 4 else 0)

abbrev told : ℕ → List ℕ → ℕ
told b1 rest =
    if extended (b1 % 128) == 0 then b1 % 128 else from_be (take (extended (b1 % 128)) rest)

-- More bytes behind a buffer do not change the frame that `parse_frame` takes off it, nor the
-- refusal of the connection: they stay in the buffer. Only an incomplete frame waits for them.
pub parse_frame-append :
    (max : ℕ) (buf more : List ℕ)
    → (parse_frame buf max ≡ Parsed.incomplete)
      ⊎ (parse_frame (buf ++ more) max ≡ extend more (parse_frame buf max))
unfolding parse_frame
parse_frame-append max [] more = inl refl
parse_frame-append max (b0 ∷ []) more = inl refl
parse_frame-append max (b0 ∷ b1 ∷ rest) more = elim (Bool-cases (b0 / 16 % 4 == 0)) [
  | inr reserved ↦ inr (rw (parse_frame, reserved) refl)
  | inl plain ↦ elim (Bool-cases (ltb (length rest) (extended (b1 % 128)))) [
    | inl short ↦ inl (rw (parse_frame, plain, short) refl)
    | inr enough ↦
        let fits : extended (b1 % 128) ≤ length rest = ground arith in
        let still : ltb (length (rest ++ more)) (extended (b1 % 128)) ≡ false =
          ground (arith, length-append rest more) in
        let step =
          take_frame-Stable b0 max (flag b1 128) (header b1) (told b1 rest) (b0 ∷ b1 ∷ rest) more
            (omega arith) in
        rw (parse_frame, plain, enough, still, take-append_le (extended (b1 % 128)) rest more fits)
          step
  ]
]

pub length-xor_mask : (m : List ℕ) (i : ℕ) (bs : List ℕ) → length (xor_mask m i bs) ≡ length bs
unfolding xor_mask
length-xor_mask m i [] = refl
length-xor_mask m i (b ∷ bs) = ap suc (length-xor_mask m (i + 1) bs)

-- What a frame takes: its own bytes off the front, and a payload within the limit.
abbrev pub Taken : ℕ → List ℕ → Frame → List ℕ → Type 0
Taken max buf f rest =
    (f.wire_len + length rest ≡ length buf)
    × (rest ≡ drop f.wire_len buf)
    × (length f.payload ≤ max)
    × (2 + length f.payload ≤ f.wire_len)

take_frame-Taken :
    (b0 max : ℕ) (masked : Bool) (hl len : ℕ) (buf : List ℕ) (f : Frame) (rest : List ℕ)
    → 2 + (if masked then 4 else 0) ≤ hl
    → take_frame b0 max masked hl len buf ≡ Parsed.complete f rest
    → Taken max buf f rest
unfolding take_frame
take_frame-Taken b0 max masked hl len buf f rest head h = ground (
  arith,
  length-drop (hl + len) buf,
  length-take len (drop hl buf),
  length-drop hl buf,
  length-xor_mask (take 4 (drop (hl - 4) buf)) 0 (take len (drop hl buf)),
)

-- A frame that `parse_frame` takes off a buffer is the bytes before what it leaves, and its payload
-- is within the limit.
pub parse_frame-Taken :
    (max : ℕ) (buf : List ℕ) (f : Frame) (rest : List ℕ)
    → parse_frame buf max ≡ Parsed.complete f rest
    → Taken max buf f rest
unfolding parse_frame
parse_frame-Taken max [] f rest h = cc
parse_frame-Taken max (b0 ∷ []) f rest h = cc
parse_frame-Taken max (b0 ∷ b1 ∷ tail) f rest h = elim (Bool-cases (b0 / 16 % 4 == 0)) [
  | inr reserved ↦
      let bad : Parsed.reserved_bits ≡ Parsed.complete f rest = rw (parse_frame, reserved) at h in
      cc
  | inl plain ↦ elim (Bool-cases (ltb (length tail) (extended (b1 % 128)))) [
    | inl short ↦
        let bad : Parsed.incomplete ≡ Parsed.complete f rest =
          rw (parse_frame, plain, short) at h in
        cc
    | inr enough ↦
        take_frame-Taken b0 max (flag b1 128) (header b1) (told b1 tail) (b0 ∷ b1 ∷ tail) f rest
          (omega arith) (rw (parse_frame, plain, enough) at h)
  ]
]

-- Before the last byte of a frame is there, `parse_frame` takes nothing.
pub parse_frame-take :
    (max : ℕ) (buf : List ℕ) (f : Frame) (rest : List ℕ) (k : ℕ)
    → parse_frame buf max ≡ Parsed.complete f rest
    → k < f.wire_len
    → parse_frame (take k buf) max ≡ Parsed.incomplete
parse_frame-take max buf f rest k h early =
    elim (parse_frame-append max (take k buf) (drop k buf)) [
      | inl waits ↦ waits
      | inr same ↦ absurd (
          cut_short (parse_frame (take k buf) max) refl
            (sym same ∙ ap (λ b. parse_frame b max) (take-append-drop k buf) ∙ h))
    ]
  where
    cut_short :
        (p : Parsed)
        → parse_frame (take k buf) max ≡ p
        → extend (drop k buf) p ≡ Parsed.complete f rest
        → ⊥
    cut_short (Parsed.complete g left) e at_end =
        let same_frame : g ≡ f = cc in
        omega (
          arith,
          (parse_frame-Taken max (take k buf) g left e).0,
          length-take k buf,
          ap (λ x. x.wire_len) same_frame,
        )
    cut_short Parsed.reserved_bits e at_end = cc
    cut_short Parsed.incomplete e at_end = cc
    cut_short (Parsed.too_long n) e at_end = cc
