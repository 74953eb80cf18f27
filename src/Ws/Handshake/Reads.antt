-- ===== src/Ws/Handshake/Reads.antt =====
-- The loop of src/ws.rs that reads the head of a response: where it finds the end of the head, and
-- that it does not depend on how the bytes are cut into reads.
use robinhood_feed_bench.Common.{
  ℕ, suc, ◌+◌, ◌≤◌, ◌<◌, ◌≡◌, ◌≢◌, refl, sym, ap, ◌∙◌, true, false, List, [], ◌∷◌, ◌++◌, none, some,
  All, length, take, drop, ltb, if◌then◌else◌, ◌>>=◌, arith, append_assoc, append-none,
  take-append_le, drop-append_le, Bool-cases, inl, inr, dec_lt, >>=-eq-some,
}
use robinhood_feed_bench.Common.Results.{Result}
use robinhood_feed_bench.Common.Splits.{starts_with}
use robinhood_feed_bench.Ws.Handshake.{head_end, head_limit, Head, Failure, read_head}

abbrev pub blank : List ℕ
blank = 13 ∷ 10 ∷ 13 ∷ 10 ∷ []

-- Whether bytes start with the blank line does not depend on what is behind the first four.
starts_blank-append :
    (b x : List ℕ) → 4 ≤ length b → starts_with blank (b ++ x) ≡ starts_with blank b
starts_blank-append (a ∷ b ∷ c ∷ d ∷ bs) x h = refl
starts_blank-append [] x h = absurd (omega arith)
starts_blank-append (a ∷ []) x h = absurd (omega arith)
starts_blank-append (a ∷ b ∷ []) x h = absurd (omega arith)
starts_blank-append (a ∷ b ∷ c ∷ []) x h = absurd (omega arith)

starts_blank-short : (b : List ℕ) → length b < 4 → starts_with blank b ≡ false
starts_blank-short [] h = refl
starts_blank-short (a ∷ []) h = ground arith
starts_blank-short (a ∷ b ∷ []) h = ground arith
starts_blank-short (a ∷ b ∷ c ∷ []) h = ground arith
starts_blank-short (a ∷ b ∷ c ∷ d ∷ bs) h = absurd (omega arith)

head_end-hit : (c : ℕ) (b : List ℕ) → starts_with blank (c ∷ b) ≡ true → head_end (c ∷ b) ≡ some 0
unfolding head_end
head_end-hit c b h = ap (λ t. if t then some 0 else (do i ← head_end b; some (suc i))) h

pub head_end-miss :
    (c : ℕ) (b : List ℕ)
    → starts_with blank (c ∷ b) ≡ false
    → head_end (c ∷ b) ≡ (head_end b >>= λ i. some (suc i))
unfolding head_end
head_end-miss c b h = ap (λ t. if t then some 0 else (do i ← head_end b; some (suc i))) h

head_end-short : (b : List ℕ) → length b < 4 → head_end b ≡ none
unfolding head_end
head_end-short [] h = refl
head_end-short (c ∷ b) h =
    head_end-miss c b (starts_blank-short (c ∷ b) h)
    ∙ ap (λ m. m >>= λ i. some (suc i)) (head_end-short b (omega arith))

-- Before all four bytes of the blank line are there, no end is found.
head_end-early :
    (b x : List ℕ) (i : ℕ) → head_end (b ++ x) ≡ some i → length b < i + 4 → head_end b ≡ none
unfolding head_end
head_end-early [] x i h lt = refl
head_end-early (c ∷ b) x i h lt = elim (dec_lt (length (c ∷ b)) 4) [
  | yes short ↦ head_end-short (c ∷ b) short
  | no long ↦
      let same = starts_blank-append (c ∷ b) x (omega arith) in
      elim (Bool-cases (starts_with blank (c ∷ b))) [
        | inl hit ↦
            let zero_i : some 0 ≡ some i = sym (head_end-hit c (b ++ x) (same ∙ hit)) ∙ h in
            let e : 0 ≡ i = cc in absurd (omega arith)
        | inr miss ↦
            let (j, found, e) =
              >>=-eq-some (head_end (b ++ x)) _
                (sym (head_end-miss c (b ++ x) (same ∙ miss)) ∙ h) in
            let next : suc j ≡ i = cc in
            head_end-miss c b miss
            ∙ ap (λ m. m >>= λ k. some (suc k)) (head_end-early b x j found (omega arith))
      ]
]

-- Afterwards the same end is found as in all the bytes.
head_end-late :
    (b x : List ℕ) (i : ℕ) → head_end (b ++ x) ≡ some i → i + 4 ≤ length b → head_end b ≡ some i
unfolding head_end
head_end-late [] x i h le = absurd (omega arith)
head_end-late (c ∷ b) x i h le =
    let same = starts_blank-append (c ∷ b) x (omega arith) in
    elim (Bool-cases (starts_with blank (c ∷ b))) [
      | inl hit ↦ head_end-hit c b hit ∙ sym (head_end-hit c (b ++ x) (same ∙ hit)) ∙ h
      | inr miss ↦
          let (j, found, e) =
            >>=-eq-some (head_end (b ++ x)) _ (sym (head_end-miss c (b ++ x) (same ∙ miss)) ∙ h) in
          let next : suc j ≡ i = cc in
          head_end-miss c b miss
          ∙ ap (λ m. m >>= λ k. some (suc k)) (head_end-late b x j found (omega arith))
          ∙ e
    ]

abbrev pub joined : List (List ℕ) → List ℕ
joined [] = []
joined (r ∷ rs) = r ++ joined rs

-- What the loop that reads the head gives for bytes that are `i` bytes of head, a blank line and
-- `rest`: the head, and the rest shared out between the buffer and the reads that are left.
abbrev pub Heads : List ℕ → List ℕ → Result Failure Head → Type 0
Heads head rest (Result.err e) = ⊥
Heads head rest (Result.ok (h, buf, later)) = (h ≡ head) × (buf ++ joined later ≡ rest)

abbrev pub NonEmpty : List ℕ → Type 0
NonEmpty r = r ≢ []

pub Heads-ok :
    (head rest : List ℕ) (m : Result Failure Head)
    → Heads head rest m
    → (buf : List ℕ) × (later : List (List ℕ)) × (buf ++ joined later ≡ rest)
      × (m ≡ Result.ok (head, buf, later))
Heads-ok head rest (Result.err e) h = absurd h
Heads-ok head rest (Result.ok (first, buf, later)) h =
    (buf, later, h.1, ap (λ t. Result.ok (t, buf, later)) h.0)

pub read_head-Heads :
    (reads : List (List ℕ)) (buf full : List ℕ) (i : ℕ)
    → head_end full ≡ some i
    → i + 4 ≤ length full
    → buf ++ joined reads ≡ full
    → i + 4 ≤ head_limit
    → All NonEmpty reads
    → Heads (take i full) (drop (i + 4) full) (read_head buf reads)
unfolding read_head
read_head-Heads [] buf full i found room e small some_bytes =
    let same : buf ≡ full = sym (append-none buf) ∙ e in
    rw (read_head, ap head_end same ∙ found)
      (ap (take i) same, append-none (drop (i + 4) buf) ∙ ap (drop (i + 4)) same)
read_head-Heads ([] ∷ rs) buf full i found room e small some_bytes = absurd (some_bytes.0 refl)
read_head-Heads ((c ∷ cs) ∷ rs) buf full i found room e small some_bytes =
    let r : List ℕ = c ∷ cs in
    let whole : head_end (buf ++ joined (r ∷ rs)) ≡ some i = ap head_end e ∙ found in
    elim (dec_lt (length buf) (i + 4)) [
      | yes early ↦
          let over : ltb head_limit (length buf) ≡ false = ground arith in
          rw (read_head, head_end-early buf (joined (r ∷ rs)) i whole early, over)
            (read_head-Heads rs (buf ++ r) full i found room (append_assoc buf r (joined rs) ∙ e)
              small some_bytes.1)
      | no late ↦
          rw (read_head, head_end-late buf (joined (r ∷ rs)) i whole (omega arith))
            (
              sym (take-append_le i buf (joined (r ∷ rs)) (omega arith)) ∙ ap (take i) e,
              sym (drop-append_le (i + 4) buf (joined (r ∷ rs)) (omega arith))
                  ∙ ap (drop (i + 4)) e,
            )
    ]
