-- ===== src/Ws/Handshake/Answer.antt =====
-- The response of a server as data, its text, and that src/ws.rs reads it back.
use mathlib.Core.Path.{ap₂}
use robinhood_feed_bench.Common.{
  ℕ, suc, ◌+◌, ◌^◌, ◌<◌, ◌≡◌, ◌≢◌, refl, sym, ap, ◌∙◌, Bool, true, false, not, List, [], ◌∷◌, ◌++◌,
  map, some, All, length, if◌then◌else◌, ◌>>=◌, arith, length-append, append_assoc, get_elem?,
}
use robinhood_feed_bench.Common.Decimal.{decimal}
use robinhood_feed_bench.Common.Parse.{
  all_digits, all_digits-decimal, decimal-some, parse_unsigned-decimal,
}
use robinhood_feed_bench.Common.Texts.{Text, codes, join}
use robinhood_feed_bench.Common.Splits.{
  is_space, put_first, trim, split_once-part, Without, Without-append,
}
use robinhood_feed_bench.Ws.Handshake.{
  Headers, crlf, head_end, split_lines, words, status_of, headers_of,
}
use robinhood_feed_bench.Ws.Handshake.Reads.{blank, head_end-miss}

pub record Response : Type 0 where
  pub status : ℕ
  pub reason : Text
  pub headers : Headers

abbrev pub status_line : Response → Text
status_line r = codes "HTTP/1.1 " ++ (decimal r.status ++ (32 ∷ r.reason))

abbrev pub header_text : Text × Text → Text
header_text (k, v) = k ++ (b':' ∷ (32 ∷ v))

abbrev pub lines_of : Response → List Text
lines_of r = status_line r ∷ map header_text r.headers

-- The text of a response, without the blank line behind it.
abbrev pub print_head : Response → Text
print_head r = join crlf (lines_of r)

-- A name without a colon, and neither a line break nor white space around a name or a value.
abbrev pub IsHeader : Text × Text → Type 0
IsHeader (k, v) = Without b':' k × Without 13 k × Without 13 v × (trim k ≡ k) × (trim v ≡ v)

pub record IsResponse (r : Response) : Type 0 where
  pub in_u16 : r.status < 2 ^ 16
  pub one_line : Without 13 r.reason
  pub headers_in : All IsHeader r.headers

-- A line: some code points, and none of a line break.
abbrev pub Line : Text → Type 0
Line l = (l ≢ []) × Without 13 l

head_end-past :
    (l x : Text) (i : ℕ)
    → Without 13 l
    → head_end x ≡ some i
    → head_end (l ++ x) ≡ some (length l + i)
head_end-past [] x i h e = e ∙ ap some (omega arith)
head_end-past (c ∷ l) x i h e =
    head_end-miss c (l ++ x) (ground (arith, h.0))
    ∙ ap (λ m. m >>= λ k. some (suc k)) (head_end-past l x i h.1 e)
    ∙ ap some (omega arith)

-- A line break with a line behind it is not the end of the head.
head_end-break :
    (c : ℕ) (x : Text) (i : ℕ)
    → c ≢ 13
    → head_end (c ∷ x) ≡ some i
    → head_end (crlf ++ (c ∷ x)) ≡ some (suc (suc i))
head_end-break c x i h e =
    head_end-miss 13 (10 ∷ c ∷ x) (ground (arith, h))
    ∙ ap (λ m. m >>= λ k. some (suc k))
        (head_end-miss 10 (c ∷ x) refl ∙ ap (λ m. m >>= λ k. some (suc k)) e)

join-first :
    (l : Text) (ls : List Text)
    → Line l
    → (c : ℕ) × (x : Text) × (join crlf (l ∷ ls) ≡ c ∷ x) × (c ≢ 13)
join-first [] ls h = absurd (h.0 refl)
join-first (c ∷ l) [] h = (c, l, refl, h.1.0)
join-first (c ∷ l) (u ∷ us) h = (c, l ++ (crlf ++ join crlf (u ∷ us)), refl, h.1.0)

head_end-blank : (rest : List ℕ) → head_end (blank ++ rest) ≡ some 0
unfolding head_end
head_end-blank rest = refl

-- The head of joined lines ends where they do.
pub head_end-lines :
    (l : Text) (ls : List Text) (rest : List ℕ)
    → All Line (l ∷ ls)
    → head_end (join crlf (l ∷ ls) ++ (blank ++ rest)) ≡ some (length (join crlf (l ∷ ls)))
head_end-lines l [] rest h =
    head_end-past l (blank ++ rest) 0 h.0.1 (head_end-blank rest) ∙ ap some (omega arith)
head_end-lines l (u ∷ us) rest h =
    let more = join crlf (u ∷ us) in
    let behind = blank ++ rest in
    let (c, x, starts, c_in) = join-first u us h.1.0 in
    let after : head_end (c ∷ (x ++ behind)) ≡ some (length more) =
      ap (λ t. head_end (t ++ behind)) (sym starts) ∙ head_end-lines u us rest h.1 in
    let broken : head_end (crlf ++ (more ++ behind)) ≡ some (suc (suc (length more))) =
      ap (λ t. head_end (crlf ++ (t ++ behind))) starts
      ∙ head_end-break c (x ++ behind) (length more) c_in after in
    ap head_end (append_assoc l (crlf ++ more) behind)
    ∙ head_end-past l (crlf ++ (more ++ behind)) (suc (suc (length more))) h.0.1 broken
    ∙ ap some (omega (arith, length-append l (crlf ++ more)))

split_lines-step :
    (c d : ℕ) (ds : Text) → c ≢ 13 → split_lines (c ∷ d ∷ ds) ≡ put_first c (split_lines (d ∷ ds))
unfolding split_lines
split_lines-step c d ds h = ground (arith, h)

split_lines-last : (l : Text) → Without 13 l → split_lines l ≡ l ∷ []
unfolding split_lines
split_lines-last [] h = refl
split_lines-last (c ∷ []) h = refl
split_lines-last (c ∷ d ∷ ds) h =
    split_lines-step c d ds h.0 ∙ ap (put_first c) (split_lines-last (d ∷ ds) h.1)

split_lines-part : (l y : Text) → Without 13 l → split_lines (l ++ (crlf ++ y)) ≡ l ∷ split_lines y
unfolding split_lines
split_lines-part [] y h = refl
split_lines-part (c ∷ []) y h = split_lines-step c 13 (10 ∷ y) h.0
split_lines-part (c ∷ d ∷ ds) y h =
    split_lines-step c d (ds ++ (crlf ++ y)) h.0
    ∙ ap (put_first c) (split_lines-part (d ∷ ds) y h.1)

pub split_lines-join :
    (l : Text) (ls : List Text)
    → All (Without 13) (l ∷ ls)
    → split_lines (join crlf (l ∷ ls)) ≡ l ∷ ls
split_lines-join l [] h = split_lines-last l h.0
split_lines-join l (u ∷ us) h =
    split_lines-part l (join crlf (u ∷ us)) h.0 ∙ ap (λ r. l ∷ r) (split_lines-join u us h.1)

pub headers_of-text : (hs : Headers) → All IsHeader hs → headers_of (map header_text hs) ≡ hs
unfolding headers_of
headers_of-text [] h = refl
headers_of-text ((k, v) ∷ hs) h =
    let (plain, one_k, one_v, trim_k, trim_v) = h.0 in
    rw (headers_of, split_once-part b':' k (32 ∷ v) plain)
      (ap₂ (λ a b. a ∷ b) (ap₂ (λ a b. (a, b)) trim_k trim_v) (headers_of-text hs h.1))

abbrev word_step : Bool → Bool → ℕ → List Text → List Text
word_step space ends c rest =
    if space then rest else if not ends then put_first c rest else (c ∷ []) ∷ rest

words-step :
    (c d : ℕ) (ds : Text) (space ends : Bool)
    → is_space c ≡ space
    → is_space d ≡ ends
    → words (c ∷ d ∷ ds) ≡ word_step space ends c (words (d ∷ ds))
unfolding words
words-step c d ds space ends e f = ap₂ (λ s t. word_step s t c (words (d ∷ ds))) e f

words-space : (y : Text) → words (32 ∷ y) ≡ words y
unfolding words
words-space y = refl

words-part :
    (w y : Text) → w ≢ [] → All (λ c. is_space c ≡ false) w → words (w ++ (32 ∷ y)) ≡ w ∷ words y
words-part [] y some_w h = absurd (some_w refl)
words-part (c ∷ []) y some_w h =
    words-step c 32 y false true h.0 refl ∙ ap (λ r. (c ∷ []) ∷ r) (words-space y)
words-part (c ∷ d ∷ ds) y some_w h =
    words-step c d (ds ++ (32 ∷ y)) false false h.0 h.1.0
    ∙ ap (put_first c) (words-part (d ∷ ds) y (λ e. cc) h.1)

digits_plain : (t : Text) → all_digits t ≡ true → All (λ c. is_space c ≡ false) t
digits_plain [] h = tt
digits_plain (c ∷ t) h = (ground arith, digits_plain t (ground arith))

pub status_of-line : (r : Response) → r.status < 2 ^ 16 → status_of (status_line r) ≡ r.status
unfolding status_of
status_of-line r lt =
    let rest = decimal r.status ++ (32 ∷ r.reason) in
    let second : get_elem? (words (status_line r)) 1 ≡ some (decimal r.status) =
      ap (λ ws. get_elem? ws 1) (words-part (codes "HTTP/1.1") rest (λ e. cc) (ground arith))
      ∙ ap (λ ws. get_elem? ws 0)
          (words-part (decimal r.status) r.reason (decimal-some r.status)
            (digits_plain (decimal r.status) (all_digits-decimal r.status))) in
    rw (status_of, second, parse_unsigned-decimal (2 ^ 16) r.status lt) refl

digits_one_line : (t : Text) → all_digits t ≡ true → Without 13 t
digits_one_line [] h = tt
digits_one_line (c ∷ t) h = (λ e. ground arith, digits_one_line t (ground arith))

status_line-Line : (r : Response) → IsResponse r → Line (status_line r)
status_line-Line r h = (
  λ e. cc,
  Without-append 13 (codes "HTTP/1.1 ") (decimal r.status ++ (32 ∷ r.reason)) (ground arith) (
      Without-append 13 (decimal r.status) (32 ∷ r.reason)
        (digits_one_line (decimal r.status) (all_digits-decimal r.status))
        (omega arith, h.one_line)),
)

header_lines-Line : (hs : Headers) → All IsHeader hs → All Line (map header_text hs)
header_lines-Line [] h = tt
header_lines-Line ((k, v) ∷ hs) h =
    let (plain, one_k, one_v, trim_k, trim_v) = h.0 in
    (
      (
        some_text k (b':' ∷ (32 ∷ v)) (λ e. cc),
        Without-append 13 k (b':' ∷ (32 ∷ v)) one_k (omega arith, (omega arith, one_v)),
      ),
      header_lines-Line hs h.1,
    )
  where
    some_text : (s t : Text) → t ≢ [] → s ++ t ≢ []
    some_text [] t h = h
    some_text (c ∷ s) t h = λ e. cc

pub lines_of-Line : (r : Response) → IsResponse r → All Line (lines_of r)
lines_of-Line r h = (status_line-Line r h, header_lines-Line r.headers h.headers_in)

All-Without : (ls : List Text) → All Line ls → All (Without 13) ls
All-Without [] h = tt
All-Without (l ∷ ls) h = (h.0.1, All-Without ls h.1)

-- The lines of a response that was written out are read back.
pub split_lines-print :
    (r : Response)
    → IsResponse r
    → split_lines (print_head r) ≡ status_line r ∷ map header_text r.headers
split_lines-print r h =
    split_lines-join (status_line r) (map header_text r.headers)
      (All-Without (lines_of r) (lines_of-Line r h))
