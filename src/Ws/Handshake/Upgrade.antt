-- ===== src/Ws/Handshake/Upgrade.antt =====
-- `connect` of src/ws.rs on the response of a server.
use robinhood_feed_bench.Common.{
  ℕ, ◌+◌, ◌≤◌, ◌≡◌, refl, sym, ap, subst, ◌∙◌, List, [], ◌++◌, map, Option, some, All, length, take,
  drop, ◌==◌, if◌then◌else◌, arith, length-append, Bool-cases, inl, inr, take-length_append,
  drop-length_append, drop-drop,
}
use robinhood_feed_bench.Common.Results.{Result}
use robinhood_feed_bench.Common.Texts.{Text}
use robinhood_feed_bench.Inflate.{Flate}
use robinhood_feed_bench.Ws.Handshake.{
  Config, Failure, head_limit, read_head, retry_after, Connection, opened, answered, upgrade,
}
use robinhood_feed_bench.Ws.Handshake.Reads.{
  blank, joined, NonEmpty, Heads, Heads-ok, read_head-Heads,
}
use robinhood_feed_bench.Ws.Handshake.Answer.{
  Response, IsResponse, status_line, header_text, print_head, lines_of-Line, head_end-lines,
  split_lines-print, headers_of-text, status_of-line,
}

-- The head of a response is found behind any cut into reads.
head_read :
    (r : Response) (rest : List ℕ) (reads : List (List ℕ))
    → IsResponse r
    → joined reads ≡ print_head r ++ (blank ++ rest)
    → length (print_head r) + 4 ≤ head_limit
    → All NonEmpty reads
    → Heads (print_head r) rest (read_head [] reads)
head_read r rest reads h e small some_bytes =
    let head = print_head r in
    let full = head ++ (blank ++ rest) in
    let i = length head in
    let behind : drop (i + 4) full ≡ rest =
      sym (drop-drop 4 i full) ∙ ap (drop 4) (drop-length_append head (blank ++ rest)) in
    subst (λ t. Heads t rest (read_head [] reads)) (take-length_append head (blank ++ rest))
      (subst (λ t. Heads (take i full) t (read_head [] reads)) behind
        (read_head-Heads reads [] full i
          (head_end-lines (status_line r) (map header_text r.headers) rest (lines_of-Line r h))
          (omega (arith, length-append head (blank ++ rest))) e small some_bytes))

module _ (flate : Flate) (decompress : flate.D) (from_utf8 : List ℕ → Option Text)
    (sha1 : List ℕ → List ℕ) (encode : List ℕ → Text) where
  -- What `connect` makes of the status and the headers of a response.
  abbrev pub outcome :
      Config
      → Text
      → Response
      → List ℕ
      → List (List ℕ)
      → Result Failure (Connection flate decompress from_utf8 sha1 encode)
  outcome cfg key r buf later =
      if r.status == 101
      then opened flate decompress from_utf8 sha1 encode cfg key r.headers buf later
      else Result.err (
          Failure.rejected (record {
            status = r.status;
            reason = status_line r;
            retry_after = retry_after r.headers;
          }))

  answered-outcome :
      (r : Response) (cfg : Config) (key : Text) (buf : List ℕ) (later : List (List ℕ))
      → IsResponse r
      → answered flate decompress from_utf8 sha1 encode cfg key
          (status_line r)
          (map header_text r.headers)
          buf
          later
        ≡ outcome cfg key r buf later
  unfolding answered
  answered-outcome r cfg key buf later h =
      rw (answered, status_of-line r h.in_u16, headers_of-text r.headers h.headers_in)
        (elim (Bool-cases (r.status == 101)) [
          | inl yes_101 ↦ rw yes_101 refl
          | inr not_101 ↦ rw not_101 refl
        ])

  -- However the bytes of a response and what is behind it are cut into reads, `connect` reads back
  -- the status and the headers that the server wrote, leaves what is behind the head to the
  -- connection byte for byte, and rejects a status other than 101 with the server's Retry-After,
  -- when the head is text of at most 65 532 bytes.
  pub upgrade-outcome :
      (r : Response) (cfg : Config) (key : Text) (rest : List ℕ) (reads : List (List ℕ))
      → IsResponse r
      → from_utf8 (print_head r) ≡ some (print_head r)
      → joined reads ≡ print_head r ++ (blank ++ rest)
      → length (print_head r) + 4 ≤ head_limit
      → All NonEmpty reads
      → (buf : List ℕ) × (later : List (List ℕ)) × (buf ++ joined later ≡ rest)
        × (upgrade flate decompress from_utf8 sha1 encode cfg key reads
            ≡ outcome cfg key r buf later)
  unfolding upgrade
  upgrade-outcome r cfg key rest reads h text e small some_bytes =
      let (buf, later, left, found) =
        Heads-ok (print_head r) rest (read_head [] reads)
          (head_read r rest reads h e small some_bytes) in
      (
        buf,
        later,
        left,
        rw (upgrade, found, text, split_lines-print r h) (answered-outcome r cfg key buf later h),
      )
