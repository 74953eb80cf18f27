-- ===== src/Report/Printed/Heading.antt =====
-- What the header of a report of src/report.rs shows.
use robinhood_feed_bench.Common.{
  ℕ, ◌-◌, ◌≡◌, refl, ap, List, [], ◌∷◌, ◌++◌, length, append_assoc, ltb, ◌==◌, if◌then◌else◌,
  Bool-cases, inl, inr,
}
use robinhood_feed_bench.Common.Decimal.{decimal}
use robinhood_feed_bench.Common.Texts.{Text, codes}
use robinhood_feed_bench.Stats.Percentile.{Floats}
use robinhood_feed_bench.Stats.Pairs.{Marks}
use robinhood_feed_bench.Report.Table.{left}
use robinhood_feed_bench.Report.Table.Rows.{blanks, Spaced, Spaced-blanks}
use robinhood_feed_bench.Report.Rendered.{format, SourceReport, Header, sources_lines, header_lines}

-- The sections one behind the other.
abbrev pub joined : List (List Text) → List Text
joined [] = []
joined (part ∷ parts) = part ++ joined parts

module _ (floats : Floats) (ms : ℕ → floats.F) (pct : ℕ → ℕ → floats.F) (marks : Marks floats)
    (fixed plus : ℕ → floats.F → Text) (mega : ℕ → floats.F) where
  -- The words of the two lines of a source.
  abbrev pub about : SourceReport → List Text
  about s =
      s.info.name
      ∷ s.info.kind
      ∷ s.info.target
      ∷ (if length s.info.level == 0 then [] else codes "level" ∷ s.info.level ∷ [])

  abbrev pub numbers : SourceReport → List Text
  numbers s =
      s.detail
      ∷ codes "reconnects"
      ∷ decimal s.reconnects
      ∷ codes "blocks"
      ∷ decimal s.block_events
      ∷ codes "txs"
      ∷ decimal s.tx_events
      ∷ (codes "(" ++ fixed 1 (mega s.raw_tx_bytes))
      ∷ codes "MB raw)"
      ∷ (if ltb 0 s.wire_bytes
          then codes "rx" ∷ fixed 1 (mega s.wire_bytes) ∷ codes "MB" ∷ []
          else [])

  abbrev pub AreSources : List SourceReport → List Text → Type 0
  AreSources [] ls = ls ≡ []
  AreSources (s ∷ ss) (l ∷ k ∷ ls) = Spaced (about s) l × Spaced (numbers s) k × AreSources ss ls
  AreSources (s ∷ ss) _ = ⊥

  -- The lines of the header, with two for each source.
  abbrev pub IsHeader : Header floats ms pct marks fixed plus mega → List Text → Type 0
  IsHeader h ls =
      (mid : List Text) × (ls
        ≡ joined (
            (format (
                h.tool
                ∷ codes " "
                ∷ h.version
                ∷ codes "  Robinhood Chain (chain id "
                ∷ decimal h.chain_id
                ∷ codes ")"
                ∷ [])
              ∷ (codes "start    " ++ h.start_utc)
              ∷ format (
                  codes "end      "
                  ∷ h.end_utc
                  ∷ codes "   duration "
                  ∷ fixed 1 h.duration_s
                  ∷ codes " s"
                  ∷ (if h.interrupted then codes "   (interrupted)" else [])
                  ∷ [])
              ∷ (codes "host     " ++ h.hostname)
              ∷ format (
                  codes "stamp    "
                  ∷ h.stamp
                  ∷ codes "   warmup "
                  ∷ fixed 0 h.warmup_s
                  ∷ codes " s   min-sources "
                  ∷ decimal h.min_sources
                  ∷ [])
              ∷ codes "sources"
              ∷ [])
            ∷ mid
            ∷ (format (
                  codes "window   "
                  ∷ fixed 1 h.window_s
                  ∷ codes " s with every source connected   matched blocks "
                  ∷ decimal h.matched_blocks
                  ∷ codes "   matched txs "
                  ∷ decimal h.matched_txs
                  ∷ [])
                ∷ (codes "note     " ++ h.fairness_note)
                ∷ [])
            ∷ []))
      × AreSources h.sources mid

  about-Spaced :
      (name kind target level : Text)
      → Spaced
          (name ∷ kind ∷ target ∷ (if length level == 0 then [] else codes "level" ∷ level ∷ []))
          (format (
            codes "  "
            ∷ left 10 name
            ∷ codes " "
            ∷ left 7 kind
            ∷ codes " "
            ∷ target
            ∷ (if length level == 0 then [] else codes "   level " ++ level)
            ∷ []))
  about-Spaced name kind target level =
      let words = if length level == 0 then [] else codes "level" ∷ level ∷ [] in
      let last = (if length level == 0 then [] else codes "   level " ++ level) ++ [] in
      let third = b' ' ∷ (target ++ last) in
      let second = b' ' ∷ (left 7 kind ++ third) in
      (
        2,
        blanks (10 - length name) ++ second,
        ap (λ r. codes "  " ++ r) (append_assoc name (blanks (10 - length name)) second),
        Spaced-blanks (10 - length name) (kind ∷ target ∷ words) second (
          1,
          blanks (7 - length kind) ++ third,
          ap (λ r. codes " " ++ r) (append_assoc kind (blanks (7 - length kind)) third),
          Spaced-blanks (7 - length kind) (target ∷ words) third (
            1,
            last,
            refl,
            elim (Bool-cases (length level == 0)) [
              | inl empty ↦ rw empty (0, refl)
              | inr told ↦ rw told (3, b' ' ∷ (level ++ []), refl, (1, [], refl, (0, refl)))
            ],
          ),
        ),
      )

  numbers-Spaced :
      (s : SourceReport)
      → Spaced (numbers s) (
          format (
            codes "  "
            ∷ left 10 []
            ∷ codes " "
            ∷ s.detail
            ∷ codes "   reconnects "
            ∷ decimal s.reconnects
            ∷ codes "   blocks "
            ∷ decimal s.block_events
            ∷ codes "   txs "
            ∷ decimal s.tx_events
            ∷ codes " ("
            ∷ fixed 1 (mega s.raw_tx_bytes)
            ∷ codes " MB raw)"
            ∷ (if ltb 0 s.wire_bytes
                then format (codes "   rx " ∷ fixed 1 (mega s.wire_bytes) ∷ codes " MB" ∷ [])
                else [])
            ∷ []))
  numbers-Spaced s =
      let received = format (codes "   rx " ∷ fixed 1 (mega s.wire_bytes) ∷ codes " MB" ∷ []) in
      let last = (if ltb 0 s.wire_bytes then received else []) ++ [] in
      let e4 = fixed 1 (mega s.raw_tx_bytes) ++ (codes " MB raw)" ++ last) in
      let e3 = decimal s.tx_events ++ (codes " (" ++ e4) in
      let e2 = decimal s.block_events ++ (codes "   txs " ++ e3) in
      let e1 = decimal s.reconnects ++ (codes "   blocks " ++ e2) in
      (
        13,
        codes "   reconnects " ++ e1,
        refl,
        (
          3,
          codes " " ++ e1,
          refl,
          (
            1,
            codes "   blocks " ++ e2,
            refl,
            (
              3,
              codes " " ++ e2,
              refl,
              (
                1,
                codes "   txs " ++ e3,
                refl,
                (
                  3,
                  codes " " ++ e3,
                  refl,
                  (
                    1,
                    codes " (" ++ e4,
                    refl,
                    (1, codes " MB raw)" ++ last, refl, (1, last, refl, ended_with)),
                  ),
                ),
              ),
            ),
          ),
        ),
      )
    where
      ended_with :
          Spaced
            (if ltb 0 s.wire_bytes
              then codes "rx" ∷ fixed 1 (mega s.wire_bytes) ∷ codes "MB" ∷ []
              else [])
            ((if ltb 0 s.wire_bytes
                then format (codes "   rx " ∷ fixed 1 (mega s.wire_bytes) ∷ codes " MB" ∷ [])
                else [])
              ++ [])
      ended_with = elim (Bool-cases (ltb 0 s.wire_bytes)) [
        | inl some_bytes ↦ rw some_bytes (
          3,
          b' ' ∷ ((fixed 1 (mega s.wire_bytes) ++ codes " MB") ++ []),
          refl,
          (
            1,
            codes " MB",
            ap (λ r. b' ' ∷ r) (append_assoc _ (codes " MB") []),
            (1, [], refl, (0, refl)),
          ),
        )
        | inr no_bytes ↦ rw no_bytes (0, refl)
      ]

  sources-AreSources :
      (ss : List SourceReport)
      → AreSources ss (sources_lines floats ms pct marks fixed plus mega ss)
  sources-AreSources [] = refl
  sources-AreSources (s ∷ ss) = (
    about-Spaced s.info.name s.info.kind s.info.target s.info.level,
    numbers-Spaced s,
    sources-AreSources ss,
  )

  pub header-IsHeader :
      (h : Header floats ms pct marks fixed plus mega)
      → IsHeader h (header_lines floats ms pct marks fixed plus mega h)
  header-IsHeader h = (
    sources_lines floats ms pct marks fixed plus mega h.sources,
    refl,
    sources-AreSources h.sources,
  )
