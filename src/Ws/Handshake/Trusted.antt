-- ===== src/Ws/Handshake/Trusted.antt =====
-- What `connect` of src/ws.rs accepts, whatever bytes the server sends.
use robinhood_feed_bench.Common.{
  ℕ, ◌≡◌, refl, sym, ap, subst, ◌∙◌, true, false, List, [], ◌∷◌, Option, none, some, ◌==◌,
  Bool-cases, inl, inr, Option-cases,
}
use robinhood_feed_bench.Common.Results.{Result, ◌and_then◌}
use robinhood_feed_bench.Common.Texts.{Text, text_eq, text_eq_iff, codes}
use robinhood_feed_bench.Inflate.{Flate, Mode, Fault, Inflater, new_inflater}
use robinhood_feed_bench.Inflate.Fresh.{IsFresh, new_inflater-IsFresh}
use robinhood_feed_bench.Ws.Negotiation.{Offer, Refusal, negotiated_mode}
use robinhood_feed_bench.Ws.Negotiation.Offered.{Allowed, Agreed, negotiated_mode-Agreed}
use robinhood_feed_bench.Ws.Handshake.{
  Headers, Config, failing, find_header, header, mode_name, Failure, read_head, split_lines,
  status_of, headers_of, Connection, expected, accepted, chosen_mode, chosen_inflater, opened,
  answered, upgrade,
}

module _ (flate : Flate) (decompress : flate.D) (from_utf8 : List ℕ → Option Text)
    (sha1 : List ℕ → List ℕ) (encode : List ℕ → Text) where
  abbrev pub Outcome : Type 0
  Outcome = Result Failure (Connection flate decompress from_utf8 sha1 encode)

  -- The inflater of a connection is for the mode that was agreed to, and there is none without one.
  abbrev pub Fitted : ℕ → Option Mode → Option (Inflater flate) → Type 0
  Fitted max none none = Unit {0}
  Fitted max none (some inf) = ⊥
  Fitted max (some mode) none = ⊥
  Fitted max (some mode) (some inf) = (inf.mode ≡ mode) × (inf.max ≡ max) × (inf.ended ≡ false)

  -- No compression, or a mode that the client offered.
  abbrev pub Chosen : Offer → Option Mode → Type 0
  Chosen offer none = Unit {0}
  Chosen offer (some mode) = Allowed offer (some mode)

  abbrev pub Trusted : Config → Text → Outcome → Type 0
  Trusted cfg key (Result.err e) = Unit {0}
  Trusted cfg key (Result.ok c) =
      (header c.handshake (codes "sec-websocket-accept")
        ≡ some (expected flate decompress from_utf8 sha1 encode key))
      × ((mode : Option Mode) × (c.handshake.compression ≡ mode_name mode)
          × Chosen cfg.offer mode
          × Fitted cfg.max_message mode c.client.inflater)
      × (c.client.max ≡ cfg.max_message)

  -- To trust what a step leads to, it is enough to look at its success.
  bind-Trusted {ℓ} :
      {A : Type ℓ} (cfg : Config) (key : Text) (m : Result Failure A) (k : A → Outcome)
      → ((a : A) → m ≡ Result.ok a → Trusted cfg key (k a))
      → Trusted cfg key (m and_then k)
  bind-Trusted cfg key (Result.err e) k h = tt
  bind-Trusted cfg key (Result.ok a) k h = h a refl

  abbrev Picked : Offer → Result Failure (Option Mode) → Type 0
  Picked offer (Result.err e) = Unit {0}
  Picked offer (Result.ok mode) = Chosen offer mode

  chosen_mode-Picked :
      (cfg : Config) (hs : Headers)
      → Picked cfg.offer (chosen_mode flate decompress from_utf8 sha1 encode cfg hs)
  unfolding chosen_mode
  chosen_mode-Picked cfg hs =
      elim (Option-cases (find_header (codes "sec-websocket-extensions") hs)) [
        | inl absent ↦ rw (chosen_mode, absent) tt
        | inr (v, present) ↦
            rw (chosen_mode, present)
              (agreed (negotiated_mode v cfg.offer) (negotiated_mode-Agreed v cfg.offer))
      ]
    where
      agreed :
          (m : Result Refusal (Option Mode))
          → Agreed cfg.offer m
          → Picked cfg.offer (failing Failure.extension m)
      agreed (Result.err e) h = tt
      agreed (Result.ok none) h = absurd h
      agreed (Result.ok (some mode)) h = h

  abbrev Made : ℕ → Option Mode → Result Failure (Option (Inflater flate)) → Type 0
  Made max mode (Result.err e) = Unit {0}
  Made max mode (Result.ok inf) = Fitted max mode inf

  chosen_inflater-Made :
      (cfg : Config) (mode : Option Mode)
      → Made cfg.max_message mode (chosen_inflater flate decompress from_utf8 sha1 encode cfg mode)
  unfolding chosen_inflater
  chosen_inflater-Made cfg none = tt
  chosen_inflater-Made cfg (some mode) =
      made (new_inflater flate decompress mode cfg.max_message)
        (new_inflater-IsFresh flate decompress mode cfg.max_message)
    where
      made :
          (m : Result Fault (Inflater flate))
          → IsFresh flate mode cfg.max_message m
          → Made cfg.max_message
              (some mode)
              (failing Failure.inflating m and_then λ inf. Result.ok (some inf))
      made (Result.err e) h = tt
      made (Result.ok inf) h = h

  accept_header :
      (key : Text) (hs : Headers)
      → accepted flate decompress from_utf8 sha1 encode key hs ≡ true
      → find_header (codes "sec-websocket-accept") hs
        ≡ some (expected flate decompress from_utf8 sha1 encode key)
  unfolding accepted
  accept_header key hs h = elim (Option-cases (find_header (codes "sec-websocket-accept") hs)) [
    | inl absent ↦ let no : false ≡ true = sym (rw (accepted, absent) refl) ∙ h in cc
    | inr (v, present) ↦
        let same : text_eq v (expected flate decompress from_utf8 sha1 encode key) ≡ true =
          sym (rw (accepted, present) refl) ∙ h in
        present ∙ ap some ((text_eq_iff v _).0 same)
  ]

  opened-Trusted :
      (cfg : Config) (key : Text) (hs : Headers) (buf : List ℕ) (later : List (List ℕ))
      → Trusted cfg key (opened flate decompress from_utf8 sha1 encode cfg key hs buf later)
  unfolding opened header
  opened-Trusted cfg key hs buf later =
      elim (Bool-cases (accepted flate decompress from_utf8 sha1 encode key hs)) [
        | inr refused ↦ rw (opened, refused) tt
        | inl trusted ↦
            rw (opened, trusted)
              (bind-Trusted cfg key (chosen_mode flate decompress from_utf8 sha1 encode cfg hs) _
                λ mode e.
                  bind-Trusted cfg key
                    (chosen_inflater flate decompress from_utf8 sha1 encode cfg mode) _
                    λ inflater f. (
                      accept_header key hs trusted,
                      (
                        mode,
                        refl,
                        subst (Picked cfg.offer) e (chosen_mode-Picked cfg hs),
                        subst (Made cfg.max_message mode) f (chosen_inflater-Made cfg mode),
                      ),
                      refl,
                    ))
      ]

  answered-Trusted :
      (cfg : Config) (key line : Text) (lines : List Text) (buf : List ℕ) (later : List (List ℕ))
      → Trusted cfg key
          (answered flate decompress from_utf8 sha1 encode cfg key line lines buf later)
  unfolding answered
  answered-Trusted cfg key line lines buf later = elim (Bool-cases (status_of line == 101)) [
    | inl switched ↦ rw (answered, switched) (opened-Trusted cfg key (headers_of lines) buf later)
    | inr other ↦ rw (answered, other) tt
  ]

  -- Whatever the server sends, when `connect` succeeds, the server answered with the accept header
  -- that the key asks for, the compression is none or one that the client offered, the inflater is
  -- a fresh one for it, and it and the client have the configured limit on a message.
  pub upgrade-Trusted :
      (cfg : Config) (key : Text) (reads : List (List ℕ))
      → Trusted cfg key (upgrade flate decompress from_utf8 sha1 encode cfg key reads)
  unfolding upgrade
  upgrade-Trusted cfg key reads =
      bind-Trusted cfg key (read_head [] reads) _ λ (head, buf, later) e.
        elim (Option-cases (from_utf8 head)) [
          | inl not_text ↦ rw not_text tt
          | inr (text, is_text) ↦ rw is_text (behind text (split_lines text) buf later)
        ]
    where
      behind :
          (text : Text) (lines : List Text) (buf : List ℕ) (later : List (List ℕ))
          → Trusted cfg key (elim lines [
            | [] ↦ answered flate decompress from_utf8 sha1 encode cfg key [] [] buf later
            | l ∷ ls ↦ answered flate decompress from_utf8 sha1 encode cfg key l ls buf later
          ])
      behind text [] buf later = answered-Trusted cfg key [] [] buf later
      behind text (l ∷ ls) buf later = answered-Trusted cfg key l ls buf later
