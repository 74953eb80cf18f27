-- ===== src/Adapter/Cursor.antt =====
-- The headers with which `run` of src/nitro.rs connects again.
use robinhood_feed_bench.Common.{
  ℕ, ◌≡◌, refl, sym, ◌∙◌, subst, ◌⊎◌, inl, inr, List, [], ◌∷◌, ◌++◌, Option, none, some, All,
}
use robinhood_feed_bench.Common.Decimal.{decimal}
use robinhood_feed_bench.Common.Texts.{Text, codes}
use robinhood_feed_bench.Event.{Hash, Event, Stamp}
use robinhood_feed_bench.Specs.{Target}
use robinhood_feed_bench.Ws.Handshake.{Config}
use robinhood_feed_bench.Ws.Negotiation.{Offer, second}
use robinhood_feed_bench.Nitro.{FeedMessage}
use robinhood_feed_bench.Nitro
use robinhood_feed_bench.Nitro.Cursor.{
  AtMost, AtMost-refl, BehindEvent, All-append, All-AtMost, HasNext, HasNext-left, HasNext-right,
  Comes, on_message-Ahead, on_message-Comes,
}
use robinhood_feed_bench.Adapter.{Adapter, Attempt, opening, closing}
use robinhood_feed_bench.Adapter.Sources.{nitro_adapter, nitro_run, cursor_headers, config_of}
use robinhood_feed_bench.Adapter.Resume.{Asks, run-Asks}

-- Every block among the events has sequence number 2 ^ 64 - 1, and the attempt carries no cursor,
-- or the cursor is the successor of the highest among them that is lower.
abbrev pub Resumes : List Event → Config → Type 0
Resumes before cfg =
    let version : Text × Text = (codes "Arbitrum-Feed-Client-Version", codes "2") in
    ((cfg.headers ≡ version ∷ []) × All (BehindEvent none) before)
    ⊎ ((n : ℕ) × (cfg.headers
          ≡ version ∷ (codes "Arbitrum-Requested-Sequence-Number", decimal n) ∷ [])
        × All (BehindEvent (some n)) before
        × HasNext (some n) before)

-- What the adapter knows of its cursor.
abbrev IsCursor : Option ℕ → List Event → Type 0
IsCursor c before = All (BehindEvent c) before × ((c ≡ none) ⊎ HasNext c before)

module _ (from_slice : List ℕ → Option (List FeedMessage)) (decode : Text → Option (List ℕ))
    (keccak256 : List ℕ → Hash) where
  knows-more :
      (c d : Option ℕ) (before events : List Event)
      → AtMost c d
      → All (BehindEvent d) events
      → Comes c (d, events)
      → IsCursor c before
      → IsCursor d (before ++ events)
  knows-more c d before events forward behind comes (past, from) = (
    All-append d before events (All-AtMost c d before forward past) behind,
    elim comes [
      | inr new ↦ inr (HasNext-right d before events new)
      | inl same ↦ elim from [
        | inl unset ↦ inl (same ∙ unset)
        | inr old ↦
            inr (HasNext-left d before events (subst (λ e. HasNext e before) (sym same) old))
      ]
    ],
  )

  asks-cursor :
      (c : Option ℕ) (before : List Event) (url : Text) (offer : Offer)
      → IsCursor c before
      → Resumes before (config_of url (cursor_headers c) offer)
  unfolding cursor_headers
  asks-cursor none before url offer (past, from) = inl (refl, past)
  asks-cursor (some n) before url offer (past, inl unset) = absurd (cc)
  asks-cursor (some n) before url offer (past, inr there) = inr (n, refl, past, there)

  -- In any run of the Nitro adapter, every attempt to connect asks for the sequence number behind
  -- the highest that was sent before it, over all connections: it is the successor of one that was
  -- sent, and past each of them. It asks for none when no block was sent before it. A block of
  -- sequence number 2 ^ 64 - 1, which has no successor, does not count.
  pub run-Resumes :
      (index : ℕ) (src : Target) (offer : Offer) (stamp : Stamp) (room : ℕ)
      (attempts : List Attempt)
      → Asks Resumes [] (nitro_run from_slice decode keccak256 index src offer stamp room attempts)
  unfolding nitro_run nitro_adapter
  run-Resumes index src offer stamp room attempts =
      let a : Adapter (Option ℕ) =
        nitro_adapter from_slice decode keccak256 index src offer stamp in
      run-Asks a IsCursor Resumes
        (λ next_seq msg before h.
          let r = Nitro.on_message from_slice decode keccak256 index stamp next_seq msg in
          let ahead = on_message-Ahead from_slice decode keccak256 index stamp next_seq msg in
          knows-more next_seq r.0 before r.1 ahead.0 ahead.1
            (on_message-Comes from_slice decode keccak256 index stamp next_seq msg) h)
        (λ next_seq c before h.
          knows-more next_seq next_seq before (opening a c ∷ []) (AtMost-refl next_seq) (tt, tt)
            (inl refl) h)
        (λ next_seq c before h.
          knows-more next_seq next_seq before (closing a c ∷ []) (AtMost-refl next_seq) (tt, tt)
            (inl refl) h)
        (λ next_seq before h. asks-cursor next_seq before src.url offer h) none second room attempts
        [] (tt, inl refl)
