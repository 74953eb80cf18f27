-- ===== src/Nitro/Cursor.antt =====
-- The cursor of src/nitro.rs, which is sent on a reconnect, is past every block that was sent.
use robinhood_feed_bench.Common.{
  ℕ, ◌+◌, ◌%◌, ◌^◌, ◌≤◌, ◌<◌, ◌≡◌, refl, ap, ◌∙◌, ltb, ◌⊎◌, inl, inr, max, List, [], ◌∷◌, ◌++◌, map,
  Option, none, some, length, ◌==◌, All, Bool-cases, Option-cases, arith,
}
use robinhood_feed_bench.Event.{Instant, Hash, Payload, Event, Stamp}
use robinhood_feed_bench.Ws.Session.{Message}
use robinhood_feed_bench.Nitro.{
  FeedMessage, ParsedBlock, u64_max, advance, tx_event, block_events, on_blocks, on_message,
  on_messages, parse_frame, stamped,
}

abbrev pub Behind : Option ℕ → ℕ → Type 0
Behind none q = q ≡ u64_max
Behind (some n) q = (q < n) ⊎ (q ≡ u64_max)

abbrev pub AtMost : Option ℕ → Option ℕ → Type 0
AtMost none d = Unit {0}
AtMost (some n) none = ⊥
AtMost (some n) (some m) = n ≤ m

pub AtMost-refl : (c : Option ℕ) → AtMost c c
AtMost-refl none = tt
AtMost-refl (some n) = omega arith

AtMost-trans : (c d e : Option ℕ) → AtMost c d → AtMost d e → AtMost c e
AtMost-trans none d e h k = tt
AtMost-trans (some n) none e h k = absurd h
AtMost-trans (some n) (some m) none h k = absurd k
AtMost-trans (some n) (some m) (some l) h k = omega arith

Behind-AtMost : (c d : Option ℕ) (q : ℕ) → AtMost c d → Behind c q → Behind d q
Behind-AtMost none none q h b = b
Behind-AtMost none (some m) q h b = inr b
Behind-AtMost (some n) none q h b = absurd h
Behind-AtMost (some n) (some m) q h b = omega arith

-- A block event carries a sequence number that the cursor is past.
abbrev pub BehindPayload : Option ℕ → Payload → Type 0
BehindPayload c (Payload.block key (some q) hash count wire_len) = Behind c q
BehindPayload c (Payload.block key none hash count wire_len) = ⊥
BehindPayload c (Payload.tx hash key count swap raw_len) = Unit {0}
BehindPayload c (Payload.connected detail) = Unit {0}
BehindPayload c (Payload.disconnected reason) = Unit {0}

abbrev pub BehindEvent : Option ℕ → Event → Type 0
BehindEvent c ev = BehindPayload c ev.payload

BehindPayload-AtMost :
    (c d : Option ℕ) (p : Payload) → AtMost c d → BehindPayload c p → BehindPayload d p
BehindPayload-AtMost c d (Payload.block key (some q) hash count wire_len) h b =
    Behind-AtMost c d q h b
BehindPayload-AtMost c d (Payload.block key none hash count wire_len) h b = b
BehindPayload-AtMost c d (Payload.tx hash key count swap raw_len) h b = tt
BehindPayload-AtMost c d (Payload.connected detail) h b = tt
BehindPayload-AtMost c d (Payload.disconnected reason) h b = tt

pub All-AtMost :
    (c d : Option ℕ) (evs : List Event)
    → AtMost c d
    → All (BehindEvent c) evs
    → All (BehindEvent d) evs
All-AtMost c d [] h all = tt
All-AtMost c d (ev ∷ evs) h all =
    (BehindPayload-AtMost c d ev.payload h all.0, All-AtMost c d evs h all.1)

pub All-append :
    (c : Option ℕ) (xs ys : List Event)
    → All (BehindEvent c) xs
    → All (BehindEvent c) ys
    → All (BehindEvent c) (xs ++ ys)
All-append c [] ys hx hy = hy
All-append c (x ∷ xs) ys hx hy = (hx.0, All-append c xs ys hx.1 hy)

advance-AtMost : (c : Option ℕ) (q : ℕ) → AtMost c (advance c q)
unfolding advance
advance-AtMost none q = tt
advance-AtMost (some n) q = elim (Bool-cases (q == u64_max)) [
  | inl top ↦ rw (advance, top) (omega arith)
  | inr below ↦ rw (advance, below) (omega arith)
]

advance-Behind : (c : Option ℕ) (q : ℕ) → Behind (advance c q) q
unfolding advance
advance-Behind c q = elim (Bool-cases (q == u64_max)) [
  | inl top ↦ rw (advance, top) (at_top c (ground arith))
  | inr below ↦ rw (advance, below) (past c)
]
  where
    at_top : (c : Option ℕ) → q ≡ u64_max → Behind c q
    at_top none e = e
    at_top (some n) e = inr e

    past :
        (c : Option ℕ) → Behind (elim c [ none ↦ some (q + 1) | some n ↦ some (max n (q + 1)) ]) q
    past none = inl (omega arith)
    past (some n) = inl (omega arith)

txs-Behind :
    (c : Option ℕ) (index : ℕ) (t : Instant) (seq n : ℕ) (txs : List (Hash × ℕ))
    → All (BehindEvent c) (map (tx_event index t seq n) txs)
unfolding tx_event
txs-Behind c index t seq n [] = tt
txs-Behind c index t seq n (tx ∷ txs) = (tt, txs-Behind c index t seq n txs)

-- The cursor after some events: no earlier than before, and past every block among them.
abbrev pub Ahead : Option ℕ → Option ℕ × List Event → Type 0
Ahead c r = AtMost c r.0 × All (BehindEvent r.0) r.1

on_blocks-Ahead :
    (index : ℕ) (t : Instant) (wire_len : ℕ) (c : Option ℕ) (bs : List ParsedBlock)
    → Ahead c (on_blocks index t wire_len c bs)
unfolding on_blocks block_events
on_blocks-Ahead index t wire_len c [] = (AtMost-refl c, tt)
on_blocks-Ahead index t wire_len c (b ∷ bs) =
    let rest = on_blocks-Ahead index t wire_len (advance c b.seq) bs in
    let last = (on_blocks index t wire_len (advance c b.seq) bs).0 in
    (
      AtMost-trans c (advance c b.seq) last (advance-AtMost c b.seq) rest.0,
      (
        Behind-AtMost (advance c b.seq) last b.seq rest.0 (advance-Behind c b.seq),
        All-append last (map (tx_event index t b.seq (length b.txs % 2 ^ 32)) b.txs) _
            (txs-Behind last index t b.seq (length b.txs % 2 ^ 32) b.txs) rest.1,
      ),
    )

-- Among the events is a block that the cursor is the successor of.
abbrev pub IsNext : Option ℕ → Payload → Type 0
IsNext c (Payload.block key (some q) hash count wire_len) = c ≡ some (q + 1)
IsNext c (Payload.block key none hash count wire_len) = ⊥
IsNext c (Payload.tx hash key count swap raw_len) = ⊥
IsNext c (Payload.connected detail) = ⊥
IsNext c (Payload.disconnected reason) = ⊥

abbrev pub HasNext : Option ℕ → List Event → Type 0
HasNext c [] = ⊥
HasNext c (ev ∷ evs) = IsNext c ev.payload ⊎ HasNext c evs

pub HasNext-left : (c : Option ℕ) (xs ys : List Event) → HasNext c xs → HasNext c (xs ++ ys)
HasNext-left c [] ys h = absurd h
HasNext-left c (x ∷ xs) ys (inl here) = inl here
HasNext-left c (x ∷ xs) ys (inr there) = inr (HasNext-left c xs ys there)

pub HasNext-right : (c : Option ℕ) (xs ys : List Event) → HasNext c ys → HasNext c (xs ++ ys)
HasNext-right c [] ys h = h
HasNext-right c (x ∷ xs) ys h = inr (HasNext-right c xs ys h)

-- A cursor that is not the one before comes from a block among the events.
abbrev pub Comes : Option ℕ → Option ℕ × List Event → Type 0
Comes c r = (r.0 ≡ c) ⊎ HasNext r.0 r.1

advance-cases : (c : Option ℕ) (q : ℕ) → (advance c q ≡ c) ⊎ (advance c q ≡ some (q + 1))
unfolding advance
advance-cases none q = elim (Bool-cases (q == u64_max)) [
  | inl top ↦ inl (rw top refl)
  | inr below ↦ inr (rw below refl)
]
advance-cases (some n) q = elim (Bool-cases (q == u64_max)) [
  | inl top ↦ inl (rw top refl)
  | inr below ↦ elim (Bool-cases (ltb n (q + 1))) [
    | inl less ↦ inr (rw below (ap some (ground arith)))
    | inr more ↦ inl (rw below (ap some (ground arith)))
  ]
]

on_blocks-Comes :
    (index : ℕ) (t : Instant) (wire_len : ℕ) (c : Option ℕ) (bs : List ParsedBlock)
    → Comes c (on_blocks index t wire_len c bs)
unfolding on_blocks block_events
on_blocks-Comes index t wire_len c [] = inl refl
on_blocks-Comes index t wire_len c (b ∷ bs) =
    elim (on_blocks-Comes index t wire_len (advance c b.seq) bs) [
      | inr there ↦ inr (inr (HasNext-right _ (map _ b.txs) _ there))
      | inl same ↦ elim (advance-cases c b.seq) [
        | inl kept ↦ inl (same ∙ kept)
        | inr moved ↦ inr (inl (same ∙ moved))
      ]
    ]

module _ (from_slice : List ℕ → Option (List FeedMessage)) (decode : List ℕ → Option (List ℕ))
    (keccak256 : List ℕ → Hash) where
  pub on_message-Ahead :
      (index : ℕ) (stamp : Stamp) (c : Option ℕ) (msg : Message)
      → Ahead c (on_message from_slice decode keccak256 index stamp c msg)
  unfolding on_message
  on_message-Ahead index stamp c msg =
      elim (Option-cases (parse_frame from_slice decode keccak256 msg.bytes)) [
        | inl refused ↦ rw (on_message, refused) (AtMost-refl c, tt)
        | inr (blocks, parsed) ↦
            rw (on_message, parsed)
              (on_blocks-Ahead index (stamped stamp msg) msg.wire_len c blocks)
      ]

  pub on_message-Comes :
      (index : ℕ) (stamp : Stamp) (c : Option ℕ) (msg : Message)
      → Comes c (on_message from_slice decode keccak256 index stamp c msg)
  unfolding on_message
  on_message-Comes index stamp c msg =
      elim (Option-cases (parse_frame from_slice decode keccak256 msg.bytes)) [
        | inl refused ↦ rw (on_message, refused) (inl refl)
        | inr (blocks, parsed) ↦
            rw (on_message, parsed)
              (on_blocks-Comes index (stamped stamp msg) msg.wire_len c blocks)
      ]

  -- Through the messages of a connection the cursor never goes back, and afterwards it is past
  -- every block that was sent, except one of sequence number 2 ^ 64 - 1, which has no successor.
  pub on_messages-Ahead :
      (index : ℕ) (stamp : Stamp) (msgs : List Message) (c : Option ℕ)
      → Ahead c (on_messages from_slice decode keccak256 index stamp c msgs)
  unfolding on_messages
  on_messages-Ahead index stamp [] c = (AtMost-refl c, tt)
  on_messages-Ahead index stamp (msg ∷ msgs) c =
      let first = on_message from_slice decode keccak256 index stamp c msg in
      let (forward, behind) = on_message-Ahead index stamp c msg in
      let (onward, behind_more) = on_messages-Ahead index stamp msgs first.0 in
      let last = (on_messages from_slice decode keccak256 index stamp first.0 msgs).0 in
      (
        AtMost-trans c first.0 last forward onward,
        All-append last first.1 _ (All-AtMost first.0 last first.1 onward behind) behind_more,
      )
