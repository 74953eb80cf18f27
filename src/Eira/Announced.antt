-- ===== src/Eira/Announced.antt =====
-- The blocks that a session of src/eira.rs announces, and when.
use robinhood_feed_bench.Common.{
  ℕ, ◌≤◌, ◌≡◌, refl, subst, sym, true, false, ◌||◌, List, [], ◌∷◌, ◌++◌, none, some, length, arith,
  not, ◌&&◌, ◌==◌, Bool-cases, inl, inr,
}
use robinhood_feed_bench.Common.Texts.{Text, text_eq_iff}
use robinhood_feed_bench.Event.{Payload, Event}
use robinhood_feed_bench.Nitro.{key}
use robinhood_feed_bench.Eira.{
  Level, Transaction, Update, Stamped, Session, fresh, block_key, contains, pruned, block_event,
  tx_event, on_transaction, on_update, on_updates, status_payload,
}

-- The keys that are announced after a payload, and after events.
abbrev pub noted : List Text → Payload → List Text
noted known (Payload.block key seq hash count wire_len) = key ∷ known
noted known (Payload.tx hash key count swap raw_len) = known
noted known (Payload.connected detail) = known
noted known (Payload.disconnected reason) = known

abbrev pub noted_all : List Text → List Event → List Text
noted_all known [] = known
noted_all known (ev ∷ evs) = noted_all (noted known ev.payload) evs

-- A transaction names a block that is announced.
abbrev pub Names : List Text → Payload → Type 0
Names known (Payload.block key seq hash count wire_len) = Unit
Names known (Payload.tx hash none count swap raw_len) = Unit
Names known (Payload.tx hash (some key) count swap raw_len) = contains key known ≡ true
Names known (Payload.connected detail) = Unit
Names known (Payload.disconnected reason) = Unit

abbrev pub Preceded : List Text → List Event → Type 0
Preceded known [] = Unit
Preceded known (ev ∷ evs) = Names known ev.payload × Preceded (noted known ev.payload) evs

Preceded-append :
    (a b : List Event) (known : List Text)
    → Preceded known a
    → Preceded (noted_all known a) b
    → Preceded known (a ++ b)
Preceded-append [] b known h k = k
Preceded-append (ev ∷ a) b known h k = (h.0, Preceded-append a b (noted known ev.payload) h.1 k)

pub noted_all-append :
    (a b : List Event) (known : List Text)
    → noted_all known (a ++ b) ≡ noted_all (noted_all known a) b
noted_all-append [] b known = refl
noted_all-append (ev ∷ a) b known = noted_all-append a b (noted known ev.payload)

-- Every key of the one list is in the other.
abbrev Within : List Text → List Text → Type 0
Within keys known = (k : Text) → contains k keys ≡ true → contains k known ≡ true

contains_self : (k : Text) (keys : List Text) → contains k (k ∷ keys) ≡ true
contains_self k keys = ground (arith, text_eq_iff k k)

pruned-Within : (keys known : List Text) → Within keys known → Within (pruned keys) known
pruned-Within keys known h k = ground (arith, h k)

cons-Within :
    (j : Text) (keys known : List Text) → Within keys known → Within (j ∷ keys) (j ∷ known)
cons-Within j keys known h k = ground (arith, h k)

record Follows (known : List Text) (next : Session × List Event) : Type 0 where
  within : Within next.0.seen_blocks (noted_all known next.1)
  preceded : Preceded known next.1
  bounded : length next.0.seen_blocks ≤ 100001

module _ (index : ℕ) (level : Level) (wanted : ℕ) where
  on_transaction-Follows :
      (st : Session) (known : List Text) (t : ℕ) (tx : Transaction)
      → Within st.seen_blocks known
      → length st.seen_blocks ≤ 100001
      → Follows known (on_transaction index level wanted st t tx)
  unfolding on_transaction block_event tx_event
  on_transaction-Follows st known t tx h small =
      let within = pruned-Within st.seen_blocks known h in
      let few : length (pruned st.seen_blocks) ≤ 100000 = ground arith in
      elim (Bool-cases (not (length tx.transaction_hash == 32) || not (tx.commitment == wanted))) [
        | inl skipped ↦ rw skipped (record { within = h; preceded = tt; bounded = small })
        | inr taken ↦ elim (Bool-cases (contains (block_key tx) (pruned st.seen_blocks))) [
          | inl seen ↦
              rw (taken, seen)
                (record {
                  within = within;
                  preceded = (within (block_key tx) seen, tt);
                  bounded = omega arith;
                })
          | inr unseen ↦
              rw (taken, unseen)
                (record {
                  within = cons-Within (block_key tx) (pruned st.seen_blocks) known within;
                  preceded = (tt, (contains_self (block_key tx) known, tt));
                  bounded = omega arith;
                })
        ]
      ]

  on_update-Follows :
      (st : Session) (known : List Text) (t : ℕ) (u : Update)
      → Within st.seen_blocks known
      → length st.seen_blocks ≤ 100001
      → Follows known (on_update index level wanted st t u)
  unfolding on_update status_payload
  on_update-Follows st known t (Update.ack count) h small = elim (Bool-cases st.announced) [
    | inl up ↦ rw up (record { within = h; preceded = tt; bounded = small })
    | inr down ↦ rw down (record { within = h; preceded = (tt, tt); bounded = small })
  ]
  on_update-Follows st known t (Update.source_status c true epoch) h small =
      elim (Bool-cases ((c == wanted) && st.announced)) [
        | inl told ↦ rw told (record { within = h; preceded = (tt, tt); bounded = small })
        | inr quiet ↦ rw quiet (record { within = h; preceded = tt; bounded = small })
      ]
  on_update-Follows st known t (Update.source_status c false epoch) h small =
      elim (Bool-cases ((c == wanted) && st.announced)) [
        | inl told ↦ rw told (record { within = h; preceded = (tt, tt); bounded = small })
        | inr quiet ↦ rw quiet (record { within = h; preceded = tt; bounded = small })
      ]
  on_update-Follows st known t (Update.transaction tx) h small =
      on_transaction-Follows st known t tx h small
  on_update-Follows st known t Update.other h small = record {
    within = h;
    preceded = tt;
    bounded = small;
  }

  on_updates-Follows :
      (updates : List Stamped) (st : Session) (known : List Text)
      → Within st.seen_blocks known
      → length st.seen_blocks ≤ 100001
      → Follows known (on_updates index level wanted st updates)
  unfolding on_updates
  on_updates-Follows [] st known h small = record { within = h; preceded = tt; bounded = small }
  on_updates-Follows (s ∷ rest) st known h small =
      let step = on_update-Follows st known s.t s.update h small in
      let (next, events) = on_update index level wanted st s.t s.update in
      let later = on_updates-Follows rest next (noted_all known events) step.within step.bounded in
      record {
        within = subst (Within _) (sym (noted_all-append events _ known)) later.within;
        preceded = Preceded-append events _ known step.preceded later.preceded;
        bounded = later.bounded;
      }

  -- In the events of a session, a transaction comes after the block event with its key; the session
  -- never keeps more than 100 001 keys.
  pub on_updates-Preceded :
      (updates : List Stamped)
      → (let r = on_updates index level wanted fresh updates in
          Preceded [] r.1 × (length r.0.seen_blocks ≤ 100001))
  on_updates-Preceded updates =
      let follows = on_updates-Follows updates fresh [] (λ k e. e) (omega arith) in
      (follows.preceded, follows.bounded)
