-- ===== src/Eira/Once.antt =====
-- How often a session of src/eira.rs announces a block.
use robinhood_feed_bench.Common.{
  ℕ, suc, ◌+◌, ◌≤◌, ◌≡◌, refl, subst, true, false, not, ◌&&◌, ◌||◌, ◌==◌, List, [], ◌∷◌, ◌++◌,
  length, arith, Bool-cases, inl, inr,
}
use robinhood_feed_bench.Common.Texts.{Text}
use robinhood_feed_bench.Event.{Payload, Event}
use robinhood_feed_bench.Eira.{
  Level, Transaction, Update, Stamped, Session, fresh, block_key, contains, pruned, block_event,
  tx_event, on_transaction, on_update, on_updates, status_payload,
}
use robinhood_feed_bench.Eira.Announced.{noted, noted_all}

-- A block is announced that was not yet.
abbrev pub New : List Text → Payload → Type 0
New known (Payload.block key seq hash count wire_len) = contains key known ≡ false
New known (Payload.tx hash key count swap raw_len) = Unit
New known (Payload.connected detail) = Unit
New known (Payload.disconnected reason) = Unit

abbrev pub Once : List Text → List Event → Type 0
Once known [] = Unit
Once known (ev ∷ evs) = New known ev.payload × Once (noted known ev.payload) evs

Once-append :
    (a b : List Event) (known : List Text)
    → Once known a
    → Once (noted_all known a) b
    → Once known (a ++ b)
Once-append [] b known h k = k
Once-append (ev ∷ a) b known h k = (h.0, Once-append a b (noted known ev.payload) h.1 k)

-- What an update does while there is room for keys: the set holds just the keys announced.
record Exact (keys : List Text) (next : Session × List Event) : Type 0 where
  same : next.0.seen_blocks ≡ noted_all keys next.1
  once : Once keys next.1
  one_more : length next.0.seen_blocks ≤ suc (length keys)

module _ (index : ℕ) (level : Level) (wanted : ℕ) where
  on_transaction-Exact :
      (st : Session) (t : ℕ) (tx : Transaction)
      → length st.seen_blocks ≤ 100000
      → Exact st.seen_blocks (on_transaction index level wanted st t tx)
  unfolding on_transaction block_event tx_event
  on_transaction-Exact st t tx small =
      let room : pruned st.seen_blocks ≡ st.seen_blocks = ground arith in
      elim (Bool-cases (not (length tx.transaction_hash == 32) || not (tx.commitment == wanted))) [
        | inl skipped ↦ rw skipped (record { same = refl; once = tt; one_more = omega arith })
        | inr taken ↦ elim (Bool-cases (contains (block_key tx) st.seen_blocks)) [
          | inl seen ↦
              rw (taken, room, seen)
                (record { same = refl; once = (tt, tt); one_more = omega arith })
          | inr unseen ↦
              rw (taken, room, unseen)
                (record { same = refl; once = (unseen, (tt, tt)); one_more = omega arith })
        ]
      ]

  on_update-Exact :
      (st : Session) (t : ℕ) (u : Update)
      → length st.seen_blocks ≤ 100000
      → Exact st.seen_blocks (on_update index level wanted st t u)
  unfolding on_update status_payload
  on_update-Exact st t (Update.ack count) small = elim (Bool-cases st.announced) [
    | inl up ↦ rw up (record { same = refl; once = tt; one_more = omega arith })
    | inr down ↦ rw down (record { same = refl; once = (tt, tt); one_more = omega arith })
  ]
  on_update-Exact st t (Update.source_status c true epoch) small =
      elim (Bool-cases ((c == wanted) && st.announced)) [
        | inl told ↦ rw told (record { same = refl; once = (tt, tt); one_more = omega arith })
        | inr quiet ↦ rw quiet (record { same = refl; once = tt; one_more = omega arith })
      ]
  on_update-Exact st t (Update.source_status c false epoch) small =
      elim (Bool-cases ((c == wanted) && st.announced)) [
        | inl told ↦ rw told (record { same = refl; once = (tt, tt); one_more = omega arith })
        | inr quiet ↦ rw quiet (record { same = refl; once = tt; one_more = omega arith })
      ]
  on_update-Exact st t (Update.transaction tx) small = on_transaction-Exact st t tx small
  on_update-Exact st t Update.other small = record {
    same = refl;
    once = tt;
    one_more = omega arith;
  }

  on_updates-Once :
      (updates : List Stamped) (st : Session)
      → length st.seen_blocks + length updates ≤ 100001
      → Once st.seen_blocks (on_updates index level wanted st updates).1
  unfolding on_updates
  on_updates-Once [] st small = tt
  on_updates-Once (s ∷ rest) st small =
      let step = on_update-Exact st s.t s.update (omega arith) in
      let (next, events) = on_update index level wanted st s.t s.update in
      let later = on_updates-Once rest next (omega (arith, step.one_more)) in
      Once-append events _ st.seen_blocks step.once
        (subst (λ k. Once k (on_updates index level wanted next rest).1) step.same later)

  -- A session of at most 100 001 updates announces no block key twice.
  pub session-Once :
      (updates : List Stamped)
      → length updates ≤ 100001
      → Once [] (on_updates index level wanted fresh updates).1
  session-Once updates small = on_updates-Once updates fresh (omega arith)
