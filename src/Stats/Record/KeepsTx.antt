-- ===== src/Stats/Record/KeepsTx.antt =====
-- The `Tx` branch of `on_event` of src/stats.rs keeps the collector's invariant.
use robinhood_feed_bench.Common.{
  ℕ, ◌+◌, ◌%◌, ◌<◌, ◌≡◌, ◌⊎◌, refl, ◌∙◌, Bool, List, Option, none, some, length, get_elem?,
  length-set, replicate, length-replicate, Ensures-get, Ensures-update, unwrap_or, arith,
  Option-cases, inl, inr,
}
use robinhood_feed_bench.Common.Texts.{Text}
use robinhood_feed_bench.Common.Maps.{lookup, insert, AllValues-lookup, AllValues-insert}
use robinhood_feed_bench.Event.{Instant, Hash}
use robinhood_feed_bench.Stats.{TxRec, Collector, u64_mod, is_nitro}
use robinhood_feed_bench.Stats.Record.{new_tx, annotate, arrive_tx, on_tx}
use robinhood_feed_bench.Stats.Record.Arrivals.{
  TxWf, arrive_tx-TxWf, new_arrivals, get_elem?-replicate,
}
use robinhood_feed_bench.Stats.Wf.{IsWf, Keeps}

-- The entry of a transaction.
abbrev TxEntry : ℕ → TxRec → Type 0
TxEntry n r = ((r.arrivals ≡ replicate n none) × (r.seen ≡ 0)) ⊎ TxWf n r

module _ (n s : ℕ) (t : Instant) (r : TxRec) where
  TxEntry-size : TxEntry n r → length r.arrivals ≡ n
  TxEntry-size (inl fresh) = rw fresh.0 (length-replicate n none)
  TxEntry-size (inr w) = w.size

  TxEntry-again : (a : Instant) → TxEntry n r → get_elem? r.arrivals s ≡ some (some a) → TxWf n r
  TxEntry-again a (inl (none_yet, _)) e = absurd (get_elem?-replicate n s a (rw none_yet at e))
  TxEntry-again a (inr w) e = w

  TxEntry-arrive : TxEntry n r → get_elem? r.arrivals s ≡ some none → TxWf n (arrive_tx s t r)
  TxEntry-arrive (inl (none_yet, unseen)) free =
      let (size, counted, earliest) = new_arrivals n r.first in
      arrive_tx-TxWf s t r free (rw none_yet size) (unseen ∙ rw none_yet counted)
        (rw none_yet earliest)
  TxEntry-arrive (inr w) free = arrive_tx-TxWf s t r free w.size w.counted w.earliest

TxEntry-annotate :
    (n : ℕ) (from_nitro : Bool) (key : Option Text) (count : Option ℕ) (swap : Bool) (r : TxRec)
    → TxEntry n r
    → TxEntry n (annotate from_nitro key count swap r)
unfolding annotate
TxEntry-annotate n from_nitro key count swap r (inl fresh) = inl fresh
TxEntry-annotate n from_nitro key count swap r (inr w) =
    inr (record {
      size = w.size;
      counted = w.counted;
      some_seen = w.some_seen;
      earliest = w.earliest;
    })

stored_tx-IsWf :
    {n : ℕ} (c : Collector) (hash : Hash) (r : TxRec) (tx_events raw_tx_bytes : List ℕ)
    → IsWf n c
    → TxWf n r
    → length tx_events ≡ n
    → length raw_tx_bytes ≡ n
    → IsWf n
        (record c { txs = insert hash r c.txs; tx_events = tx_events; raw_tx_bytes = raw_tx_bytes })
stored_tx-IsWf {n} c hash r tx_events raw_tx_bytes wf w he hr =
    let kept = AllValues-insert (TxWf n) hash r c.txs w wf.txs_wf in ground arith

module _ {n : ℕ} (c : Collector) (s : ℕ) (t : Instant) (wf : IsWf n c) (lt : s < n) where
  open wf use {sizes}

  found-TxEntry :
      (hash : Hash) → TxEntry n (unwrap_or (lookup hash c.txs) (new_tx (length c.sources) t))
  found-TxEntry hash = elim (Option-cases (lookup hash c.txs)) [
    | inl missing ↦ rw missing (unfold new_tx in inl (rw sizes.sources, refl))
    | inr (r, known) ↦ rw known (inr (AllValues-lookup (TxWf n) hash c.txs wf.txs_wf known))
  ]

  pub on_tx-Keeps :
      (hash : Hash) (key : Option Text) (count : Option ℕ) (swap : Bool) (raw_len : ℕ)
      → Keeps n c (on_tx c s t hash key count swap raw_len)
  unfolding on_tx
  on_tx-Keeps hash key count swap raw_len = Ensures-update _ _ c.tx_events s (omega arith) _ λ a _.
      Ensures-update _ _ c.raw_tx_bytes s (omega arith) _ λ b _.
        Ensures-get _ _ c.sources s (omega arith) λ source _.
          let noted =
            annotate (is_nitro source) key count swap
              (unwrap_or (lookup hash c.txs) (new_tx (length c.sources) t)) in
          let entry = TxEntry-annotate n (is_nitro source) key count swap _ (found-TxEntry hash) in
          let store = λ (r : TxRec) (w : TxWf n r).
            stored_tx-IsWf c hash r _ _ wf w
              (length-set c.tx_events s ((a + 1) % u64_mod) ∙ sizes.tx_events)
              (length-set c.raw_tx_bytes s ((b + raw_len) % u64_mod) ∙ sizes.raw_tx_bytes) in
          Ensures-get _ _ noted.arrivals s (omega (arith, TxEntry-size n s t noted entry)) (elim [
            | none ↦ λ free. (store _ (TxEntry-arrive n s t noted entry free), omega arith)
            | some x ↦ λ known. (store _ (TxEntry-again n s t noted x entry known), omega arith)
          ])
