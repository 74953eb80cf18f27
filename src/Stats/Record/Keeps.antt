-- ===== src/Stats/Record/Keeps.antt =====
-- The `Block` and `Tx` branches of `on_event` of src/stats.rs keep the collector's invariant.
use robinhood_feed_bench.Common.{
  ℕ, ◌+◌, ◌%◌, ◌≤◌, ◌<◌, ◌≡◌, ◌⊎◌, refl, ap, sym, ◌∙◌, ◌==◌, leb, Option, none, some, length,
  get_elem?, length-set, replicate, length-replicate, Ensures-get, Ensures-update, if◌then◌else◌,
  unwrap_or, arith, Bool-cases, Option-cases, inl, inr, get_elem?-lt, get_elem?-in,
}
use robinhood_feed_bench.Common.Texts.{Text}
use robinhood_feed_bench.Common.Maps.{
  lookup, insert, AllValues-lookup, AllValues-insert, count_values, count_values-insert, weight,
}
use robinhood_feed_bench.Event.{Instant}
use robinhood_feed_bench.Stats.{BlockRec, Collector, Notice, u64_mod}
use robinhood_feed_bench.Stats.Record.{new_block, fill, arrive, completion, line, deliver, on_block}
use robinhood_feed_bench.Stats.Record.Arrivals.{
  BlockWf, arrive-BlockWf, new_arrivals, get_elem?-replicate,
}
use robinhood_feed_bench.Stats.Wf.{IsWf, Keeps, is_complete, completed, lines}

-- An entry before the delivery is entered: the one that `or_insert_with` made, or a known one.
abbrev IsFresh : ℕ → ℕ → Instant → BlockRec → Type 0
IsFresh n s t r =
    (r.arrivals ≡ replicate n none)
    × (r.seen ≡ 0)
    × (r.first ≡ t)
    × (r.first_src ≡ s)
    × (r.completed_at ≡ none)

abbrev Entry : ℕ → ℕ → ℕ → Instant → BlockRec → Type 0
Entry n m s t r = IsFresh n s t r ⊎ BlockWf n m r

module _ (n m s : ℕ) (t : Instant) (pos : 1 ≤ m) where
  Entry-fill :
      (r : BlockRec) (seq : Option ℕ) (hash : Option Text) (count : Option ℕ)
      → Entry n m s t r
      → Entry n m s t (fill r seq hash count)
  unfolding fill
  Entry-fill r seq hash count (inl fresh) = inl fresh
  Entry-fill r seq hash count (inr w) = inr (record {
    size = w.size;
    counted = w.counted;
    some_seen = w.some_seen;
    winner = w.winner;
    earliest = w.earliest;
    complete = w.complete;
  })

  -- A second delivery meets a known entry.
  Entry-again :
      (r : BlockRec) (a : Instant)
      → Entry n m s t r
      → get_elem? r.arrivals s ≡ some (some a)
      → BlockWf n m r
  Entry-again r a (inl (none_yet, _, _, _, _)) e =
      absurd (get_elem?-replicate n s a (rw none_yet at e))
  Entry-again r a (inr w) e = w

  Entry-arrive :
      (r : BlockRec)
      → Entry n m s t r
      → get_elem? r.arrivals s ≡ some none
      → BlockWf n m (arrive m s t r)
  Entry-arrive r (inl (none_yet, unseen, f, src, open_yet)) free =
      let (size, counted, earliest) = new_arrivals n r.first in
      arrive-BlockWf m s t r free pos (rw none_yet size) (unseen ∙ rw none_yet counted)
        (rw none_yet earliest) (rw (open_yet, unseen) (ground arith)) (inl (f, src))
  Entry-arrive r (inr w) free =
      arrive-BlockWf m s t r free pos w.size w.counted w.earliest w.complete (inr w.winner)

completion-in :
    (show_ms : ℕ → Text) (c : Collector) (key : Text) (r : BlockRec)
    → r.first_src < length c.sources
    → (notice : Option Notice) × (completion show_ms c key r ≡ some notice)
      × (lines notice ≡ (if r.seen == c.min_sources then 1 else 0))
unfolding completion
completion-in show_ms c key r lt =
    let (source, e) = get_elem?-in c.sources r.first_src lt in
    elim (Bool-cases (r.seen == c.min_sources)) [
      | inl now ↦ (some (Notice.block_line (line show_ms key r source.name)), rw (now, e), rw now)
      | inr later ↦ (none, rw later, rw later)
    ]

stored-IsWf :
    {n : ℕ} (c : Collector) (key : Text) (r : BlockRec)
    → IsWf n c
    → BlockWf n c.min_sources r
    → IsWf n (record c { blocks = insert key r c.blocks })
stored-IsWf {n} c key r wf w =
    let kept = AllValues-insert (BlockWf n c.min_sources) key r c.blocks w wf.blocks_wf in
    ground arith

module _ {n : ℕ} (c : Collector) (s : ℕ) (t : Instant) (wf : IsWf n c) (lt : s < n) where
  open wf use {sizes}

  found-Entry :
      (key : Text) (seq : Option ℕ)
      → Entry n c.min_sources s t
          (unwrap_or (lookup key c.blocks) (new_block (length c.sources) seq s t))
  found-Entry key seq = elim (Option-cases (lookup key c.blocks)) [
    | inl missing ↦ rw missing (unfold new_block in inl (rw sizes.sources, refl, refl, refl, refl))
    | inr (r, known) ↦
        rw known (inr (AllValues-lookup (BlockWf n c.min_sources) key c.blocks wf.blocks_wf known))
  ]

  Entry-size : (r : BlockRec) → Entry n c.min_sources s t r → length r.arrivals ≡ n
  Entry-size r (inl fresh) = rw fresh.0 (length-replicate n none)
  Entry-size r (inr w) = w.size

  Entry-complete :
      (r : BlockRec) → Entry n c.min_sources s t r → is_complete r ≡ leb c.min_sources r.seen
  Entry-complete r (inl (_, unseen, _, _, open_yet)) =
      rw (open_yet, unseen) (ground (arith, wf.min_pos))
  Entry-complete r (inr w) = w.complete

  -- The count of completed blocks, and whether this delivery completes one.
  module _ (key : Text) (r : BlockRec)
      (same : weight is_complete (lookup key c.blocks) ≡ (if is_complete r then 1 else 0)) where
    count_again : count_values is_complete (insert key r c.blocks) ≡ completed c + 0
    count_again = omega (arith, count_values-insert is_complete key r c.blocks)

    count_arrive :
        is_complete r ≡ leb c.min_sources r.seen
        → is_complete (arrive c.min_sources s t r)
          ≡ leb c.min_sources (arrive c.min_sources s t r).seen
        → count_values is_complete (insert key (arrive c.min_sources s t r) c.blocks)
          ≡ completed c + (if (arrive c.min_sources s t r).seen == c.min_sources then 1 else 0)
    unfolding arrive
    count_arrive before after =
        ground (arith, count_values-insert is_complete key (arrive c.min_sources s t r) c.blocks)

  module _ (show_ms : ℕ → Text) where
    deliver-Keeps :
        (key : Text) (r : BlockRec)
        → Entry n c.min_sources s t r
        → weight is_complete (lookup key c.blocks) ≡ (if is_complete r then 1 else 0)
        → Keeps n c (deliver show_ms c key s t r)
    unfolding deliver
    deliver-Keeps key r entry same =
        Ensures-get _ _ r.arrivals s (omega (arith, Entry-size r entry)) (elim [
          | none ↦ λ free.
              let w = Entry-arrive n c.min_sources s t wf.min_pos r entry free in
              let arrived = arrive c.min_sources s t r in
              let (notice, e, told) =
                completion-in show_ms c key arrived (
                  omega
                    (arith, get_elem?-lt arrived.arrivals arrived.first_src w.winner, w.size)) in
              rw e (
                stored-IsWf c key arrived wf w,
                count_arrive key r same (Entry-complete r entry) w.complete
                    ∙ ap (λ k. completed c + k) (sym told),
              )
          | some a ↦ λ known. (
            stored-IsWf c key r wf (Entry-again n c.min_sources s t wf.min_pos r a entry known),
            count_again key r same,
          )
        ])

found_weight :
    (key : Text) (c : Collector) (n s : ℕ) (t : Instant) (seq : Option ℕ) (hash : Option Text)
    (count : Option ℕ)
    → weight is_complete (lookup key c.blocks) ≡ (
        if is_complete (fill (unwrap_or (lookup key c.blocks) (new_block n seq s t)) seq hash count)
        then 1
        else 0)
unfolding fill new_block
found_weight key c n s t seq hash count = ground arith

module _ {n : ℕ} (c : Collector) (s : ℕ) (t : Instant) (wf : IsWf n c) (lt : s < n)
    (show_ms : ℕ → Text) where
  open wf use {sizes}

  pub on_block-Keeps :
      (key : Text) (seq : Option ℕ) (hash : Option Text) (count : Option ℕ) (wire_len : ℕ)
      → Keeps n c (on_block show_ms c s t key seq hash count wire_len)
  unfolding on_block
  on_block-Keeps key seq hash count wire_len =
      let found = unwrap_or (lookup key c.blocks) (new_block (length c.sources) seq s t) in
      let entry =
        Entry-fill n c.min_sources s t wf.min_pos found seq hash count
          (found-Entry c s t wf lt key seq) in
      Ensures-update _ _ c.block_events s (omega arith) _ λ a _.
        Ensures-update _ _ c.wire_bytes s (omega arith) _ λ b _.
          deliver-Keeps _ s t
            (ground (
              arith,
              length-set c.block_events s ((a + 1) % u64_mod),
              length-set c.wire_bytes s ((b + wire_len) % u64_mod),
            ))
            lt show_ms key _ entry (found_weight key c (length c.sources) s t seq hash count)
