-- ===== src/WsJson/Paths.antt =====
-- The paths that `extract` of src/wsjson.rs reads, and what they select.
use robinhood_feed_bench.Common.{
  ℕ, ◌^◌, ◌<◌, ◌≡◌, ◌≢◌, refl, true, false, List, [], ◌∷◌, ◌++◌, map, some, All, arith,
}
use robinhood_feed_bench.Common.Texts.{Text, codes, join}
use robinhood_feed_bench.Common.Splits.{split, Without, Without-append, split-part, split-join}
use robinhood_feed_bench.Common.Decimal.{decimal}
use robinhood_feed_bench.Common.Parse.{
  is_digit, all_digits, all_digits-decimal, decimal-some, parse_unsigned, parse_unsigned-decimal,
}
use robinhood_feed_bench.WsJson.{
  Value, get_index, filter_map, fan_out, trim_open, before_open, from_open, bracket, brackets,
  descend, segments, extract,
}

-- `[]` and `[i]`.
pub data Pick : Type 0 where
  every : Pick
  at : ℕ → Pick

pub record Segment : Type 0 where
  pub name : Text
  pub picks : List Pick

abbrev pub print_picks : List Pick → Text
print_picks [] = []
print_picks (Pick.every ∷ ps) = b'[' ∷ b']' ∷ print_picks ps
print_picks (Pick.at i ∷ ps) = b'[' ∷ (decimal i ++ (b']' ∷ print_picks ps))

abbrev pub print_segment : Segment → Text
print_segment seg = seg.name ++ print_picks seg.picks

abbrev pub print_path : List Segment → Text
print_path segs = join (b'.' ∷ []) (map print_segment segs)

-- What a pick, a segment and a path select of some values.
abbrev pub pick : List Value → Pick → List Value
pick cur Pick.every = fan_out cur
pick cur (Pick.at i) = filter_map (get_index i) cur

abbrev pub pick_all : List Value → List Pick → List Value
pick_all cur [] = cur
pick_all cur (p ∷ ps) = pick_all (pick cur p) ps

abbrev pub select : List Value → List Segment → List Value
select cur [] = cur
select cur (seg ∷ segs) = select (pick_all (descend seg.name cur) seg.picks) segs

-- An index is a `usize`; a name has neither a dot nor an opening bracket.
abbrev pub IsPick : Pick → Type 0
IsPick Pick.every = Unit
IsPick (Pick.at i) = i < 2 ^ 64

abbrev pub IsSegment : Segment → Type 0
IsSegment seg = Without b'.' seg.name × Without b'[' seg.name × All IsPick seg.picks

digits-Without : (sep : ℕ) (t : Text) → all_digits t ≡ true → is_digit sep ≡ false → Without sep t
digits-Without sep [] h s = tt
digits-Without sep (c ∷ cs) h s = ground (arith, digits-Without sep cs)

trim_open-Without : (t : Text) → Without b'[' t → trim_open t ≡ t
trim_open-Without [] h = refl
trim_open-Without (c ∷ cs) h = ground arith

decimal-Without : (sep n : ℕ) → is_digit sep ≡ false → Without sep (decimal n)
decimal-Without sep n s = digits-Without sep (decimal n) (all_digits-decimal n) s

bracket-at :
    (cur : List Value) (i : ℕ) (t : Text)
    → t ≢ []
    → Without b'[' t
    → parse_unsigned (2 ^ 64) t ≡ some i
    → bracket cur (b'[' ∷ t) ≡ some (filter_map (get_index i) cur)
unfolding bracket
bracket-at cur i [] some_digit h e = absurd (some_digit refl)
bracket-at cur i (c ∷ cs) some_digit h e = rw (bracket, trim_open-Without (c ∷ cs) h, e) refl

brackets-picks :
    (ps : List Pick) (cur : List Value)
    → All IsPick ps
    → brackets cur (split b']' (print_picks ps)) ≡ some (pick_all cur ps)
unfolding brackets bracket
brackets-picks [] cur h = unfold split in refl
brackets-picks (Pick.every ∷ ps) cur h =
    rw (split-part b']' (codes "[") (print_picks ps) (omega arith, tt))
      (brackets-picks ps (fan_out cur) h.1)
brackets-picks (Pick.at i ∷ ps) cur h =
    rw
      (
        split-part b']' (b'[' ∷ decimal i) (print_picks ps)
            (omega arith, decimal-Without b']' i refl),
        bracket-at cur i (decimal i) (decimal-some i) (decimal-Without b'[' i refl)
            (parse_unsigned-decimal (2 ^ 64) i h.0),
      )
      (brackets-picks ps (filter_map (get_index i) cur) h.1)

before_open-name :
    (name rest : Text) → Without b'[' name → before_open (name ++ (b'[' ∷ rest)) ≡ name
before_open-name [] rest h = refl
before_open-name (c ∷ cs) rest h = ground (arith, before_open-name cs rest)

from_open-name :
    (name rest : Text) → Without b'[' name → from_open (name ++ (b'[' ∷ rest)) ≡ b'[' ∷ rest
from_open-name [] rest h = refl
from_open-name (c ∷ cs) rest h = ground (arith, from_open-name cs rest)

before_open-only : (name : Text) → Without b'[' name → before_open (name ++ []) ≡ name
before_open-only [] h = refl
before_open-only (c ∷ cs) h = ground (arith, before_open-only cs)

from_open-only : (name : Text) → Without b'[' name → from_open (name ++ []) ≡ []
from_open-only [] h = refl
from_open-only (c ∷ cs) h = ground (arith, from_open-only cs)

cut_segment :
    (name : Text) (ps : List Pick)
    → Without b'[' name
    → (before_open (name ++ print_picks ps) ≡ name)
      × (from_open (name ++ print_picks ps) ≡ print_picks ps)
cut_segment name [] h = (before_open-only name h, from_open-only name h)
cut_segment name (Pick.every ∷ ps) h = (before_open-name name _ h, from_open-name name _ h)
cut_segment name (Pick.at i ∷ ps) h = (before_open-name name _ h, from_open-name name _ h)

picks-Without : (ps : List Pick) → Without b'.' (print_picks ps)
picks-Without [] = tt
picks-Without (Pick.every ∷ ps) = (omega arith, (omega arith, picks-Without ps))
picks-Without (Pick.at i ∷ ps) = (
  omega arith,
  Without-append b'.' (decimal i) (b']' ∷ print_picks ps) (decimal-Without b'.' i refl)
      (omega arith, picks-Without ps),
)

segments-select :
    (segs : List Segment) (cur : List Value)
    → All IsSegment segs
    → segments cur (map print_segment segs) ≡ some (select cur segs)
unfolding segments
segments-select [] cur h = refl
segments-select (seg ∷ segs) cur h =
    let cut = cut_segment seg.name seg.picks h.0.1 in
    rw (cut.0, cut.1, brackets-picks seg.picks (descend seg.name cur) h.0.2)
      (segments-select segs (pick_all (descend seg.name cur) seg.picks) h.1)

path-Without :
    (segs : List Segment) → All IsSegment segs → All (Without b'.') (map print_segment segs)
path-Without [] h = tt
path-Without (seg ∷ segs) h = (
  Without-append b'.' seg.name (print_picks seg.picks) h.0.0 (picks-Without seg.picks),
  path-Without segs h.1,
)

-- `extract` on a printed path selects what the path means: a name descends into objects, `[]` goes
-- through arrays and `[i]` takes an element, each skipping the values that do not have it.
pub extract-select :
    (segs : List Segment) (v : Value)
    → All IsSegment segs
    → extract v (print_path segs) ≡ select (v ∷ []) segs
unfolding extract segments descend split
extract-select [] v h = unfold brackets bracket in refl
extract-select (seg ∷ segs) v h =
    rw
      (
        split-join b'.' (print_segment seg) (map print_segment segs) (path-Without (seg ∷ segs) h),
        segments-select (seg ∷ segs) (v ∷ []) h,
      )
      refl
