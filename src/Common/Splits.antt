-- ===== src/Common/Splits.antt =====
-- `split`, `trim` and the ASCII case functions of texts. White space is that of Unicode.
use Prim.Native.Nat.{ℕ, ◌+◌}
use mathlib.Core.Bool.{Bool, true, false, ◌&&◌, ◌||◌}
use mathlib.Core.Option.{Option, none, some}
use mathlib.Core.List.{List, [], ◌∷◌, ◌++◌, map}
use mathlib.Core.Logic.{◌≢◌}
use mathlib.Core.Path.{◌≡◌, refl, ap, ◌∙◌}
use native.Mathlib.Omega.{arith}
use robinhood_feed_bench.Common.Lists.{All}
use robinhood_feed_bench.Common.Tests.{leb, ◌==◌, if◌then◌else◌}
use robinhood_feed_bench.Common.Texts.{Text, text_eq, join}

abbrev pub put_first : ℕ → List Text → List Text
put_first c [] = (c ∷ []) ∷ []
put_first c (t ∷ ts) = (c ∷ t) ∷ ts

-- `text.split(c)`: one part more than there are separators.
unfoldable pub split : ℕ → Text → List Text
split sep [] = [] ∷ []
split sep (c ∷ cs) = let rest = split sep cs in if c == sep then [] ∷ rest else put_first c rest

abbrev pub is_space : ℕ → Bool
is_space c =
    (c == 32)
    || leb 9 c && leb c 13
    || (c == 133)
    || (c == 160)
    || (c == 5760)
    || leb 8192 c && leb c 8202
    || (c == 8232)
    || (c == 8233)
    || (c == 8239)
    || (c == 8287)
    || (c == 12288)

abbrev pub trim_start : Text → Text
trim_start [] = []
trim_start (c ∷ cs) = if is_space c then trim_start cs else c ∷ cs

abbrev pub is_blank : Text → Bool
is_blank [] = true
is_blank (c ∷ cs) = is_space c && is_blank cs

abbrev pub trim_end : Text → Text
trim_end [] = []
trim_end (c ∷ cs) = if is_blank (c ∷ cs) then [] else c ∷ trim_end cs

abbrev pub trim : Text → Text
trim text = trim_end (trim_start text)

abbrev pub lower : ℕ → ℕ
lower c = if leb 65 c && leb c 90 then c + 32 else c

-- `to_ascii_lowercase`, and `a.eq_ignore_ascii_case(b)`.
abbrev pub lowercase : Text → Text
lowercase = map lower

abbrev pub same_word : Text → Text → Bool
same_word a b = text_eq (lowercase a) (lowercase b)

-- A text without a code point is one part of a split at it.
abbrev pub Without : ℕ → Text → Type 0
Without sep = All (λ c. c ≢ sep)

pub Without-append : (sep : ℕ) (s t : Text) → Without sep s → Without sep t → Without sep (s ++ t)
Without-append sep [] t hs ht = ht
Without-append sep (c ∷ s) t hs ht = (hs.0, Without-append sep s t hs.1 ht)

pub split-part :
    (sep : ℕ) (l rest : Text) → Without sep l → split sep (l ++ (sep ∷ rest)) ≡ l ∷ split sep rest
unfolding split
split-part sep [] rest h = ground arith
split-part sep (c ∷ l) rest h = ground (arith, split-part sep l rest)

pub split-last : (sep : ℕ) (l : Text) → Without sep l → split sep l ≡ l ∷ []
unfolding split
split-last sep [] h = refl
split-last sep (c ∷ l) h = ground (arith, split-last sep l)

pub split-join :
    (sep : ℕ) (t : Text) (ts : List Text)
    → All (Without sep) (t ∷ ts)
    → split sep (join (sep ∷ []) (t ∷ ts)) ≡ t ∷ ts
split-join sep t [] h = split-last sep t h.0
split-join sep t (u ∷ us) h =
    split-part sep t (join (sep ∷ []) (u ∷ us)) h.0 ∙ ap (λ r. t ∷ r) (split-join sep u us h.1)

-- `text.split_once(c)`
unfoldable pub split_once : ℕ → Text → Option (Text × Text)
split_once sep [] = none
split_once sep (c ∷ cs) =
    let rest = split_once sep cs in
    if c == sep then some ([], cs) else elim rest [ none ↦ none | some (a, b) ↦ some (c ∷ a, b) ]

abbrev pub starts_with : Text → Text → Bool
starts_with [] t = true
starts_with (p ∷ ps) [] = false
starts_with (p ∷ ps) (c ∷ cs) = p == c && starts_with ps cs

pub split_once-part :
    (sep : ℕ) (a b : Text) → Without sep a → split_once sep (a ++ (sep ∷ b)) ≡ some (a, b)
unfolding split_once
split_once-part sep [] b h = ground arith
split_once-part sep (c ∷ a) b h = ground (arith, split_once-part sep a b)

pub split_once-none : (sep : ℕ) (a : Text) → Without sep a → split_once sep a ≡ none
unfolding split_once
split_once-none sep [] h = refl
split_once-none sep (c ∷ a) h = ground (arith, split_once-none sep a)
