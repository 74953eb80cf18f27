-- ===== src/Main/Setup.antt =====
-- src/main.rs: what `main` does with its arguments before the event loop.
pub mod Indices
use robinhood_feed_bench.Common.{
  ℕ, zero, suc, ◌+◌, min, max, Bool, true, false, ◌||◌, List, [], ◌∷◌, ◌++◌, map, Option, none,
  some, length, unwrap_or, if◌then◌else◌,
}
use robinhood_feed_bench.Common.Results.{Result, ◌and_then◌}
use robinhood_feed_bench.Common.Texts.{Text, text_eq, codes}
use robinhood_feed_bench.Stats.{SourceInfo}
use robinhood_feed_bench.Eira.{Level, level_name}
use robinhood_feed_bench.Specs.{SpecError, Target, Spec, parse_nitro, parse_json, parse_raw}

-- The arguments that shape the run.
pub record Args : Type 0 where
  pub sources : List Text
  pub eira : Option Text
  pub eira_level : Level
  pub wsjson : List Text
  pub wsraw : List Text
  pub min_sources : Option ℕ

-- What is spawned: `nitro::run`, `eira::run`, `wsjson::run` and `wsraw::run`.
pub data Task : Type 0 where
  nitro : Target → Task
  eira : Text → Task
  json raw : Spec → Task

pub data SetupError : Type 0 where
  bad_spec : SpecError → SetupError
  no_sources repeated_name : SetupError

pub record Setup : Type 0 where
  pub infos : List SourceInfo
  pub eira_index : Option ℕ
  pub min_sources : ℕ
  -- Each task with its `index`.
  pub tasks : List (ℕ × Task)

abbrev pub source_info : Text → Text → Text → Text → SourceInfo
source_info name kind target level = record {
  name = name;
  kind = kind;
  target = target;
  level = level;
}

abbrev pub nitro_info : Target → SourceInfo
nitro_info src = source_info src.name (codes "nitro") src.url []

abbrev pub eira_infos : Level → Option Text → List SourceInfo
eira_infos level none = []
eira_infos level (some addr) =
    source_info (codes "eira") (codes "eira") addr (level_name level) ∷ []

abbrev pub json_info : Spec → SourceInfo
json_info src = source_info src.name (codes "wsjson") src.url []

abbrev pub raw_info : Spec → SourceInfo
raw_info src = source_info src.name (codes "wsraw") src.url []

-- A loop that parses every specification, and stops at the first that it refuses.
unfoldable pub parse_all {ℓ} :
    {A : Type ℓ} → (Text → Result SpecError A) → List Text → Result SetupError (List A)
parse_all parse [] = Result.ok []
parse_all parse (s ∷ ss) = elim (parse s) [
  | Result.err e ↦ Result.err (SetupError.bad_spec e)
  | Result.ok a ↦ parse_all parse ss and_then λ rest. Result.ok (a ∷ rest)
]

-- Equal neighbours after the sort are two equal names before it.
abbrev pub has_name : Text → List Text → Bool
has_name name [] = false
has_name name (n ∷ ns) = text_eq name n || has_name name ns

abbrev pub has_repeat : List Text → Bool
has_repeat [] = false
has_repeat (n ∷ ns) = has_name n ns || has_repeat ns

-- `index += 1` after each.
unfoldable pub spawn : ℕ → List Task → List (ℕ × Task)
spawn index [] = []
spawn index (t ∷ ts) = (index, t) ∷ spawn (index + 1) ts

abbrev pub eira_tasks : Option Text → List Task
eira_tasks none = []
eira_tasks (some addr) = Task.eira addr ∷ []

abbrev pub is_none_left : List SourceInfo → Bool
is_none_left [] = true
is_none_left (i ∷ is) = false

-- From the parsed specifications on.
unfoldable pub prepare : Args → List Target → List Spec → List Spec → Result SetupError Setup
prepare args feeds jsons raws =
    let infos =
      map nitro_info feeds
      ++ (eira_infos args.eira_level args.eira ++ (map json_info jsons ++ map raw_info raws)) in
    let n = length infos in
    if is_none_left infos
    then Result.err SetupError.no_sources
    else if has_repeat (map (λ (i : SourceInfo). i.name) infos)
    then Result.err SetupError.repeated_name
    else Result.ok (record {
      infos = infos;
      eira_index = elim args.eira [ none ↦ none | some addr ↦ some (length feeds) ];
      min_sources = max 1 (min (unwrap_or args.min_sources n) n);
      tasks = spawn 0 (
          map Task.nitro feeds
          ++ (eira_tasks args.eira ++ (map Task.json jsons ++ map Task.raw raws)));
    })

unfoldable pub setup : Args → Result SetupError Setup
setup args = parse_all parse_nitro args.sources and_then λ feeds.
    parse_all parse_json args.wsjson and_then λ jsons.
    parse_all parse_raw args.wsraw and_then λ raws. prepare args feeds jsons raws
