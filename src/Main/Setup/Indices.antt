-- ===== src/Main/Setup/Indices.antt =====
-- The indices of src/main.rs: every task sends under the index of its own source.
use mathlib.Core.Path.{ap₂}
use robinhood_feed_bench.Common.{
  append_assoc, length-append, ℕ, suc, ◌+◌, ◌≤◌, ◌<◌, unwrap_or, ◌≡◌, ◌≢◌, refl, ap, sym, subst,
  ◌∙◌, false, List, [], ◌∷◌, ◌++◌, map, Option, none, some, All, length, get_elem?, length-map,
  arith, Bool-cases, inl, inr,
}
use robinhood_feed_bench.Common.Results.{Result, ◌and_then◌}
use robinhood_feed_bench.Common.Texts.{Text, text_eq_iff, codes}
use robinhood_feed_bench.Stats.{SourceInfo}
use robinhood_feed_bench.Eira.{Level, level_name}
use robinhood_feed_bench.Specs.{Target, Spec, parse_nitro, parse_json, parse_raw}
use robinhood_feed_bench.Main.Setup.{
  Args, Task, SetupError, Setup, source_info, nitro_info, eira_infos, json_info, raw_info,
  parse_all, has_name, has_repeat, spawn, eira_tasks, is_none_left, prepare, setup,
}

-- The source that a task stands for.
abbrev pub info_of : Level → Task → SourceInfo
info_of level (Task.nitro src) = nitro_info src
info_of level (Task.eira addr) = source_info (codes "eira") (codes "eira") addr (level_name level)
info_of level (Task.json src) = json_info src
info_of level (Task.raw src) = raw_info src

map-append {ℓ κ} :
    {A : Type ℓ} {B : Type κ} (f : A → B) (a b : List A) → map f (a ++ b) ≡ map f a ++ map f b
map-append f [] b = refl
map-append f (x ∷ a) b = ap (λ r. f x ∷ r) (map-append f a b)

map-map {ℓ κ ι} :
    {A : Type ℓ} {B : Type κ} {C : Type ι} (f : B → C) (g : A → B) (xs : List A)
    → map f (map g xs) ≡ map (λ x. f (g x)) xs
map-map f g [] = refl
map-map f g (x ∷ xs) = ap (λ r. f (g x) ∷ r) (map-map f g xs)

eira-infos_of :
    (level : Level) (eira : Option Text)
    → map (info_of level) (eira_tasks eira) ≡ eira_infos level eira
eira-infos_of level none = refl
eira-infos_of level (some addr) = refl

-- The sources are those of the tasks, in order.
infos_of_tasks :
    (level : Level) (eira : Option Text) (feeds : List Target) (jsons raws : List Spec)
    → map
        (info_of level)
        (map Task.nitro feeds ++ (eira_tasks eira ++ (map Task.json jsons ++ map Task.raw raws)))
      ≡ map nitro_info feeds
        ++ (eira_infos level eira ++ (map json_info jsons ++ map raw_info raws))
infos_of_tasks level eira feeds jsons raws =
    map-append (info_of level) (map Task.nitro feeds) _
    ∙ ap₂ ◌++◌ (map-map (info_of level) Task.nitro feeds) (
        map-append (info_of level) (eira_tasks eira) _
        ∙ ap₂ ◌++◌ (eira-infos_of level eira) (
            map-append (info_of level) (map Task.json jsons) _
            ∙ ap₂ ◌++◌ (map-map (info_of level) Task.json jsons)
                (map-map (info_of level) Task.raw raws)))

-- What is at an index behind a prefix.
get_elem?-behind {ℓ} :
    {A : Type ℓ} (pre : List A) (x : A) (rest : List A)
    → get_elem? (pre ++ (x ∷ rest)) (length pre) ≡ some x
get_elem?-behind [] x rest = refl
get_elem?-behind (y ∷ pre) x rest = get_elem?-behind pre x rest

abbrev pub Seated : Level → List SourceInfo → List (ℕ × Task) → Type 0
Seated level infos = All (λ (i, t). get_elem? infos i ≡ some (info_of level t))

spawn-Seated :
    (level : Level) (ts : List Task) (pre : List SourceInfo)
    → Seated level (pre ++ map (info_of level) ts) (spawn (length pre) ts)
unfolding spawn
spawn-Seated level [] pre = tt
spawn-Seated level (t ∷ ts) pre = (
  get_elem?-behind pre (info_of level t) (map (info_of level) ts),
  subst (λ l. Seated level l (spawn (length pre + 1) ts))
      (append_assoc pre (info_of level t ∷ []) (map (info_of level) ts))
      (subst
        (λ k. Seated level ((pre ++ (info_of level t ∷ [])) ++ map (info_of level) ts) (spawn k ts))
        (length-append pre (info_of level t ∷ []))
        (spawn-Seated level ts (pre ++ (info_of level t ∷ [])))),
)

length-spawn : (i : ℕ) (ts : List Task) → length (spawn i ts) ≡ length ts
unfolding spawn
length-spawn i [] = refl
length-spawn i (t ∷ ts) = ap suc (length-spawn (i + 1) ts)

-- No two of them are the same.
abbrev pub Distinct : List Text → Type 0
Distinct [] = Unit
Distinct (n ∷ ns) = All (λ m. n ≢ m) ns × Distinct ns

has_name-All : (n : Text) (ns : List Text) → has_name n ns ≡ false → All (λ m. n ≢ m) ns
has_name-All n [] h = tt
has_name-All n (m ∷ ns) h = ground (arith, text_eq_iff n m, has_name-All n ns)

has_repeat-Distinct : (ns : List Text) → has_repeat ns ≡ false → Distinct ns
has_repeat-Distinct [] h = tt
has_repeat-Distinct (n ∷ ns) h = ground (arith, has_name-All n ns, has_repeat-Distinct ns)

-- What `main` relies on after it has read its arguments.
pub record IsReady (args : Args) (s : Setup) : Type 0 where
  pub some_source : 1 ≤ length s.infos
  pub seated : Seated args.eira_level s.infos s.tasks
  pub one_each : length s.tasks ≡ length s.infos
  pub distinct : Distinct (map (λ (i : SourceInfo). i.name) s.infos)
  pub reference_in : unwrap_or s.eira_index 0 < length s.infos
  pub min_in : (1 ≤ s.min_sources) × (s.min_sources ≤ length s.infos)

some_left : (infos : List SourceInfo) → is_none_left infos ≡ false → 1 ≤ length infos
some_left [] h = cc
some_left (i ∷ is) h = omega arith

-- The index of the Eira source, or 0, is that of a source.
reference-lt :
    (level : Level) (eira : Option Text) (feeds : List Target) (rest : List SourceInfo)
    → 1 ≤ length (map nitro_info feeds ++ (eira_infos level eira ++ rest))
    → unwrap_or (elim eira [ none ↦ none | some addr ↦ some (length feeds) ]) 0
      < length (map nitro_info feeds ++ (eira_infos level eira ++ rest))
reference-lt level none feeds rest some_in = omega arith
reference-lt level (some addr) feeds rest some_in = omega (
  arith,
  length-append (map nitro_info feeds) (eira_infos level (some addr) ++ rest),
  length-map nitro_info feeds,
)

-- If there is a result, it satisfies `P`.
abbrev IfOk : (Setup → Type 0) → Result SetupError Setup → Type 0
IfOk P (Result.err e) = Unit
IfOk P (Result.ok a) = P a

and_then-IfOk {ℓ} :
    {A : Type ℓ} (P : Setup → Type 0) (m : Result SetupError A) (f : A → Result SetupError Setup)
    → ((a : A) → IfOk P (f a))
    → IfOk P (m and_then f)
and_then-IfOk P (Result.err e) f h = tt
and_then-IfOk P (Result.ok a) f h = h a

prepare-IsReady :
    (args : Args) (feeds : List Target) (jsons raws : List Spec)
    → IfOk (IsReady args) (prepare args feeds jsons raws)
unfolding prepare
prepare-IsReady args feeds jsons raws =
    let infos =
      map nitro_info feeds
      ++ (eira_infos args.eira_level args.eira ++ (map json_info jsons ++ map raw_info raws)) in
    let tasks =
      map Task.nitro feeds
      ++ (eira_tasks args.eira ++ (map Task.json jsons ++ map Task.raw raws)) in
    let same = infos_of_tasks args.eira_level args.eira feeds jsons raws in
    elim (Bool-cases (is_none_left infos)) [
      | inl empty ↦ rw (prepare, empty) tt
      | inr some_in ↦ elim (Bool-cases (has_repeat (map (λ (i : SourceInfo). i.name) infos))) [
        | inl twice ↦ rw (prepare, some_in, twice) tt
        | inr once ↦
            rw (prepare, some_in, once)
              (record {
                some_source = some_left infos some_in;
                seated =
                    subst (λ l. Seated args.eira_level l (spawn 0 tasks)) same
                      (spawn-Seated args.eira_level tasks []);
                one_each =
                    length-spawn 0 tasks
                    ∙ sym (length-map (info_of args.eira_level) tasks)
                    ∙ ap length same;
                distinct = has_repeat-Distinct _ once;
                reference_in =
                    reference-lt args.eira_level args.eira feeds _ (some_left infos some_in);
                min_in = omega (arith, some_left infos some_in);
              })
      ]
    ]

setup-IfOk : (args : Args) → IfOk (IsReady args) (setup args)
unfolding setup
setup-IfOk args = and_then-IfOk (IsReady args) (parse_all parse_nitro args.sources) _ λ feeds.
    and_then-IfOk (IsReady args) (parse_all parse_json args.wsjson) _ λ jsons.
      and_then-IfOk (IsReady args) (parse_all parse_raw args.wsraw) _
        λ raws. prepare-IsReady args feeds jsons raws

-- When `main` accepts its arguments there is a source, no two sources have one name, each task runs
-- under the index of the source that it stands for, there are as many tasks as sources, and the
-- number of sources that match a block is between 1 and that of the sources.
pub setup-IsReady : (args : Args) (s : Setup) → setup args ≡ Result.ok s → IsReady args s
setup-IsReady args s h = subst (IfOk (IsReady args)) h (setup-IfOk args)
