-- ===== src/Tests/Docs.antt =====
-- Tests of internal/metricsdoc and cmd/gen-metrics-docs.
use mathlib.Core.List.{Perm}
use trimon.Base.{
  ℕ, ◌≡◌, refl, ◌⊎◌, ◌<◌, String, Bool, true, false, Option, none, some, Result, List, [], ◌∷◌,
  ◌++◌, codes, ok, err, wrap_err, >>=-ok, ap, ◌∙◌, if◌then◌else◌, str_eq, arith, drop, ◌&&◌,
}
use trimon.Exporters.Otlp.Inventory.{InstrumentInfo}
use trimon.MetricsDoc.{
  MetricType, begin_marker, end_marker, splice, render_table, render_rows, render_row, sort_rows,
  prometheus_name, metric_type, table_header,
}
use trimon.Exporters.Otlp.Inventory.{register_instruments, set_up_all, set_up, create}
use trimon.Exporters.Otlp.Transport
use trimon.Tests.Exporters.{sdk}
use trimon.MetricsDoc.Search.{index}
use trimon.MetricsDoc.Splice.{ended}
use trimon.MetricsDoc.Table.{IsSorted, Lines, join, render_table-Lines}
use trimon.GenMetricsDocs.{
  FilePath, Files, DocsError, splicing, path_eq, write, go_mod_not_found, module_root, read_doc,
  walk, run, build_table, doc_path,
}
use trimon.GenMetricsDocs.Root.{HasGoMod, NoGoMod, walk-nearest}
use trimon.GenMetricsDocs.Rerun.{run-again}

abbrev build : String → String → MetricType → Option String
build name unit kind = some name

abbrev up : InstrumentInfo
up = record { name = "probe.up"; kind = "Int64Gauge"; unit = ""; description = "up" }

abbrev runs : InstrumentInfo
runs = record { name = "probe.runs"; kind = "Int64Counter"; unit = "{runs}"; description = "runs" }

abbrev rows : List ℕ
rows =
    codes "| `probe.runs` | Int64Counter | `{runs}` | `probe.runs` | runs |\n"
    ++ (codes "| `probe.up` | Int64Gauge | "
        ++ (226 ∷ 128 ∷ 148 ∷ [])
        ++ codes " | `probe.up` | up |\n")

rendered : render_table build (up ∷ runs ∷ []) ≡ ok (table_header ++ rows)
unfolding render_table render_rows render_row sort_rows prometheus_name metric_type
rendered = refl

render_table-Lines_example :
    (sorted : List InstrumentInfo) × (ls : List (List ℕ)) × Perm sorted (up ∷ runs ∷ [])
    × IsSorted sorted
    × Lines build sorted ls
    × (table_header ++ rows ≡ table_header ++ join ls)
render_table-Lines_example =
    render_table-Lines build (up ∷ runs ∷ []) (table_header ++ rows) rendered

-- go.mod stands in /src.
abbrev stat : FilePath → Bool
stat path = elim path [
  | [] ↦ false
  | name ∷ dir ↦ elim dir [ [] ↦ false | d ∷ ds ↦ str_eq name "go.mod" && str_eq d "src" ]
]

walk-nearest_example :
    ((k : ℕ) × (walk stat 4 ("cmd" ∷ "src" ∷ []) ≡ ok (drop k ("cmd" ∷ "src" ∷ [])))
      × HasGoMod stat (drop k ("cmd" ∷ "src" ∷ []))
      × ((j : ℕ) → j < k → NoGoMod stat (drop j ("cmd" ∷ "src" ∷ []))))
    ⊎ ((walk stat 4 ("cmd" ∷ "src" ∷ []) ≡ err go_mod_not_found)
        × ((j : ℕ) → NoGoMod stat (drop j ("cmd" ∷ "src" ∷ []))))
walk-nearest_example = walk-nearest stat ("cmd" ∷ "src" ∷ []) 4 (omega arith)

-- The table of all instruments, without its last newline.
abbrev init : List ℕ → List ℕ
init [] = []
init (x ∷ xs) = elim xs [ [] ↦ [] | y ∷ ys ↦ x ∷ init xs ]

abbrev or_empty : Result DocsError (List ℕ) → List ℕ
or_empty (ok t) = t
or_empty (err e) = []

unfoldable whole_table : List ℕ
unfolding build_table render_table render_rows render_row sort_rows prometheus_name metric_type
    Transport.new Transport.build_reader register_instruments set_up_all set_up create
whole_table = init (or_empty (build_table sdk build))

table_is_ended : build_table sdk build ≡ ok (ended whole_table)
unfolding whole_table
table_is_ended = refl

table_is_clean : index end_marker whole_table ≡ none
unfolding whole_table
table_is_clean = refl

abbrev doc : List ℕ
doc =
    codes "# Metrics\n"
    ++ (begin_marker ++ (codes "\nold\n" ++ (end_marker ++ codes "\nThe end.\n")))

abbrev new_doc : List ℕ
new_doc =
    codes "# Metrics\n"
    ++ (begin_marker ++ b'\n' ∷ (ended whole_table ++ (end_marker ++ codes "\nThe end.\n")))

abbrev files : Files
files path =
    if path_eq path (doc_path ("src" ∷ []))
    then some doc
    else if path_eq path ("go.mod" ∷ "src" ∷ [])
    then some []
    else none

spliced : splice doc (ended whole_table) ≡ ok new_doc
unfolding splice
spliced = refl

ran :
    run sdk build (some ("cmd" ∷ "src" ∷ [])) true files
    ≡ ok (write files (doc_path ("src" ∷ [])) new_doc)
unfolding run module_root walk read_doc
ran =
    >>=-ok (build_table sdk build) _ table_is_ended
    ∙ >>=-ok (wrap_err splicing (splice doc (ended whole_table))) _ (ap (wrap_err splicing) spliced)

run-again_example :
    (files'' : Files) × (run sdk build
        (some ("cmd" ∷ "src" ∷ []))
        true
        (write files (doc_path ("src" ∷ [])) new_doc)
      ≡ ok files'')
    × ((path : FilePath) → files'' path ≡ write files (doc_path ("src" ∷ [])) new_doc path)
run-again_example =
    run-again sdk build (some ("cmd" ∷ "src" ∷ [])) true files
      (write files (doc_path ("src" ∷ [])) new_doc) whole_table ran table_is_ended table_is_clean
