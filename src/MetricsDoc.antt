-- ===== src/MetricsDoc.antt =====
-- internal/metricsdoc/metricsdoc.go: the table of the instruments, and its place in the document. Texts
-- of the document are bytes. The translator of names is a parameter, `none` for an error.
pub mod Search
pub mod Splice
pub mod Table
use trimon.Base.{
  ℕ, ◌+◌, String, Bool, true, false, Option, none, some, List, [], ◌∷◌, ◌++◌, str_eq, ltb, ◌==◌,
  codes, length, take, drop, if◌then◌else◌, Result, ok, err, ◌>>=◌,
}
use trimon.Exporters.Otlp.Inventory.{InstrumentInfo}
use Search.{index}

pub data MetricType : Type 0 where
  monotonic_counter gauge : MetricType

pub data Error : Type 0 where
  unknown_kind name_not_derived : String → Error
  begin_not_found end_not_found end_before_begin : Error

unfoldable pub metric_type : String → Result Error MetricType
metric_type kind =
    if str_eq kind "Int64Counter"
    then ok monotonic_counter
    else if str_eq kind "Float64Gauge"
    then ok gauge
    else if str_eq kind "Int64Gauge"
    then ok gauge
    else if str_eq kind "Int64ObservableGauge"
    then ok gauge
    else err (unknown_kind kind)

-- Go's order of strings, on their bytes.
abbrev pub bytes_lt : List ℕ → List ℕ → Bool
bytes_lt bs [] = false
bytes_lt [] (c ∷ cs) = true
bytes_lt (b ∷ bs) (c ∷ cs) = let rest = bytes_lt bs cs in if b == c then rest else ltb b c

abbrev pub string_lt : String → String → Bool
string_lt a b = bytes_lt (codes a) (codes b)

-- `sort.Slice` by name.
abbrev pub insert_row : InstrumentInfo → List InstrumentInfo → List InstrumentInfo
insert_row x [] = x ∷ []
insert_row x (y ∷ ys) =
    let rest = insert_row x ys in if string_lt y.name x.name then y ∷ rest else x ∷ y ∷ ys

unfoldable pub sort_rows : List InstrumentInfo → List InstrumentInfo
sort_rows [] = []
sort_rows (x ∷ xs) = insert_row x (sort_rows xs)

-- "—" in UTF-8, or the unit in backquotes.
abbrev unit_text : String → List ℕ
unit_text unit = if str_eq unit "" then 226 ∷ 128 ∷ 148 ∷ [] else b'`' ∷ codes unit ++ b'`' ∷ []

-- A line up to its last bar; the texts are ASCII, so that their codes are their bytes.
abbrev pub row_text : InstrumentInfo → String → List ℕ
row_text info prom_name =
    codes "| `"
    ++ codes info.name
    ++ codes "` | "
    ++ codes info.kind
    ++ codes " | "
    ++ unit_text info.unit
    ++ codes " | `"
    ++ codes prom_name
    ++ codes "` | "
    ++ codes info.description

abbrev pub table_header : List ℕ
table_header =
    codes "| OTel name | Kind | Unit | Prometheus name | Description |\n"
    ++ codes "|-----------|------|------|-----------------|-------------|\n"

module _ (build : String → String → MetricType → Option String) where
  unfoldable pub prometheus_name : InstrumentInfo → Result Error String
  unfolding metric_type
  prometheus_name info = do
    mt ← metric_type info.kind
    elim (build info.name info.unit mt) [
      | none ↦ err (name_not_derived info.name)
      | some name ↦ ok name
    ]

  -- One line of the table.
  unfoldable pub render_row : InstrumentInfo → Result Error (List ℕ)
  unfolding prometheus_name
  render_row info = do
    prom_name ← prometheus_name info
    ok (row_text info prom_name ++ codes " |\n")

  unfoldable pub render_rows : List InstrumentInfo → Result Error (List ℕ)
  unfolding render_row
  render_rows [] = ok []
  render_rows (x ∷ xs) = do row ← render_row x; rest ← render_rows xs; ok (row ++ rest)

  unfoldable pub render_table : List InstrumentInfo → Result Error (List ℕ)
  unfolding render_rows sort_rows
  render_table inv = do rows ← render_rows (sort_rows inv); ok (table_header ++ rows)

abbrev pub begin_marker : List ℕ
begin_marker = codes "<!-- BEGIN GENERATED: instruments -->"

abbrev pub end_marker : List ℕ
end_marker = codes "<!-- END GENERATED: instruments -->"

unfoldable pub splice : List ℕ → List ℕ → Result Error (List ℕ)
splice doc table = elim (index begin_marker doc) [
  | none ↦ err begin_not_found
  | some bi ↦ elim (index end_marker doc) [
    | none ↦ err end_not_found
    | some ei ↦
        if ltb ei bi
        then err end_before_begin
        else ok (take (bi + length begin_marker) doc ++ b'\n' ∷ (table ++ drop ei doc))
  ]
]
