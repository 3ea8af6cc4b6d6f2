-- ===== src/GenMetricsDocs.antt =====
-- cmd/gen-metrics-docs/main.go. An absolute path is the list of its elements, the last one first, and
-- the root is the empty list. The files are a function of their paths.
pub mod Root
pub mod Rerun
use trimon.Base.{
  ℕ, zero, suc, String, Bool, true, false, ◌&&◌, Option, none, some, List, [], ◌∷◌, length, str_eq,
  if◌then◌else◌, Result, ok, err, ◌>>=◌, ◌>>◌, refuse_if, wrap_err, not,
}
use trimon.Base.Int.{pos}
use trimon.Net.{is_some}
use trimon.Config.Schema.{OtlpExporterConfig}
use trimon.Exporters.Otlp.Transport
use trimon.Exporters.Otlp.Transport.{Sdk, NewError}
use trimon.MetricsDoc
use trimon.MetricsDoc.{MetricType, render_table, splice}

abbrev pub FilePath : Type 0
FilePath = List String

abbrev pub Files : Type 0
Files = FilePath → Option (List ℕ)

-- `filepath.Dir`.
abbrev pub parent : FilePath → FilePath
parent [] = []
parent (d ∷ ds) = ds

abbrev pub path_eq : FilePath → FilePath → Bool
path_eq [] [] = true
path_eq (d ∷ ds) (e ∷ es) = str_eq d e && path_eq ds es
path_eq _ _ = false

pub data DocsError : Type 0 where
  -- `out_of_fuel` is no error of the program.
  out_of_fuel go_mod_not_found no_working_directory unreadable unwritable : DocsError
  building : NewError → DocsError
  rendering splicing : MetricsDoc.Error → DocsError

-- The loop of `moduleRoot`, where `stat` tells whether a file is there.
unfoldable pub walk : (FilePath → Bool) → ℕ → FilePath → Result DocsError FilePath
walk stat zero dir = err out_of_fuel
walk stat (suc n) dir =
    let rest = walk stat n (parent dir) in
    if stat ("go.mod" ∷ dir)
    then ok dir
    else if path_eq (parent dir) dir
    then err go_mod_not_found
    else rest

unfoldable pub module_root : Files → Option FilePath → Result DocsError FilePath
unfolding walk
module_root files none = err no_working_directory
module_root files (some wd) = walk (λ path. is_some (files path)) (suc (length wd)) wd

abbrev pub doc_path : FilePath → FilePath
doc_path root = "metrics.md" ∷ "docs" ∷ root

abbrev pub write : Files → FilePath → List ℕ → Files
write files path bytes = λ q. if path_eq q path then some bytes else files q

-- `config.OTLPExporterConfig{Enabled: false}`.
abbrev pub disabled : OtlpExporterConfig
disabled = record {
  enabled = false;
  endpoint = "";
  protocol = "";
  insecure = false;
  tls = record { cert_file = ""; key_file = ""; ca_file = "" };
  batch = record { export_interval = pos 0; export_timeout = pos 0 };
  retry = record { enabled = false; max_elapsed_time = pos 0 };
  shutdown_timeout = pos 0;
}

module _ {Certificate Pool Client : Type 0} (sdk : Sdk Certificate Pool Client)
    (build : String → String → MetricType → Option String) where
  -- The table that the exporter's instruments make.
  unfoldable pub build_table : Result DocsError (List ℕ)
  build_table = do
    exp ← wrap_err building (Transport.new sdk disabled)
    wrap_err rendering (render_table build exp.instruments)

  unfoldable pub read_doc : Files → FilePath → Result DocsError (List ℕ)
  read_doc files path = elim (files path) [ none ↦ err unreadable | some doc ↦ ok doc ]

  -- `writable` is whether WriteFile succeeds.
  unfoldable pub run : Option FilePath → Bool → Files → Result DocsError Files
  unfolding build_table read_doc
  run wd writable files = do
    root ← module_root files wd
    table ← build_table
    doc ← read_doc files (doc_path root)
    out ← wrap_err splicing (splice doc table)
    refuse_if (not writable) unwritable
    ok (write files (doc_path root) out)
