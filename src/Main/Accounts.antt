-- ===== src/Main/Accounts.antt =====
-- From the probes to the counters: internal/scheduler, internal/pipeline and internal/exporter/otlp
-- together, over the life of the program.
use trimon.Base.{count_if, ℕ, ◌+◌, ◌≡◌, ap, String, Bool, ◌&&◌, List, ◌++◌, All, arith}
use trimon.Types.{ProbeResult, is_error}
use trimon.Types.Floats.{FloatOps}
use trimon.Pipeline.Fleet.{returned, Fleet, at_start, Steps, IsClean}
use trimon.Pipeline.Fleet.Orders.{Steps-Orderly}
use trimon.Pipeline.Fleet.Named.{Steps-dropped}
use trimon.Exporters.Otlp.{Attrs, Reading, probe_runs, probe_errors, results_dropped}
use trimon.Exporters.Otlp.Readings.{total, has_attr, total-append}
use trimon.Exporters.Otlp.Totals.{export_all, of_name, export_all-runs, export_all-errors}
use trimon.Exporters.Otlp.Drops.{
  drop_calls, drop_calls-runs, drop_calls-errors, drop_calls-drops, export_all-drops,
}

module _ {F : Type 0} (fl : FloatOps F) where
  -- What the instruments got: for each result dispatched, and for each drop. A total does not depend
  -- on how the two are interleaved.
  abbrev pub calls_of : Fleet (ProbeResult F) → List (Reading F)
  calls_of f = export_all fl f.dispatched ++ drop_calls F f.dropped

  module _ (f : Fleet (ProbeResult F)) (name : String) where
    abbrev named : Attrs → Bool
    named = has_attr "probe.name" name

    calls_of-runs : total probe_runs named (calls_of f) ≡ count_if (of_name fl name) f.dispatched
    calls_of-runs = omega (
      arith,
      total-append probe_runs named (export_all fl f.dispatched) (drop_calls F f.dropped),
      export_all-runs fl name f.dispatched,
      drop_calls-runs F named f.dropped,
    )

    calls_of-errors :
        total probe_errors named (calls_of f)
        ≡ count_if (λ r. of_name fl name r && is_error r.status) f.dispatched
    calls_of-errors = omega (
      arith,
      total-append probe_errors named (export_all fl f.dispatched) (drop_calls F f.dropped),
      export_all-errors fl name f.dispatched,
      drop_calls-errors F named f.dropped,
    )

    calls_of-drops :
        All (λ d. d.1.probe_name ≡ d.0) f.dropped
        → total results_dropped named (calls_of f) ≡ count_if (λ d. of_name fl name d.1) f.dropped
    calls_of-drops h = omega (
      arith,
      total-append results_dropped named (export_all fl f.dispatched) (drop_calls F f.dropped),
      export_all-drops fl named f.dispatched,
      drop_calls-drops F (λ r. r.probe_name) name f.dropped h,
    )

  -- When `Run` has returned, in a run where each Run of a probe gave results of its own name, and where,
  -- when main began its last Stop, every goroutine of a probe that had not exited was in the table,
  -- and no probe was started afterwards: under each probe name, the counter of runs and the counter
  -- of dropped results make up the results of that name that the probes tried to send; and the
  -- errors counted under it and the dropped results of it with status error make up those of status
  -- error.
  pub returned-accounts :
      (capacity : ℕ) (f : Fleet (ProbeResult F)) (name : String)
      (steps : Steps (λ r. r.probe_name) (at_start capacity) f)
      → IsClean (λ r. r.probe_name) steps
      → f.phase ≡ returned
      → let named : Attrs → Bool = has_attr "probe.name" name in
        let failed : ProbeResult F → Bool = λ r. of_name fl name r && is_error r.status in
        (total probe_runs named (calls_of f) + total results_dropped named (calls_of f)
          ≡ count_if (of_name fl name) f.tried)
        × (total probe_errors named (calls_of f) + count_if (λ d. failed d.1) f.dropped
            ≡ count_if failed f.tried)
  returned-accounts capacity f name steps clean done =
      let o = Steps-Orderly (λ r. r.probe_name) capacity steps clean in
      let failed : ProbeResult F → Bool = λ r. of_name fl name r && is_error r.status in
      let all = o.complete done in
      (
        omega (
          arith,
          calls_of-runs f name,
          calls_of-drops f name (Steps-dropped (λ r. r.probe_name) capacity steps),
          ap (count_if (of_name fl name)) all,
          o.counted (of_name fl name),
        ),
        omega (arith, calls_of-errors f name, ap (count_if failed) all, o.counted failed),
      )
