-- ===== src/Exporters/Otlp/Drops.antt =====
-- RecordDroppedResult of internal/exporter/otlp/otlp.go, over the results that a probe could not send.
use trimon.Base.{
  ◌+◌, ◌≡◌, ap₂, sym, ◌∙◌, String, Bool, List, [], ◌∷◌, str_eq, if◌then◌else◌, arith, All, count_if,
}
use trimon.Types.{ProbeResult}
use trimon.Types.Floats.{FloatOps}
use trimon.Exporters.Otlp.{
  Attrs, Reading, probe_runs, probe_errors, results_dropped, count_packets, record_gauges,
  record_dropped_result, export,
}
use trimon.Exporters.Otlp.Readings.{total, has_attr, total-append}
use trimon.Exporters.Otlp.Totals.{export_all}

module _ (F : Type 0) where
  -- The recorder's calls for the drops, each under the name that the scheduler gives it.
  abbrev pub drop_calls : {R : Type 0} → List (String × R) → List (Reading F)
  drop_calls [] = []
  drop_calls (d ∷ ds) = record_dropped_result d.0 ∷ drop_calls ds

  module _ {R : Type 0} where
    pub drop_calls-runs :
        (p : Attrs → Bool) (ds : List (String × R)) → total probe_runs p (drop_calls ds) ≡ 0
    unfolding record_dropped_result
    drop_calls-runs p [] = omega arith
    drop_calls-runs p (d ∷ ds) = omega (arith, drop_calls-runs p ds)

    pub drop_calls-errors :
        (p : Attrs → Bool) (ds : List (String × R)) → total probe_errors p (drop_calls ds) ≡ 0
    unfolding record_dropped_result
    drop_calls-errors p [] = omega arith
    drop_calls-errors p (d ∷ ds) = omega (arith, drop_calls-errors p ds)

    pub drop_calls-drops :
        (owner : R → String) (name : String) (ds : List (String × R))
        → All (λ d. owner d.1 ≡ d.0) ds
        → total results_dropped (has_attr "probe.name" name) (drop_calls ds)
          ≡ count_if (λ d. str_eq (owner d.1) name) ds
    unfolding record_dropped_result
    drop_calls-drops owner name [] h = omega arith
    drop_calls-drops owner name (d ∷ ds) h =
        ap₂ (λ s n. (if str_eq s name then 1 else 0) + n) (sym h.0)
          (drop_calls-drops owner name ds h.1)

module _ {F : Type 0} (fl : FloatOps F) where
  no_drop : (p : Attrs → Bool) (r : ProbeResult F) → total results_dropped p (export fl r) ≡ 0
  unfolding export count_packets record_gauges
  no_drop p r = ground arith

  pub export_all-drops :
      (p : Attrs → Bool) (rs : List (ProbeResult F))
      → total results_dropped p (export_all fl rs) ≡ 0
  export_all-drops p [] = omega arith
  export_all-drops p (r ∷ rs) =
      total-append results_dropped p (export fl r) (export_all fl rs)
      ∙ ap₂ (λ x y. x + y) (no_drop p r) (export_all-drops p rs)
