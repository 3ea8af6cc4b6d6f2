-- ===== src/Exporters/Otlp/Totals.antt =====
-- The counters over a sequence of results.
use trimon.Base.{
  ◌+◌, ◌≤◌, ◌≡◌, ap₂, ◌∙◌, String, Bool, ◌&&◌, List, [], ◌∷◌, ◌++◌, str_eq, if◌then◌else◌, arith,
  All, count_if,
}
use trimon.Types.{ProbeResult, is_error}
use trimon.Types.Floats.{FloatOps}
use trimon.Exporters.Otlp.{
  Attrs, Reading, probe_runs, probe_errors, pkt_sent, pkt_received, count_packets, record_gauges,
  export,
}
use trimon.Exporters.Otlp.Readings.{total, has_attr, total-append}

module _ {F : Type 0} (fl : FloatOps F) where
  -- The calls of the instruments for results exported one after the other.
  abbrev pub export_all : List (ProbeResult F) → List (Reading F)
  export_all [] = []
  export_all (r ∷ rs) = export fl r ++ export_all rs

  module _ (name : String) (r : ProbeResult F) where
    runs_of :
        total probe_runs (has_attr "probe.name" name) (export fl r)
        ≡ (if str_eq r.probe_name name then 1 else 0)
    unfolding export count_packets record_gauges
    runs_of = ground arith

    errors_of :
        total probe_errors (has_attr "probe.name" name) (export fl r)
        ≡ (if str_eq r.probe_name name && is_error r.status then 1 else 0)
    unfolding export count_packets record_gauges
    errors_of = ground arith

  packets_of :
      (p : Attrs → Bool) (r : ProbeResult F)
      → r.packets_received ≤ r.packets_sent
      → total pkt_received p (export fl r) ≤ total pkt_sent p (export fl r)
  unfolding export count_packets record_gauges
  packets_of p r h = ground arith

  abbrev pub of_name : String → ProbeResult F → Bool
  of_name name r = str_eq r.probe_name name

  pub export_all-runs :
      (name : String) (rs : List (ProbeResult F))
      → total probe_runs (has_attr "probe.name" name) (export_all rs) ≡ count_if (of_name name) rs
  export_all-runs name [] = omega arith
  export_all-runs name (r ∷ rs) =
      total-append probe_runs (has_attr "probe.name" name) (export fl r) (export_all rs)
      ∙ ap₂ (λ x y. x + y) (runs_of name r) (export_all-runs name rs)

  pub export_all-errors :
      (name : String) (rs : List (ProbeResult F))
      → total probe_errors (has_attr "probe.name" name) (export_all rs)
        ≡ count_if (λ r. of_name name r && is_error r.status) rs
  export_all-errors name [] = omega arith
  export_all-errors name (r ∷ rs) =
      total-append probe_errors (has_attr "probe.name" name) (export fl r) (export_all rs)
      ∙ ap₂ (λ x y. x + y) (errors_of name r) (export_all-errors name rs)

  export_all-packets :
      (p : Attrs → Bool) (rs : List (ProbeResult F))
      → All (λ r. r.packets_received ≤ r.packets_sent) rs
      → total pkt_received p (export_all rs) ≤ total pkt_sent p (export_all rs)
  export_all-packets p [] h = omega arith
  export_all-packets p (r ∷ rs) h = omega (
    arith,
    export_all-packets p rs h.1,
    packets_of p r h.0,
    total-append pkt_received p (export fl r) (export_all rs),
    total-append pkt_sent p (export fl r) (export_all rs),
  )

  -- After any sequence of results, whose packets received are at most those sent, the runs counted
  -- under a probe name are its results, the errors counted under it are its results of status
  -- error, and for every test on the attributes the packets received are at most those sent.
  pub export_all-totals :
      (name : String) (p : Attrs → Bool) (rs : List (ProbeResult F))
      → All (λ r. r.packets_received ≤ r.packets_sent) rs
      → (total probe_runs (has_attr "probe.name" name) (export_all rs) ≡ count_if (of_name name) rs)
        × (total probe_errors (has_attr "probe.name" name) (export_all rs)
            ≡ count_if (λ r. of_name name r && is_error r.status) rs)
        × (total pkt_received p (export_all rs) ≤ total pkt_sent p (export_all rs))
  export_all-totals name p rs h =
      (export_all-runs name rs, export_all-errors name rs, export_all-packets p rs h)
