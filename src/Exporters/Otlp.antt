-- ===== src/Exporters/Otlp.antt =====
-- internal/exporter/otlp/otlp.go: what Export and the recorders tell the instruments. The OpenTelemetry
-- SDK is not modelled: a call of an instrument is a value of Reading, and the attributes it is called
-- with are the list the code builds, in which the labels keep the order of their entries.
pub mod Inventory
pub mod Transport
pub mod Security
pub mod Readings
pub mod Rendering
pub mod Totals
pub mod Drops
pub mod Attributes
use trimon.Base.{
  ℕ, String, Bool, true, false, not, Option, none, some, List, [], ◌∷◌, ◌++◌, str_eq, if◌then◌else◌,
}
use trimon.Types.{ProbeResult, Rtt, Labels, is_success, is_up, is_error, measured}
use trimon.Types.Floats.{FloatOps, of_ℕ}
use trimon.Config.Validate.{entries}

-- The instruments of the Exporter record, by the kind of their values.
pub data Counter : Type 0 where
  pkt_sent pkt_received probe_runs probe_errors results_dropped exporter_errors : Counter
  config_reloads : Counter

pub data FloatGauge : Type 0 where
  rtt_min rtt_mean rtt_max rtt_stddev packet_loss http_duration port_open_gauge : FloatGauge

pub data IntGauge : Type 0 where
  success_gauge probe_up : IntGauge

abbrev pub Attrs : Type 0
Attrs = List (String × String)

-- One call of Add or Record.
pub data Reading (F : Type 0) : Type 0 where
  added : Counter → ℕ → Attrs → Reading F
  recorded : FloatGauge → F → Attrs → Reading F
  recorded_int : IntGauge → ℕ → Attrs → Reading F

unfoldable pub build_attrs : {F : Type 0} → ProbeResult F → Attrs
build_attrs r =
    let fixed =
      ("probe.name", r.probe_name)
      ∷ ("probe.type", r.probe_type)
      ∷ ("probe.target", r.target)
      ∷ ("probe.source_ip", r.source_ip)
      ∷ [] in
    let named = if not (str_eq r.fqdn "") then fixed ++ ("probe.fqdn", r.fqdn) ∷ [] else fixed in
    named ++ entries r.labels

module _ {F : Type 0} (fl : FloatOps F) where
  unfoldable pub or_nan : Option F → F
  or_nan none = fl.nan
  or_nan (some x) = x

  unfoldable pub port_open_value : Option Bool → F
  port_open_value none = fl.nan
  port_open_value (some true) = of_ℕ fl 1
  port_open_value (some false) = of_ℕ fl 0

  -- The four variables that start as NaN.
  unfoldable pub rtt_values : Option (Rtt F) → F × F × F × F
  rtt_values none = (fl.nan, fl.nan, fl.nan, fl.nan)
  rtt_values (some t) = (t.min_ms, t.mean_ms, t.max_ms, t.stddev_ms)

  unfoldable pub error_label : String → String
  error_label error_type = if str_eq error_type "" then "unknown" else error_type

  unfoldable pub count_packets : ProbeResult F → List (Reading F)
  unfolding error_label build_attrs
  count_packets r =
      if not (is_error r.status)
      then added pkt_sent r.packets_sent (build_attrs r)
        ∷ added pkt_received r.packets_received (build_attrs r)
        ∷ []
      else added probe_errors 1
          (("probe.name", r.probe_name) ∷ ("error.type", error_label r.error_type) ∷ [])
        ∷ []

  -- `successVal` and `upVal`.
  unfoldable pub status_values : ProbeResult F → ℕ × ℕ
  status_values r =
      if is_up r.status then (if is_success r.status then (1, 1) else (0, 1)) else (0, 0)

  unfoldable pub record_gauges : ProbeResult F → List (Reading F)
  unfolding rtt_values or_nan port_open_value status_values build_attrs measured
  record_gauges r =
      let attrs = build_attrs r in
      let (success_val, up_val) = status_values r in
      let m = measured fl r in
      let (lowest, mean, highest, stddev) = rtt_values m.rtt in
      recorded rtt_min lowest attrs
      ∷ recorded rtt_mean mean attrs
      ∷ recorded rtt_max highest attrs
      ∷ recorded rtt_stddev stddev attrs
      ∷ recorded packet_loss (or_nan m.loss) attrs
      ∷ recorded_int success_gauge success_val attrs
      ∷ recorded_int probe_up up_val attrs
      ∷ recorded http_duration (or_nan m.duration) attrs
      ∷ recorded port_open_gauge (port_open_value m.port_open) attrs
      ∷ []

  unfoldable pub export : ProbeResult F → List (Reading F)
  unfolding count_packets record_gauges
  export r =
      added probe_runs 1 (("probe.name", r.probe_name) ∷ []) ∷ count_packets r ++ record_gauges r

unfoldable pub record_config_reload : {F : Type 0} → Reading F
record_config_reload = added config_reloads 1 []

unfoldable pub record_dropped_result : {F : Type 0} → String → Reading F
record_dropped_result name = added results_dropped 1 (("probe.name", name) ∷ [])

unfoldable pub record_exporter_error : {F : Type 0} → String → Reading F
record_exporter_error name = added exporter_errors 1 (("exporter.name", name) ∷ [])

-- What the callbacks of the two gauges that are read at a scrape observe.
unfoldable pub observe_build_info : String → String → String → ℕ × Attrs
observe_build_info version commit go_version =
    (1, ("version", version) ∷ ("commit", commit) ∷ ("goversion", go_version) ∷ [])

-- The count that the function set by SetGoroutinesGetter gives, if one was set.
unfoldable pub observe_goroutines : Option ℕ → ℕ
observe_goroutines none = 0
observe_goroutines (some count) = count

-- The errors of ForceFlush, which is logged, and of Shutdown.
unfoldable pub close : {E : Type 0} → Option E → Option E → Option E
close flush_error shutdown_error = shutdown_error
