-- ===== src/Exporters/Otlp/Inventory.antt =====
-- internal/exporter/otlp/otlp.go (registerInstruments) and inventory.go: the instruments are created
-- one after the other through a meter that records what it has created. The SDK's meter is a parameter.
use trimon.Base.{String, Bool, List, [], ◌∷◌, ◌++◌, if◌then◌else◌, Result, ok, err, ◌>>=◌}

pub record InstrumentInfo : Type 0 where
  pub name : String
  pub kind : String
  pub unit : String
  pub description : String

-- The SDK's meter: whether it creates an instrument, and registers the callback of one.
pub record Meter : Type 0 where
  pub creates : InstrumentInfo → Bool
  pub registers : String → Bool

pub data RegisterError : Type 0 where
  not_created not_registered : String → RegisterError

-- One statement of `registerInstruments`.
pub data Setup : Type 0 where
  instrument : InstrumentInfo → Setup
  callback : String → Setup

abbrev gauge : String → String → String → Setup
gauge name unit description =
    instrument
      (record { name = name; kind = "Float64Gauge"; unit = unit; description = description })

abbrev int_gauge : String → String → String → Setup
int_gauge name unit description =
    instrument (record { name = name; kind = "Int64Gauge"; unit = unit; description = description })

abbrev counter : String → String → String → Setup
counter name unit description =
    instrument
      (record { name = name; kind = "Int64Counter"; unit = unit; description = description })

abbrev observable : String → String → String → Setup
observable name unit description =
    instrument (record {
      name = name;
      kind = "Int64ObservableGauge";
      unit = unit;
      description = description;
    })

-- The gauges of a result.
abbrev gauge_setups : List Setup
gauge_setups =
    gauge "trimon.probe.rtt.min" "ms"
      "Minimum ICMP round-trip time over the last probe run; NaN on failure/error and for HTTP probes"
    ∷ gauge "trimon.probe.rtt.mean" "ms"
        "Mean ICMP round-trip time over the last probe run; NaN on failure/error and for HTTP probes"
    ∷ gauge "trimon.probe.rtt.max" "ms"
        "Maximum ICMP round-trip time over the last probe run; NaN on failure/error and for HTTP probes"
    ∷ gauge "trimon.probe.rtt.stddev" "ms"
        "Standard deviation of ICMP round-trip time over the last probe run; NaN on failure/error and for HTTP probes"
    ∷ gauge "trimon.probe.packet_loss" "ratio"
        "Fraction of packets with no reply in the last run; 1.0 on failure, NaN on error"
    ∷ gauge "trimon.probe.duration" "ms"
        "HTTP wall-clock duration from request start to body drain; NaN when no response received or for non-HTTP probes"
    ∷ gauge "trimon.probe.port_open" ""
        "TCP & UDP port reachability; 1 open, 0 closed/no-reply, NaN for other probe types or error"
    ∷ int_gauge "trimon.probe.success" "" "1 only when status=success (all packets replied), else 0"
    ∷ int_gauge "trimon.probe.up" "" "1 when status=success or partial (at least one reply), else 0"
    ∷ []

-- The counters of a result, and those of the program itself.
abbrev counter_setups : List Setup
counter_setups =
    counter "trimon.probe.packets_sent" "{packets}"
      "Packets sent per probe run; not incremented on error"
    ∷ counter "trimon.probe.packets_received" "{packets}"
        "Packets received per probe run; not incremented on error"
    ∷ counter "trimon.probe.runs" "{runs}" "Total probe runs, labelled by probe.name"
    ∷ counter "trimon.probe.errors" "{errors}"
        "Total probe errors, labelled by probe.name and error.type"
    ∷ counter "trimon.probe.results_dropped" "{results}"
        "Results dropped when the pipeline buffer is full, labelled by probe.name"
    ∷ counter "trimon.exporter.errors" "{errors}"
        "Exporter failures to ship a result, labelled by exporter.name"
    ∷ counter "trimon.config.reloads" "{reloads}" "Total configuration reloads"
    ∷ []

-- The gauges that are read at a scrape.
abbrev observable_setups : List Setup
observable_setups =
    observable "trimon.build.info" ""
      "Build metadata as labels (version, commit, goversion); value is always 1"
    ∷ callback "trimon.build.info"
    ∷ observable "trimon.scheduler.goroutines" "{goroutines}"
        "Live scheduler goroutine count, observed on each scrape"
    ∷ callback "trimon.scheduler.goroutines"
    ∷ []

abbrev pub setups : List Setup
setups = gauge_setups ++ counter_setups ++ observable_setups

module _ (meter : Meter) where
  -- A constructor of `recordingMeter`.
  unfoldable pub create :
      List InstrumentInfo → InstrumentInfo → Result RegisterError (List InstrumentInfo)
  create inv info =
      if meter.creates info then ok (inv ++ info ∷ []) else err (not_created info.name)

  unfoldable pub set_up : List InstrumentInfo → Setup → Result RegisterError (List InstrumentInfo)
  unfolding create
  set_up inv (instrument info) = create inv info
  set_up inv (callback name) = if meter.registers name then ok inv else err (not_registered name)

  unfoldable pub set_up_all :
      List InstrumentInfo → List Setup → Result RegisterError (List InstrumentInfo)
  unfolding set_up
  set_up_all inv [] = ok inv
  set_up_all inv (s ∷ ss) = do inv' ← set_up inv s; set_up_all inv' ss

  unfoldable pub register_instruments : Result RegisterError (List InstrumentInfo)
  unfolding set_up_all
  register_instruments = set_up_all [] setups
