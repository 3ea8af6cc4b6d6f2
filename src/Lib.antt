-- ===== src/Lib.antt =====
-- trimon: a push-based monitor of IP targets (Go). Each probe runs on its own schedule, its results go
-- through one buffered channel to the exporters, and an HTTP server shows and reloads the configuration.
--
-- The parts and the files that model them:
--   internal/config     Config.antt and below: Schema (schema.go), Validate (validate.go), Protocols
--                       (protocols.go), Load (config.go), Utf8 (the bytes of a file name). `load` is Load,
--                       `parse_sources` parseSources.
--   pkg/types           Types.antt: ProbeConfig, ProbeResult, Status and Measured.
--   internal/probe      Probe.antt and below: Targets (targets.go, and RunWorkItems of run.go), Stats
--                       (stats.go), Run (run.go: NewResult, StatusFromLoss, RunLoop).
--   internal/probe/tcp  Probe/Tcp.antt (tcp.go), Probe/Tcp/Segment.antt and Probe/Tcp/Syn.antt (syn.go).
--   internal/probe/udp  Probe/Udp.antt; Probe/Ports.antt is what udp.go and tcp.go have in common.
--                       `Run` of a protocol is `run` of its file (Probe/Http/Clients.antt for HTTP), on
--                       `run_work_items`; Probe/Runs.antt, Probe/Icmp/Runs.antt, Probe/Http/Runs.antt
--                       and Probe/Dns/Names.antt are about whole runs.
--   internal/probe/dns, internal/probe/http, internal/probe/icmp
--                       Probe/Dns.antt, Probe/Http.antt, Probe/Icmp.antt.
--   internal/pipeline, internal/scheduler
--                       Scheduler.antt (Start, Stop and Reload on the table), Pipeline.antt (the channel,
--                       the send of startLocked, dispatch), and Pipeline/Fleet.antt: the goroutines
--                       of the probes, Stop, Run and the end of main as a step relation.
--   internal/exporter   Exporters/Otlp.antt (Export and the recorders of otlp.go), Exporters/Otlp/Inventory.antt
--                       (registerInstruments and inventory.go), Exporters/Otlp/Transport.antt (New,
--                       buildExporter and TLS), Exporters/Stdout.antt (stdout.go).
--   internal/server     Server.antt (the handlers), Server/Dump.antt (toConfigDump), Server/Routes.antt (New,
--                       the setters, and the handler of a request).
--   cmd/trimon          Main.antt: the start, probeFactory, the function of SetReloadFunc; Main/Requests.antt:
--                       the server as main wires it, and a sequence of requests at it.
--   internal/metricsdoc, cmd/gen-metrics-docs
--                       MetricsDoc.antt and MetricsDoc/Search.antt (strings.Index), GenMetricsDocs.antt.
--   Go's net package    Net.antt: addresses as bytes, and the host's answers as the record Host.
--
-- A Go error is the `err` of a Result, with one constructor for each message; a nil pointer is `none`,
-- and a dereference of one is the error `nil_dereference`, where Go panics. `int` and `time.Duration`
-- are integers (Base/Int.antt), and a product or sum that may overflow is wrapped to an int64. float64
-- is a type parameter with the operations of Types/Floats.antt and the facts of IEEE 754 listed there and
-- in Types/Floats/Order.antt. What the SDK makes of attributes is a parameter of
-- Exporters/Otlp/Attributes.antt, with the last value of a key as the one kept.
-- Parameters: the YAML decoder, SHA-256, name lookup, the interface list, the parsing of addresses and
-- the case conversions of strings. The host answers alike throughout one load.
-- In internal/probe an error message keeps only its text before the arguments. An attempt and the
-- state of the context are given by the number of the round, and what sockets do by records. The
-- goroutines of one run are the order in which they end, each writing its own slot. The loop over
-- attempts recurs on the rounds left, so it needs no fuel; the folding of a checksum recurs on Acc.
--
-- The scheduler's select, Stop, Run and the shutdown of main are steps in any order, which covers each
-- interleaving. Each goroutine of a probe has its place in its loop, and a note of who holds its cancel
-- function and done channel: the table, a Stop, or nobody. A Stop waits only for what it took from the
-- table. A reload may start probes at any time, also after the shutdown. A send that panics is no step.
-- A panic in a handler is caught by net/http: it is the body `aborted`, with no status. One in the
-- goroutine of a probe ends the program: `crashed` of Scheduler.antt.
-- A reload goes from Server.antt (the handler) through Main.antt (the function it is given) to
-- Config/Load.antt and Scheduler.antt; a result goes from a probe through Pipeline.antt to an exporter,
-- where Export is a list of calls of instruments, or what is written. The OpenTelemetry SDK, the
-- translator of metric names, crypto/tls, the formats of durations, numbers and times and the YAML
-- encoder are parameters. The search for go.mod has as many rounds as the path has elements, and one
-- more, and paths are lists of elements.
-- http.ServeMux is a parameter with what net/http documents of its patterns.
-- Not modelled: the socket of the HTTP server, log output and signals, which only call
-- libraries.
pub mod Base
pub mod Types
pub mod Net
pub mod Config
pub mod Probe
pub mod Exporters
pub mod Pipeline
pub mod Scheduler
pub mod Server
pub mod MetricsDoc
pub mod GenMetricsDocs
pub mod Main
pub mod Tests
