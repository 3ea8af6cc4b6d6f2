-- ===== src/Main.antt =====
-- cmd/trimon/main.go: the start, the factory of probers, and the function that a reload calls. What the
-- configuration files, the exporter and the socket give at that moment are arguments.
pub mod Reloads
pub mod Life
pub mod EarlyReload
pub mod Requests
pub mod Accounts
pub mod Probers
use trimon.Base.{
  ℕ, ◌+◌, String, Bool, true, false, not, Option, none, some, List, [], ◌∷◌, str_eq, if◌then◌else◌,
  Result, ok, err, ◌>>=◌, ◌>>◌, refuse_if, wrap_err,
}
use trimon.Net.{Host}
use trimon.Server
use trimon.Server.{BindError}
use trimon.Types.{
  ProbeConfig, probe_type_icmp, probe_type_tcp, probe_type_udp, probe_type_dns, probe_type_http,
}
use trimon.Config.Schema.{Config, Error}
use trimon.Probe.Http.Clients.{Clients, new}
use trimon.Exporters.Otlp.Transport.{NewError, OtlpExporter}
use trimon.Scheduler
use trimon.Scheduler.{Scheduler}

-- The probers: all but the one for HTTP keep only their configuration.
pub data Prober : Type 0 where
  icmp_prober tcp_prober udp_prober dns_prober : ProbeConfig → Prober
  http_prober : ProbeConfig → Clients → Prober

pub data FactoryError : Type 0 where
  unknown_probe_type : String → FactoryError
  -- A nil pointer in New.
  panicked : Error → FactoryError

unfoldable pub probe_factory : Host → ProbeConfig → Result FactoryError Prober
probe_factory host cfg =
    if str_eq cfg.type probe_type_icmp
    then ok (icmp_prober cfg)
    else if str_eq cfg.type probe_type_tcp
    then ok (tcp_prober cfg)
    else if str_eq cfg.type probe_type_udp
    then ok (udp_prober cfg)
    else if str_eq cfg.type probe_type_dns
    then ok (dns_prober cfg)
    else if str_eq cfg.type probe_type_http
    then (do clients ← wrap_err panicked (new host cfg); ok (http_prober cfg clients))
    else err (unknown_probe_type cfg.type)

abbrev is_ok : {E A : Type 0} → Result E A → Bool
is_ok (ok a) = true
is_ok (err e) = false

-- Whether the scheduler gets a prober.
abbrev pub builds : Host → ProbeConfig → Bool
builds host cfg = is_ok (probe_factory host cfg)

-- The parts that a reload changes: the configuration served, the workers, and the reload counter.
pub record Daemon : Type 0 where
  pub served : Option Config
  pub scheduler : Scheduler
  pub config_reloads : ℕ

-- What `SetReloadFunc` is given, where `loaded` is what `config.Load` returns in that call.
unfoldable pub reload_func : Host → Result Error Config → Daemon → Result Error Config × Daemon
reload_func host (err e) d = (err e, d)
reload_func host (ok cfg) d = (
  ok cfg,
  record {
    served = some cfg;
    scheduler = Scheduler.reload (builds host) d.scheduler cfg.probes;
    config_reloads = d.config_reloads + 1;
  },
)

pub record Flags : Type 0 where
  pub config : String
  pub probes : String

-- The exits of the start: with status 1, or, after `load_failed nil_dereference`, by a panic.
pub data Exit : Type 0 where
  config_flag_required probes_flag_required : Exit
  load_failed : Error → Exit
  exporter_failed : NewError → Exit
  bind_failed : BindError → Exit

abbrev pub empty_table : Scheduler
empty_table = record { workers = []; live = []; next = 0; crashed = false }

-- Up to `srv.Start()`, from which on requests are served; no probe runs yet.
unfoldable pub prepare :
    {Client : Type 0}
    → Flags
    → (String → String → Result Error Config)
    → (Config → Result NewError (OtlpExporter Client))
    → (String → Option String)
    → Result Exit (Config × Daemon)
prepare flags load new_exporter listen = do
  refuse_if (str_eq flags.config "") config_flag_required
  refuse_if (str_eq flags.probes "") probes_flag_required
  cfg ← wrap_err load_failed (load flags.config flags.probes)
  exp ← wrap_err exporter_failed (new_exporter cfg)
  wrap_err bind_failed (Server.start listen cfg.server.listen)
  ok (cfg, record { served = some cfg; scheduler = empty_table; config_reloads = 0 })

-- `sched.Start(cfg.Probes)`.
unfoldable pub start_probes : Host → Config → Daemon → Daemon
start_probes host cfg d = record d {
  scheduler = Scheduler.start (builds host) d.scheduler cfg.probes;
}

-- Up to the log message "trimon started", where no request comes in between.
unfoldable pub start_up :
    {Client : Type 0}
    → Host
    → Flags
    → (String → String → Result Error Config)
    → (Config → Result NewError (OtlpExporter Client))
    → (String → Option String)
    → Result Exit Daemon
unfolding prepare start_probes
start_up host flags load new_exporter listen = do
  (cfg, d) ← prepare flags load new_exporter listen
  ok (start_probes host cfg d)

-- The exporters of the pipeline, by name.
unfoldable pub exporter_names : Config → List String
exporter_names cfg = if cfg.exporters.stdout.enabled then "otlp" ∷ "stdout" ∷ [] else "otlp" ∷ []

-- The levels of log/slog.
pub data Level : Type 0 where
  level_debug level_info level_warn level_error : Level

unfoldable pub logger_level : String → Level
logger_level level =
    if str_eq level "debug"
    then level_debug
    else if str_eq level "warn"
    then level_warn
    else if str_eq level "error"
    then level_error
    else level_info

-- A logger is its handler, which writes to stderr, and its level.
pub data LogHandler : Type 0 where
  text_handler json_handler : Level → LogHandler

unfoldable pub build_logger : String → String → LogHandler
unfolding logger_level
build_logger level format =
    let lvl = logger_level level in
    if str_eq format "text" then text_handler lvl else json_handler lvl

-- What main logs after `pipe.Wait()`, by the errors of the exporter's Close and of the server's Shutdown:
-- neither changes how it exits.
pub data Closing : Type 0 where
  exporter_close_error http_shutdown_error : String → Closing

unfoldable pub closing : Option String → Option String → List Closing
closing none none = []
closing (some e) none = exporter_close_error e ∷ []
closing none (some e) = http_shutdown_error e ∷ []
closing (some e) (some e') = exporter_close_error e ∷ http_shutdown_error e' ∷ []
