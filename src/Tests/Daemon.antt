-- ===== src/Tests/Daemon.antt =====
-- Tests of internal/server and cmd/trimon.
use trimon.Base.{
  ℕ, String, ◌≡◌, refl, true, false, none, some, [], ◌∷◌, ok, str_eq, codes, if◌then◌else◌, All,
  >>=-ok, ◌∙◌,
}
use trimon.Base.Int.{ℤ, pos, eqb_ℤ}
use trimon.Types.Floats.{exact}
use trimon.Types.{HttpConfig}
use trimon.Config.Schema.{Config}
use trimon.Config.Load.{
  Disk, default_global, default_ops, load, parse_sources, parse_ops_file, parse_probe_sources,
  check_ops, preimage, read_probe_dir, read_entries, read_source, is_skipped, non_empty, ext_from,
}
use trimon.Config.Validate.{validate_otlp}
use trimon.Probe.Http.{Exchange, not_done}
use trimon.Probe.Http.Clients.{Clients, Request}
use trimon.Scheduler
use trimon.Server.{healthy, degraded, handle_reload, handle_healthz, write_json}
use trimon.Server.Dump.{probe_dump}
use trimon.Server.ReadBack.{ReadsBack, read_back, dump-ReadsBack}
use trimon.Exporters.Otlp.Transport.{OtlpExporter}
use trimon.Main.{Daemon, Flags, start_up, reload_func, builds, empty_table}
use trimon.Main.Probers.Identified.{HasProber, load-HasProber}
use trimon.Main.Reloads.{Reloads, handle_reload-Reloads}
use trimon.Tests.Config.{
  host, codec, sources, sources_accepted, raw_icmp, icmp_probe, http_probe, icmp_accepted,
}

-- The directory has the two files, and a note.
abbrev pub disk : Disk
disk = record {
  read_file = λ path. some (if str_eq path "core.yaml" then codes "probes:" else []);
  read_dir = λ dir. some (
      record { name = "_global.yaml"; is_dir = false }
      ∷ record { name = "core.yaml"; is_dir = false }
      ∷ record { name = "notes.txt"; is_dir = false }
      ∷ []);
  join = λ dir name. name;
}

-- A directory that cannot be read.
abbrev pub no_disk : Disk
no_disk = record disk { read_dir = λ dir. none }

abbrev pub config : Config
config = record {
  global = default_global;
  exporters = default_ops.exporters;
  server = default_ops.server;
  pipeline = default_ops.pipeline;
  probes = icmp_probe ∷ http_probe ∷ [];
  sha256 = preimage sources;
}

directory_read : read_probe_dir disk "probes" ≡ ok sources
unfolding read_probe_dir read_entries read_source is_skipped non_empty ext_from
directory_read = refl

ops_read : parse_ops_file host codec [] ≡ ok default_ops
unfolding parse_ops_file check_ops validate_otlp
ops_read = refl

parsed : parse_sources host codec [] sources ≡ ok config
unfolding parse_sources
parsed =
    >>=-ok (parse_ops_file host codec []) _ ops_read
    ∙ >>=-ok (parse_probe_sources host codec sources) _ sources_accepted

pub loaded : load host codec disk "trimon.yaml" "probes" ≡ ok config
unfolding load
loaded = >>=-ok (read_probe_dir disk "probes") (parse_sources host codec []) directory_read ∙ parsed

abbrev pub flags : Flags
flags = record { config = "trimon.yaml"; probes = "probes" }

abbrev pub exporter : OtlpExporter ℕ
exporter = record { reader = none; instruments = []; shutdown_timeout = pos 0 }

abbrev pub daemon : Daemon
daemon = record {
  served = some config;
  scheduler = Scheduler.start (builds host) empty_table config.probes;
  config_reloads = 0;
}

pub started :
    start_up host flags (load host codec disk) (λ cfg. ok exporter) (λ addr. none) ≡ ok daemon
unfolding start_up trimon.Server.start
started = rw loaded refl

handle_reload-Reloads_example :
    let out =
      handle_reload {F = ℕ}
        (some (reload_func host (load host codec disk "trimon.yaml" "probes")))
        (record { served = none; scheduler = empty_table; config_reloads = 0 }) in
    Reloads host
      (load host codec disk "trimon.yaml" "probes")
      (record { served = none; scheduler = empty_table; config_reloads = 0 })
      out.0
      out.1
handle_reload-Reloads_example =
    handle_reload-Reloads host codec disk "trimon.yaml" "probes"
      (record { served = none; scheduler = empty_table; config_reloads = 0 })
      (record { same = λ i. refl; count = refl }) refl

-- The names are "gw.example" and the address is "10.0.0.1".
abbrev http_config : HttpConfig
http_config = record {
  scheme = "http";
  port = pos 8080;
  path = "/";
  method = "GET";
  expected_status = pos 0;
  follow_redirects = true;
  tls_expiry_warning_days = pos 0;
}

abbrev refused : ℕ → Request → Exchange
refused slot r = not_done "connection refused" false

-- The three durations of the probe.
abbrev string : ℤ → String
string d =
    if eqb_ℤ d (pos 30_000_000_000)
    then "30s"
    else if eqb_ℤ d (pos 5_000_000_000)
    then "5s"
    else "1s"

abbrev duration : String → ℤ
duration s =
    if str_eq s "30s"
    then pos 30_000_000_000
    else if str_eq s "5s"
    then pos 5_000_000_000
    else pos 1_000_000_000

dump-ReadsBack_example :
    ReadsBack host default_global (read_back duration (probe_dump string icmp_probe)) icmp_probe
dump-ReadsBack_example =
    dump-ReadsBack host string duration raw_icmp default_global icmp_probe icmp_accepted refl refl
      refl

-- At nine tenths of the buffer the health is still good.
healthz_edge :
    (handle_healthz exact (some (record { num = 9; den = 10 })) ≡ write_json 200 healthy)
    × (handle_healthz exact (some (record { num = 91; den = 100 }))
        ≡ write_json 503 (degraded (record { num = 91; den = 100 })))
unfolding handle_healthz
healthz_edge = (refl, refl)

load-HasProber_example : All (HasProber exact host) (icmp_probe ∷ http_probe ∷ [])
load-HasProber_example = load-HasProber exact host codec disk "trimon.yaml" "probes" config loaded
