-- ===== src/Tests/Exporters.antt =====
-- Tests of internal/exporter.
use trimon.Base.{
  count_if, ℕ, zero, suc, ◌≤◌, ◌≡◌, refl, ◌⊎◌, ◌&&◌, true, false, some, List, [], ◌∷◌, str_eq, ok,
  All, arith,
}
use trimon.Base.Int.{pos}
use trimon.Types.{ProbeResult, is_error, partial, error}
use trimon.Probe.Run
use trimon.Types.Floats.{Frac, exact, exact-FloatLaws}
use trimon.Config.Schema.{OtlpExporterConfig}
use trimon.Probe.Targets.{literal}
use trimon.Probe.Ports.{Answer, state_open, state_unreachable, port_probe}
use trimon.Exporters.Otlp
use trimon.Exporters.Otlp.{FloatGauge, Counter, probe_runs, probe_errors, pkt_sent, pkt_received}
use trimon.Exporters.Otlp.Readings.{total, has_attr, float_values}
use trimon.Exporters.Otlp.Rendering.{ShowsRun, ShowsError, export-port_probe}
use trimon.Exporters.Otlp.Totals.{export_all, export_all-totals}
use trimon.Exporters.Otlp.Transport.{
  Sdk, ClientOption, with_endpoint, with_retry, build_exporter, build_grpc, client_options,
  build_tls_config, load_certificates, load_authorities,
}
use trimon.Exporters.Otlp.Security.{MadeFrom, Secured, build_exporter-Secured}
use trimon.Exporters.Stdout.{Formats, encode, json_record}
use trimon.Exporters.Stdout.Agreement.{number_at, shared, json-agrees}
use trimon.Tests.Config.{icmp_probe}

abbrev answers : ℕ → Answer
answers zero = ok (pos 0, state_unreachable)
answers (suc i) = ok (pos 5_000_000, state_open)

abbrev result : ProbeResult Frac
result = port_probe exact "tcp" 0 icmp_probe (λ i. false) answers (literal "10.0.0.1")

export-port_probe_example :
    ShowsRun exact 4 (Otlp.export exact result) ⊎ ShowsError exact (Otlp.export exact result)
export-port_probe_example =
    export-port_probe exact exact-FloatLaws (λ i. false) answers "tcp" 0 icmp_probe
      (literal "10.0.0.1") 4 refl (omega arith) (omega arith)

abbrev pub plain : ProbeResult Frac
plain = record (Run.blank exact 0 icmp_probe (literal "10.0.0.1") "icmp") {
  packets_sent = 4;
  packets_received = 3;
  status = partial;
}

abbrev broken : ProbeResult Frac
broken = record plain { packets_received = 0; status = error }

export_all-totals_example :
    (total probe_runs (has_attr "probe.name" "gateway") (export_all exact (plain ∷ broken ∷ []))
      ≡ count_if (λ r. str_eq r.probe_name "gateway") (plain ∷ broken ∷ []))
    × (total probe_errors (has_attr "probe.name" "gateway") (export_all exact (plain ∷ broken ∷ []))
        ≡ count_if (λ r. str_eq r.probe_name "gateway" && is_error r.status) (plain ∷ broken ∷ []))
    × (total pkt_received (has_attr "probe.type" "icmp") (export_all exact (plain ∷ broken ∷ []))
        ≤ total pkt_sent (has_attr "probe.type" "icmp") (export_all exact (plain ∷ broken ∷ [])))
export_all-totals_example =
    export_all-totals exact "gateway" (has_attr "probe.type" "icmp") (plain ∷ broken ∷ [])
      (omega arith, (omega arith, tt))

abbrev formats : Formats Frac
formats = record {
  quoted = λ s. s;
  fixed_2 = λ x. "1.00";
  fixed_0 = λ x. "1";
  rfc3339 = λ n. "2026-07-20T00:00:00Z";
}

json-agrees_example :
    All
      (λ (g, k).
        float_values g (Otlp.export exact plain)
        ≡ Otlp.or_nan exact (number_at k (encode (json_record exact formats plain))) ∷ [])
      shared
json-agrees_example = json-agrees exact formats plain

-- Certificates and clients are numbers; every file is there.
abbrev pub sdk : Sdk ℕ ℕ ℕ
sdk = record {
  load_key_pair = λ cert key. some 1;
  read_file = λ path. some (7 ∷ []);
  append_certs = λ bytes. some 2;
  new_grpc = λ opts. some 3;
  new_http = λ opts. some 4;
  has_resource = true;
  has_bridge = true;
  meter = record { creates = λ info. true; registers = λ name. true };
}

abbrev otlp_config : OtlpExporterConfig
otlp_config = record {
  enabled = true;
  endpoint = "collector:4317";
  protocol = "grpc";
  insecure = false;
  tls = record { cert_file = "tls.crt"; key_file = "tls.key"; ca_file = "ca.crt" };
  batch = record { export_interval = pos 30; export_timeout = pos 10 };
  retry = record { enabled = true; max_elapsed_time = pos 300 };
  shutdown_timeout = pos 10;
}

client_built : build_exporter sdk otlp_config ≡ ok 3
unfolding build_exporter build_grpc client_options build_tls_config load_certificates
    load_authorities
client_built = refl

build_exporter-Secured_example :
    (more : List (ClientOption ℕ ℕ)) × MadeFrom sdk otlp_config
      (with_endpoint "collector:4317" ∷ with_retry true (pos 300) ∷ more)
      3
    × Secured sdk otlp_config more
build_exporter-Secured_example = build_exporter-Secured sdk otlp_config 3 client_built

-- With only a CA file, the client gets no TLS option: the file is not read.
ca_file_alone :
    client_options sdk
      (record otlp_config { tls = record { cert_file = ""; key_file = ""; ca_file = "ca.crt" } })
    ≡ ok (with_endpoint "collector:4317" ∷ with_retry true (pos 300) ∷ [])
unfolding client_options
ca_file_alone = refl
