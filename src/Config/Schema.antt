-- ===== src/Config/Schema.antt =====
-- internal/config/schema.go: the shapes of the two YAML inputs, decoded; a pointer is an `Option`.
-- The errors of the package stand here too, one constructor for each message.
use trimon.Base.{ℕ, String, Bool, Option, List}
use trimon.Base.Int.{ℤ}
use trimon.Types.{ProbeConfig, Labels}

pub record GlobalConfig : Type 0 where
  pub interval : ℤ
  pub packet_interval : ℤ
  pub timeout : ℤ
  pub count : ℤ
  pub source_ip : String

pub record StdoutExporterConfig : Type 0 where
  pub enabled : Bool
  pub format : String

pub record OtlpTlsConfig : Type 0 where
  pub cert_file : String
  pub key_file : String
  pub ca_file : String

pub record OtlpBatchConfig : Type 0 where
  pub export_interval : ℤ
  pub export_timeout : ℤ

pub record OtlpRetryConfig : Type 0 where
  pub enabled : Bool
  pub max_elapsed_time : ℤ

pub record OtlpExporterConfig : Type 0 where
  pub enabled : Bool
  pub endpoint : String
  pub protocol : String
  pub insecure : Bool
  pub tls : OtlpTlsConfig
  pub batch : OtlpBatchConfig
  pub retry : OtlpRetryConfig
  pub shutdown_timeout : ℤ

pub record ExportersConfig : Type 0 where
  pub stdout : StdoutExporterConfig
  pub otlp : OtlpExporterConfig

pub record ServerConfig : Type 0 where
  pub listen : String

pub record PipelineConfig : Type 0 where
  pub buffer_size : ℤ

pub record RawHttpConfig : Type 0 where
  pub scheme : String
  pub port : ℤ
  pub path : String
  pub method : String
  pub expected_status : ℤ
  pub follow_redirects : Option Bool
  pub tls_expiry_warning_days : ℤ

pub record RawTcpConfig : Type 0 where
  pub port : ℤ
  pub mode : String

-- The payload and the expected response are bytes.
pub record RawUdpConfig : Type 0 where
  pub port : ℤ
  pub payload : List ℕ
  pub expected_response : List ℕ

pub record RawDnsConfig : Type 0 where
  pub record_type : String
  pub resolver : String
  pub expected_answer : List String

pub record RawProbeConfig : Type 0 where
  pub name : String
  pub type : String
  pub targets : List String
  pub max_resolved_ips : ℤ
  pub source_ip : String
  pub interval : Option ℤ
  pub packet_interval : Option ℤ
  pub timeout : Option ℤ
  pub count : Option ℤ
  pub labels : Labels
  pub http : Option RawHttpConfig
  pub tcp : Option RawTcpConfig
  pub udp : Option RawUdpConfig
  pub dns : Option RawDnsConfig

-- `none` is the nil slice: no `probes:` key.
pub record RawProbeFile : Type 0 where
  pub global : Option GlobalConfig
  pub probes : Option (List RawProbeConfig)

pub record RawOpsFile : Type 0 where
  pub exporters : ExportersConfig
  pub server : ServerConfig
  pub pipeline : PipelineConfig

-- `probeSource`, its data as bytes.
pub record ProbeSource : Type 0 where
  pub name : String
  pub content : List ℕ

pub record Config : Type 0 where
  pub global : GlobalConfig
  pub exporters : ExportersConfig
  pub server : ServerConfig
  pub pipeline : PipelineConfig
  pub probes : List ProbeConfig
  pub sha256 : List ℕ

pub data Error : Type 0 where
  interval_not_positive packet_interval_short timeout_not_positive count_not_positive : Error
  packets_exceed_timeout timeout_exceeds_interval : ℤ → ℤ → Error
  targets_required dns_name_empty : Error
  dns_name_whitespace target_unresolved target_no_addresses : String → Error
  interfaces_unavailable : Error
  source_ip_invalid source_ip_not_local : String → Error
  label_key_invalid label_value_control : String → Error
  block_required : String → Error
  scheme_invalid method_invalid mode_invalid record_type_invalid resolver_invalid : String → Error
  port_out_of_range status_out_of_range warning_days_negative : ℤ → Error
  response_without_payload : Error
  type_required : Error
  type_unknown : String → Error
  max_resolved_negative : Error
  name_required : ℕ → Error
  name_not_unique : String → Error
  name_in_both : String → String → String → Error
  probes_in_global global_outside : String → Error
  yaml_invalid : Error
  dir_unreadable no_yaml_files : Error
  file_unreadable : String → Error
  format_invalid protocol_invalid : String → Error
  endpoint_required tls_pair_incomplete shutdown_not_positive buffer_not_positive : Error
  -- A dereference of a nil pointer, where Go panics instead of returning an error.
  nil_dereference : Error
  -- The prefixes "global.", "probe %q: " and the file name.
  in_global : Error → Error
  in_probe in_file : String → Error → Error
