-- ===== src/Exporters/Otlp/Transport.antt =====
-- internal/exporter/otlp/otlp.go: New and the OTLP transport. The SDK, crypto/tls and the files are
-- parameters: what they answer, `none` for an error.
use trimon.Base.{
  ℕ, String, Bool, not, Option, none, some, List, [], ◌∷◌, ◌++◌, str_eq, if◌then◌else◌, Result, ok,
  err, ◌>>=◌, ◌>>◌, refuse_if, wrap_err,
}
use trimon.Base.Int.{ℤ}
use trimon.Config.Schema.{OtlpExporterConfig, OtlpTlsConfig}
use trimon.Exporters.Otlp.Inventory.{InstrumentInfo, Meter, RegisterError, register_instruments}

-- `tls.VersionTLS12`.
abbrev pub version_tls12 : ℕ
version_tls12 = 771

-- Certificates and pools of certificates are opaque.
module _ (Certificate Pool : Type 0) where
  pub record TlsConfig : Type 0 where
    pub min_version : ℕ
    pub certificates : List Certificate
    pub root_cas : Option Pool

  pub data ClientOption : Type 0 where
    with_endpoint : String → ClientOption
    with_retry : Bool → ℤ → ClientOption
    with_insecure : ClientOption
    with_tls : TlsConfig → ClientOption

  -- What the code calls: the key pair and the authorities on the disk, the clients of the SDK, its
  -- resource, the Prometheus bridge, and the meter of its provider.
  pub record Sdk (Client : Type 0) : Type 0 where
    pub load_key_pair : String → String → Option Certificate
    pub read_file : String → Option (List ℕ)
    pub append_certs : List ℕ → Option Pool
    pub new_grpc : List ClientOption → Option Client
    pub new_http : List ClientOption → Option Client
    pub has_resource : Bool
    pub has_bridge : Bool
    pub meter : Meter

pub data NewError : Type 0 where
  unsupported_protocol : String → NewError
  key_pair_invalid ca_unreadable ca_empty : String → NewError
  client_refused no_resource no_bridge : NewError
  building_otlp : NewError → NewError
  registering : RegisterError → NewError

-- The periodic reader of the collector's client.
pub record Reader (Client : Type 0) : Type 0 where
  pub client : Client
  pub interval : ℤ
  pub timeout : ℤ

-- `reader` is the OTLP reader; the Prometheus bridge is always there.
pub record OtlpExporter (Client : Type 0) : Type 0 where
  pub reader : Option (Reader Client)
  pub instruments : List InstrumentInfo
  pub shutdown_timeout : ℤ

module _ {Certificate Pool Client : Type 0} (sdk : Sdk Certificate Pool Client) where
  unfoldable pub load_certificates : OtlpTlsConfig → Result NewError (List Certificate)
  load_certificates tls =
      if not (str_eq tls.cert_file "")
      then elim (sdk.load_key_pair tls.cert_file tls.key_file) [
        | none ↦ err (key_pair_invalid tls.cert_file)
        | some cert ↦ ok (cert ∷ [])
      ]
      else ok []

  unfoldable pub load_authorities : OtlpTlsConfig → Result NewError (Option Pool)
  load_authorities tls =
      if not (str_eq tls.ca_file "")
      then elim (sdk.read_file tls.ca_file) [
        | none ↦ err (ca_unreadable tls.ca_file)
        | some ca ↦ elim (sdk.append_certs ca) [
          | none ↦ err (ca_empty tls.ca_file)
          | some pool ↦ ok (some pool)
        ]
      ]
      else ok none

  unfoldable pub build_tls_config : OtlpTlsConfig → Result NewError (TlsConfig Certificate Pool)
  unfolding load_certificates load_authorities
  build_tls_config tls = do
    certs ← load_certificates tls
    roots ← load_authorities tls
    ok (record { min_version = version_tls12; certificates = certs; root_cas = roots })

  -- The options that `buildGRPC` and `buildHTTP` collect, in the same way.
  unfoldable pub client_options :
      OtlpExporterConfig → Result NewError (List (ClientOption Certificate Pool))
  unfolding build_tls_config
  client_options cfg =
      let opts =
        with_endpoint cfg.endpoint ∷ with_retry cfg.retry.enabled cfg.retry.max_elapsed_time ∷ [] in
      if cfg.insecure
      then ok (opts ++ with_insecure ∷ [])
      else if not (str_eq cfg.tls.cert_file "")
      then (do tls ← build_tls_config cfg.tls; ok (opts ++ with_tls tls ∷ []))
      else ok opts

  abbrev or_refused : Option Client → Result NewError Client
  or_refused none = err client_refused
  or_refused (some client) = ok client

  unfoldable pub build_grpc : OtlpExporterConfig → Result NewError Client
  unfolding client_options
  build_grpc cfg = do opts ← client_options cfg; or_refused (sdk.new_grpc opts)

  unfoldable pub build_http : OtlpExporterConfig → Result NewError Client
  unfolding client_options
  build_http cfg = do opts ← client_options cfg; or_refused (sdk.new_http opts)

  unfoldable pub build_exporter : OtlpExporterConfig → Result NewError Client
  unfolding build_grpc build_http
  build_exporter cfg =
      if str_eq cfg.protocol "grpc"
      then build_grpc cfg
      else if str_eq cfg.protocol "http"
      then build_http cfg
      else err (unsupported_protocol cfg.protocol)

  unfoldable pub build_reader : OtlpExporterConfig → Result NewError (Option (Reader Client))
  unfolding build_exporter
  build_reader cfg =
      if cfg.enabled
      then (do
        client ← wrap_err building_otlp (build_exporter cfg)
        ok (
            some (record {
              client = client;
              interval = cfg.batch.export_interval;
              timeout = cfg.batch.export_timeout;
            })))
      else ok none

  unfoldable pub new : OtlpExporterConfig → Result NewError (OtlpExporter Client)
  unfolding build_reader
  new cfg = do
    refuse_if (not sdk.has_resource) no_resource
    refuse_if (not sdk.has_bridge) no_bridge
    reader ← build_reader cfg
    instruments ← wrap_err registering (register_instruments sdk.meter)
    ok (record {
      reader = reader;
      instruments = instruments;
      shutdown_timeout = cfg.shutdown_timeout;
    })
