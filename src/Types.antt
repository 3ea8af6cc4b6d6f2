-- ===== src/Types.antt =====
-- pkg/types/types.go: statuses, the merged probe configuration, and the result of a probe run.
-- A Go `map[string]string` is its list of entries, `none` for the nil map; a pointer is an `Option`.
-- `int` and `time.Duration` are integers; the counters of a result are never negative.
pub mod Floats
use trimon.Base.{
  ℕ, String, Bool, true, false, Option, none, some, List, ◌==◌, ltb, not, ◌&&◌, if◌then◌else◌,
  str_eq,
}
use trimon.Base.Int.{ℤ}
use Floats.{FloatOps, of_ℕ}

-- `unset` is the empty string, the zero value of the Go type.
pub data Status : Type 0 where
  unset success partial failure error : Status

abbrev pub is_success : Status → Bool
is_success success = true
is_success _ = false

abbrev pub is_up : Status → Bool
is_up success = true
is_up partial = true
is_up _ = false

abbrev pub is_error : Status → Bool
is_error error = true
is_error _ = false

abbrev pub probe_type_icmp : String
probe_type_icmp = "icmp"

abbrev pub probe_type_tcp : String
probe_type_tcp = "tcp"

abbrev pub probe_type_udp : String
probe_type_udp = "udp"

abbrev pub probe_type_dns : String
probe_type_dns = "dns"

abbrev pub probe_type_http : String
probe_type_http = "http"

pub record HttpConfig : Type 0 where
  pub scheme : String
  pub port : ℤ
  pub path : String
  pub method : String
  pub expected_status : ℤ
  pub follow_redirects : Bool
  pub tls_expiry_warning_days : ℤ

abbrev pub tcp_mode_connect : String
tcp_mode_connect = "connect"

abbrev pub tcp_mode_syn : String
tcp_mode_syn = "syn"

pub record TcpConfig : Type 0 where
  pub port : ℤ
  pub mode : String

-- The payload and the expected response are bytes.
pub record UdpConfig : Type 0 where
  pub port : ℤ
  pub payload : List ℕ
  pub expected_response : List ℕ

pub record DnsConfig : Type 0 where
  pub record_type : String
  pub resolver : String
  pub expected_answer : List String

abbrev pub Labels : Type 0
Labels = Option (List (String × String))

pub record ProbeConfig : Type 0 where
  pub name : String
  pub type : String
  pub targets : List String
  pub max_resolved_ips : ℤ
  pub source_ip : String
  pub interval : ℤ
  pub packet_interval : ℤ
  pub timeout : ℤ
  pub count : ℤ
  pub labels : Labels
  pub http : Option HttpConfig
  pub tcp : Option TcpConfig
  pub udp : Option UdpConfig
  pub dns : Option DnsConfig

-- `F` is Go's float64; the time stamp counts nanoseconds.
pub record ProbeResult (F : Type 0) : Type 0 where
  pub timestamp : ℕ
  pub probe_name : String
  pub target : String
  pub fqdn : String
  pub source_ip : String
  pub probe_type : String
  pub packets_sent : ℕ
  pub packets_received : ℕ
  pub rtt_min_ms : F
  pub rtt_mean_ms : F
  pub rtt_max_ms : F
  pub rtt_stddev_ms : F
  pub duration_ms : F
  pub packet_loss_ratio : F
  pub port_open : Option Bool
  pub status : Status
  pub error_msg : String
  pub error_type : String
  pub labels : Labels

pub record Rtt (F : Type 0) : Type 0 where
  pub min_ms : F
  pub mean_ms : F
  pub max_ms : F
  pub stddev_ms : F

pub record Measured (F : Type 0) : Type 0 where
  pub rtt : Option (Rtt F)
  pub loss : Option F
  pub duration : Option F
  pub port_open : Option Bool

abbrev is_http : {F : Type 0} → ProbeResult F → Bool
is_http r = str_eq r.probe_type probe_type_http

unfoldable pub measured : {F : Type 0} → FloatOps F → ProbeResult F → Measured F
measured fl r = record {
  rtt =
      if not (is_http r) && ltb 0 r.packets_received
      then some (record {
        min_ms = r.rtt_min_ms;
        mean_ms = r.rtt_mean_ms;
        max_ms = r.rtt_max_ms;
        stddev_ms = r.rtt_stddev_ms;
      })
      else none;
  loss = if not (is_error r.status) then some r.packet_loss_ratio else none;
  duration = if is_http r && fl.lt (of_ℕ fl 0) r.duration_ms then some r.duration_ms else none;
  port_open = r.port_open;
}
