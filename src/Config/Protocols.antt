-- ===== src/Config/Protocols.antt =====
-- internal/config/protocols.go: the block of the probe's own protocol. `Host` gives the case
-- conversions and the check of a host:port.
pub mod Blocks
use trimon.Base.{
  String, Bool, true, not, ◌&&◌, ◌||◌, Option, none, some, List, [], ◌∷◌, str_eq, contains, length,
  ltb, if◌then◌else◌, Result, ok, err, ◌>>=◌, ◌>>◌, refuse_if,
}
use trimon.Base.Int.{ℤ, pos, ltb_ℤ, eqb_ℤ}
use trimon.Net.{Host, is_some}
use trimon.Types.{
  HttpConfig, TcpConfig, UdpConfig, DnsConfig, ProbeConfig, probe_type_icmp, probe_type_http,
  probe_type_tcp, probe_type_udp, probe_type_dns, tcp_mode_connect, tcp_mode_syn,
}
use trimon.Config.Schema.{
  RawHttpConfig, RawTcpConfig, RawUdpConfig, RawDnsConfig, RawProbeConfig, Error, block_required,
  scheme_invalid, method_invalid, mode_invalid, record_type_invalid, resolver_invalid,
  port_out_of_range, status_out_of_range, warning_days_negative, response_without_payload,
}

abbrev pub in_port_range : ℤ → Bool
in_port_range p = not (ltb_ℤ p (pos 1) || ltb_ℤ (pos 65535) p)

-- `knownProbeTypes` of validate.go.
abbrev pub known_probe_types : List String
known_probe_types =
    probe_type_icmp ∷ probe_type_http ∷ probe_type_tcp ∷ probe_type_udp ∷ probe_type_dns ∷ []

abbrev pub dns_record_types : List String
dns_record_types = "A" ∷ "AAAA" ∷ "CNAME" ∷ "MX" ∷ "TXT" ∷ []

-- The checks of the fields of an HTTP block, each with the value that goes into the result.
module _ (host : Host) where
  unfoldable pub http_scheme : String → Result Error String
  http_scheme s = if str_eq s "" then ok "http" else do
    let lower = host.to_lower s
    refuse_if (not (str_eq lower "http") && not (str_eq lower "https")) (scheme_invalid s)
    ok lower

  unfoldable pub http_port : ℤ → Result Error ℤ
  http_port p =
      if eqb_ℤ p (pos 0)
      then ok (pos 0)
      else do refuse_if (not (in_port_range p)) (port_out_of_range p); ok p

  unfoldable pub http_method : String → Result Error String
  http_method m = if str_eq m "" then ok "GET" else do
    let upper = host.to_upper m
    refuse_if (not (str_eq upper "GET") && not (str_eq upper "HEAD") && not (str_eq upper "POST"))
        (method_invalid m)
    ok upper

  unfoldable pub http_status : ℤ → Result Error ℤ
  http_status s =
      if eqb_ℤ s (pos 0)
      then ok (pos 0)
      else do refuse_if (ltb_ℤ s (pos 100) || ltb_ℤ (pos 599) s) (status_out_of_range s); ok s

  unfoldable pub validate_http_config : RawHttpConfig → Result Error HttpConfig
  validate_http_config r = do
    scheme ← http_scheme r.scheme
    port ← http_port r.port
    method ← http_method r.method
    status ← http_status r.expected_status
    refuse_if (ltb_ℤ r.tls_expiry_warning_days (pos 0))
        (warning_days_negative r.tls_expiry_warning_days)
    ok (record {
      scheme = scheme;
      port = port;
      path = if str_eq r.path "" then "/" else r.path;
      method = method;
      expected_status = status;
      follow_redirects = elim r.follow_redirects [ none ↦ true | some b ↦ b ];
      tls_expiry_warning_days = r.tls_expiry_warning_days;
    })

  unfoldable pub validate_tcp_config : RawTcpConfig → Result Error TcpConfig
  validate_tcp_config r = do
    refuse_if (not (in_port_range r.port)) (port_out_of_range r.port)
    let mode = if str_eq r.mode "" then tcp_mode_connect else r.mode
    refuse_if (not (str_eq mode tcp_mode_connect) && not (str_eq mode tcp_mode_syn))
        (mode_invalid r.mode)
    ok (record { port = r.port; mode = mode })

  unfoldable pub validate_udp_config : RawUdpConfig → Result Error UdpConfig
  validate_udp_config r = do
    refuse_if (not (in_port_range r.port)) (port_out_of_range r.port)
    refuse_if (ltb 0 (length r.expected_response) && not (ltb 0 (length r.payload)))
        response_without_payload
    ok (record { port = r.port; payload = r.payload; expected_response = r.expected_response })

  unfoldable pub dns_record_type : String → Result Error String
  dns_record_type t = if str_eq t "" then ok "A" else do
    let upper = host.to_upper t
    refuse_if (not (contains dns_record_types upper)) (record_type_invalid t)
    ok upper

  unfoldable pub validate_dns_config : RawDnsConfig → Result Error DnsConfig
  validate_dns_config r = do
    record_type ← dns_record_type r.record_type
    refuse_if (not (str_eq r.resolver "") && not (is_some (host.resolve_tcp_addr r.resolver)))
        (resolver_invalid r.resolver)
    ok (record {
      record_type = record_type;
      resolver = r.resolver;
      expected_answer = r.expected_answer;
    })

  -- The cases of the switch: a nil pointer is refused, else the block goes into the configuration
  -- that the caller has built.
  unfoldable pub http_block : Option RawHttpConfig → ProbeConfig → Result Error ProbeConfig
  http_block none pc = err (block_required "http")
  http_block (some raw) pc = do cfg ← validate_http_config raw; ok (record pc { http = some cfg })

  unfoldable pub tcp_block : Option RawTcpConfig → ProbeConfig → Result Error ProbeConfig
  tcp_block none pc = err (block_required "tcp")
  tcp_block (some raw) pc = do cfg ← validate_tcp_config raw; ok (record pc { tcp = some cfg })

  unfoldable pub udp_block : Option RawUdpConfig → ProbeConfig → Result Error ProbeConfig
  udp_block none pc = err (block_required "udp")
  udp_block (some raw) pc = do cfg ← validate_udp_config raw; ok (record pc { udp = some cfg })

  unfoldable pub dns_block : Option RawDnsConfig → ProbeConfig → Result Error ProbeConfig
  dns_block none pc = err (block_required "dns")
  dns_block (some raw) pc = do cfg ← validate_dns_config raw; ok (record pc { dns = some cfg })

  unfoldable pub validate_protocol_config : RawProbeConfig → ProbeConfig → Result Error ProbeConfig
  validate_protocol_config r pc =
      if str_eq r.type probe_type_icmp
      then ok pc
      else if str_eq r.type probe_type_http
      then http_block r.http pc
      else if str_eq r.type probe_type_tcp
      then tcp_block r.tcp pc
      else if str_eq r.type probe_type_udp
      then udp_block r.udp pc
      else if str_eq r.type probe_type_dns
      then dns_block r.dns pc
      else ok pc
