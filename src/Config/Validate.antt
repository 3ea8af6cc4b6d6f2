-- ===== src/Config/Validate.antt =====
-- internal/config/validate.go: the checks of the defaults and of each probe, and their merge.
-- A map's entries are visited in the order of its list.
pub mod Budget
pub mod Accepted
pub mod Batch
use trimon.Base.{
  ℕ, ◌+◌, String, Bool, true, false, not, ◌&&◌, ◌||◌, Option, none, some, List, [], ◌∷◌, ◌++◌,
  str_eq, contains, length, leb, codes, ◌==◌, if◌then◌else◌, Result, ok, err, ◌>>=◌, ◌>>◌,
  refuse_if, wrap_err, for_each,
}
use trimon.Base.Int.{ℤ, pos, ltb_ℤ, leb_ℤ, wrap64, ◌*ℤ◌}
use trimon.Net.{Host, Ip, Addr, ip_net, ip_addr, other_addr, ip_equal, contains_any, is_some}
use trimon.Types.{
  ProbeConfig, Labels, probe_type_icmp, probe_type_http, probe_type_tcp, probe_type_udp,
  probe_type_dns,
}
use trimon.Config.Schema.{
  GlobalConfig, OtlpExporterConfig, RawProbeConfig, Error, interval_not_positive,
  packet_interval_short, timeout_not_positive, count_not_positive, packets_exceed_timeout,
  timeout_exceeds_interval, targets_required, dns_name_empty, dns_name_whitespace,
  target_unresolved, target_no_addresses, interfaces_unavailable, source_ip_invalid,
  source_ip_not_local, label_key_invalid, label_value_control, type_required, type_unknown,
  max_resolved_negative, name_required, name_not_unique, protocol_invalid, endpoint_required,
  tls_pair_incomplete, shutdown_not_positive, in_global, in_probe,
}
use trimon.Config.Protocols.{validate_protocol_config, known_probe_types}

-- `time.Millisecond`, in nanoseconds.
abbrev pub millisecond : ℤ
millisecond = pos 1_000_000

-- The product of two int64 wraps.
unfoldable pub validate_timings : ℤ → ℤ → ℤ → ℤ → Result Error (Unit {0})
validate_timings interval packet_interval timeout count = do
  refuse_if (leb_ℤ interval (pos 0)) interval_not_positive
  refuse_if (ltb_ℤ packet_interval millisecond) packet_interval_short
  refuse_if (leb_ℤ timeout (pos 0)) timeout_not_positive
  refuse_if (leb_ℤ count (pos 0)) count_not_positive
  let min_duration = wrap64 (packet_interval *ℤ count)
  refuse_if (leb_ℤ timeout min_duration) (packets_exceed_timeout min_duration timeout)
  refuse_if (leb_ℤ interval timeout) (timeout_exceeds_interval timeout interval)

unfoldable pub validate_global : GlobalConfig → Result Error (Unit {0})
validate_global g =
    wrap_err in_global (validate_timings g.interval g.packet_interval g.timeout g.count)

pub record Timings : Type 0 where
  pub interval : ℤ
  pub packet_interval : ℤ
  pub timeout : ℤ
  pub count : ℤ

abbrev override : Option ℤ → ℤ → ℤ
override none d = d
override (some v) d = v

unfoldable pub merge_timings : RawProbeConfig → GlobalConfig → Timings
merge_timings r g = record {
  interval = override r.interval g.interval;
  packet_interval = override r.packet_interval g.packet_interval;
  timeout = override r.timeout g.timeout;
  count = override r.count g.count;
}

abbrev is_letter : ℕ → Bool
is_letter c = leb b'a' c && leb c b'z' || leb b'A' c && leb c b'Z' || c == b'_'

abbrev is_key_rest : ℕ → Bool
is_key_rest c = is_letter c || leb b'0' c && leb c b'9' || c == b'.' || c == b'-'

abbrev all_key_rest : List ℕ → Bool
all_key_rest [] = true
all_key_rest (c ∷ cs) = is_key_rest c && all_key_rest cs

-- `labelKeyRE`.
abbrev match_label_key : List ℕ → Bool
match_label_key [] = false
match_label_key (c ∷ cs) = is_letter c && all_key_rest cs

abbrev pub entries {ℓ} : {A : Type ℓ} → Option (List A) → List A
entries none = []
entries (some xs) = xs

unfoldable pub validate_label : String × String → Result Error (Unit {0})
validate_label (k, v) = do
  refuse_if (not (match_label_key (codes k))) (label_key_invalid k)
  refuse_if (contains_any v (10 ∷ 13 ∷ 9 ∷ [])) (label_value_control k)

unfoldable pub validate_labels : Labels → Result Error (Unit {0})
unfolding validate_label
validate_labels labels = for_each validate_label (entries labels)

unfoldable pub validate_otlp : OtlpExporterConfig → Result Error (Unit {0})
validate_otlp o = if not o.enabled then ok tt else do
  refuse_if (str_eq o.endpoint "") endpoint_required
  refuse_if (not (str_eq o.protocol "grpc") && not (str_eq o.protocol "http"))
      (protocol_invalid o.protocol)
  refuse_if
      (if str_eq o.tls.cert_file ""
        then not (str_eq o.tls.key_file "")
        else str_eq o.tls.key_file "")
      tls_pair_incomplete
  refuse_if (leb_ℤ o.shutdown_timeout (pos 0)) shutdown_not_positive

unfoldable pub validate_dns_query_name : String → Result Error (Unit {0})
validate_dns_query_name entry = do
  refuse_if (str_eq entry "") dns_name_empty
  refuse_if (contains_any entry (b' ' ∷ 9 ∷ 13 ∷ 10 ∷ [])) (dns_name_whitespace entry)

module _ (host : Host) where
  -- `nil`, the address without bytes, stands for what does not parse.
  abbrev or_nil : Option Ip → Ip
  or_nil none = []
  or_nil (some ip) = ip

  abbrev local_in : String → List Addr → Bool
  local_in ip [] = false
  local_in ip (ip_net v ∷ rest) = ip_equal v (or_nil (host.parse_ip ip)) || local_in ip rest
  local_in ip (ip_addr v ∷ rest) = ip_equal v (or_nil (host.parse_ip ip)) || local_in ip rest
  local_in ip (other_addr ∷ rest) = local_in ip rest

  unfoldable pub is_local_ip : String → Result Error Bool
  is_local_ip ip = elim host.interface_addrs [
    | none ↦ err interfaces_unavailable
    | some addrs ↦ ok (local_in ip addrs)
  ]

  -- The checks of `resolveSourceIP`, on the address that takes precedence.
  unfoldable pub check_source_ip : String → Result Error String
  check_source_ip source_ip = if str_eq source_ip "" then ok "" else do
    refuse_if (not (is_some (host.parse_ip source_ip))) (source_ip_invalid source_ip)
    is_local ← is_local_ip source_ip
    refuse_if (not is_local) (source_ip_not_local source_ip)
    ok source_ip

  unfoldable pub resolve_source_ip : RawProbeConfig → GlobalConfig → Result Error String
  resolve_source_ip r g =
      check_source_ip (if str_eq r.source_ip "" then g.source_ip else r.source_ip)

  unfoldable pub resolvable : String → Option (List String) → Result Error (Unit {0})
  resolvable entry none = err (target_unresolved entry)
  resolvable entry (some []) = err (target_no_addresses entry)
  resolvable entry (some (_ ∷ _)) = ok tt

  unfoldable pub validate_one_target : String → Result Error (Unit {0})
  unfolding resolvable
  validate_one_target entry =
      if is_some (host.parse_ip entry) then ok tt else resolvable entry (host.lookup_host entry)

  unfoldable pub validate_targets : RawProbeConfig → Result Error (Unit {0})
  unfolding validate_one_target validate_dns_query_name
  validate_targets r = do
    refuse_if (length r.targets == 0) targets_required
    if str_eq r.type probe_type_dns
        then for_each validate_dns_query_name r.targets
        else for_each validate_one_target r.targets

  unfoldable pub merge_and_validate_probe : RawProbeConfig → GlobalConfig → Result Error ProbeConfig
  merge_and_validate_probe r g = wrap_err (in_probe r.name) do
    refuse_if (str_eq r.type "") type_required
    refuse_if (not (contains known_probe_types r.type)) (type_unknown r.type)
    validate_targets r
    refuse_if (ltb_ℤ r.max_resolved_ips (pos 0)) max_resolved_negative
    source_ip ← resolve_source_ip r g
    let t = merge_timings r g
    if str_eq r.type probe_type_http
        then ok tt
        else validate_timings t.interval t.packet_interval t.timeout t.count
    validate_labels r.labels
    validate_protocol_config host r (record {
      name = r.name;
      type = r.type;
      targets = r.targets;
      max_resolved_ips = r.max_resolved_ips;
      source_ip = source_ip;
      interval = t.interval;
      packet_interval = t.packet_interval;
      timeout = t.timeout;
      count = t.count;
      labels = r.labels;
      http = none;
      tcp = none;
      udp = none;
      dns = none;
    })

  -- The loop: the index, the names seen and the probes so far.
  unfoldable pub merge_probes_from :
      GlobalConfig
      → ℕ
      → List String
      → List ProbeConfig
      → List RawProbeConfig
      → Result Error (List ProbeConfig)
  merge_probes_from g i seen out [] = ok out
  merge_probes_from g i seen out (r ∷ rs) = do
    refuse_if (str_eq r.name "") (name_required i)
    refuse_if (contains seen r.name) (name_not_unique r.name)
    pc ← merge_and_validate_probe r g
    merge_probes_from g (i + 1) (r.name ∷ seen) (out ++ pc ∷ []) rs

  unfoldable pub merge_and_validate_probes :
      List RawProbeConfig → GlobalConfig → Result Error (List ProbeConfig)
  unfolding merge_probes_from
  merge_and_validate_probes raws g = merge_probes_from g 0 [] [] raws
