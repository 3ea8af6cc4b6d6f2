-- ===== src/Tests/Config.antt =====
-- Tests of internal/config.
use trimon.Base.{
  ℕ, ◌^◌, ◌*◌, String, ◌≡◌, refl, ◌↔◌, true, Option, none, some, List, [], ◌∷◌, arith, ok, err,
  str_eq, codes, if◌then◌else◌, All, Distinct,
}
use trimon.Base.Int.{pos, ◌*ℤ◌, ◌<ℤ◌, IsInt64, wrap64}
use trimon.Net.{Host, ip_net}
use trimon.Types.{ProbeConfig}
use trimon.Config.Schema.{RawProbeConfig, ProbeSource, nil_dereference}
use trimon.Config.Protocols.{
  validate_protocol_config, http_block, validate_http_config, http_scheme, http_port, http_method,
  http_status,
}
use trimon.Config.Validate.{
  validate_timings, validate_global, merge_timings, validate_labels, validate_label,
  validate_targets, validate_one_target, resolvable, resolve_source_ip, check_source_ip,
  is_local_ip, merge_and_validate_probe, merge_and_validate_probes, merge_probes_from,
}
use trimon.Config.Validate.Budget.{FitsBudget, validate_timings_iff, validate_timings_overflow}
use trimon.Config.Validate.Accepted.{IsValid, merge-IsValid}
use trimon.Config.Validate.Accepted.HttpTimings.{http_interval_unchecked}
use trimon.Config.Validate.Batch.{names}
use trimon.Config.Load.{
  Codec, Fragment, default_global, global_file_name, read_fragments, read_fragment, merge_fragments,
  claim_names, lookup_origin, decoded, dereference, parse_probe_sources,
}
use trimon.Config.Load.Names.{parse_probe_sources-Distinct, raw_names, IsGood}
use trimon.Config.Load.FileRules.{read_fragments_iff, FollowRules, MeetsNullGlobal}
use trimon.Config.Utf8.{bytes, rune}
use trimon.Config.Load.Fingerprint.{preimage-injective}

abbrev if_ip : String → Option (List ℕ)
if_ip s = if str_eq s "10.0.0.1" then some (10 ∷ 0 ∷ 0 ∷ 1 ∷ []) else none

-- 10.0.0.1 is local, and the only text that parses.
abbrev pub host : Host
host = record {
  parse_ip = λ s. if_ip s;
  lookup_host = λ s. some ("192.0.2.7" ∷ []);
  interface_addrs = some (ip_net (10 ∷ 0 ∷ 0 ∷ 1 ∷ []) ∷ []);
  resolve_tcp_addr = λ s. some tt;
  to_lower = λ s. s;
  to_upper = λ s. s;
}

abbrev pub raw_icmp : RawProbeConfig
raw_icmp = record {
  name = "gateway";
  type = "icmp";
  targets = "10.0.0.1" ∷ "gw.example" ∷ [];
  max_resolved_ips = pos 0;
  source_ip = "10.0.0.1";
  interval = none;
  packet_interval = none;
  timeout = none;
  count = some (pos 4);
  labels = some (("site", "north") ∷ []);
  http = none;
  tcp = none;
  udp = none;
  dns = none;
}

abbrev raw_http : RawProbeConfig
raw_http = record raw_icmp {
  name = "web";
  type = "http";
  http = some (record {
    scheme = "";
    port = pos 8080;
    path = "";
    method = "";
    expected_status = pos 0;
    follow_redirects = none;
    tls_expiry_warning_days = pos 0;
  });
}

abbrev pub icmp_probe : ProbeConfig
icmp_probe = record {
  name = "gateway";
  type = "icmp";
  targets = "10.0.0.1" ∷ "gw.example" ∷ [];
  max_resolved_ips = pos 0;
  source_ip = "10.0.0.1";
  interval = pos 30_000_000_000;
  packet_interval = pos 1_000_000_000;
  timeout = pos 5_000_000_000;
  count = pos 4;
  labels = some (("site", "north") ∷ []);
  http = none;
  tcp = none;
  udp = none;
  dns = none;
}

abbrev pub http_probe : ProbeConfig
http_probe = record icmp_probe {
  name = "web";
  type = "http";
  http = some (record {
    scheme = "http";
    port = pos 8080;
    path = "/";
    method = "GET";
    expected_status = pos 0;
    follow_redirects = true;
    tls_expiry_warning_days = pos 0;
  });
}

pub icmp_accepted : merge_and_validate_probe host raw_icmp default_global ≡ ok icmp_probe
unfolding merge_and_validate_probe validate_targets validate_one_target resolvable resolve_source_ip
    check_source_ip is_local_ip merge_timings validate_timings validate_labels validate_label
    validate_protocol_config ◌*ℤ◌ wrap64
icmp_accepted = refl

pub http_accepted : merge_and_validate_probe host raw_http default_global ≡ ok http_probe
unfolding merge_and_validate_probe validate_targets validate_one_target resolvable resolve_source_ip
    check_source_ip is_local_ip merge_timings validate_labels validate_label
    validate_protocol_config http_block validate_http_config http_scheme http_port http_method
    http_status
http_accepted = refl

-- Every file but _global.yaml has the two probes.
abbrev pub codec : Codec
codec = record {
  decode_ops = λ preset bytes. some preset;
  decode_probes = λ preset bytes. some (elim preset.global [
    | none ↦ record { global = none; probes = some (raw_icmp ∷ raw_http ∷ []) }
    | some g ↦ preset
  ]);
  sha256 = λ bytes. bytes;
}

abbrev pub sources : List ProbeSource
sources =
    record { name = "_global.yaml"; content = [] }
    ∷ record { name = "core.yaml"; content = codes "probes:" }
    ∷ []

merged :
    merge_fragments host codec default_global [] []
      (record { file = "core.yaml"; raws = raw_icmp ∷ raw_http ∷ [] } ∷ [])
    ≡ ok (icmp_probe ∷ http_probe ∷ [])
unfolding merge_fragments merge_and_validate_probes merge_probes_from claim_names lookup_origin
merged = simp (icmp_accepted, http_accepted)

pub sources_accepted :
    parse_probe_sources host codec sources ≡ ok (default_global, icmp_probe ∷ http_probe ∷ [])
unfolding parse_probe_sources read_fragments read_fragment decoded dereference validate_global
    validate_timings ◌*ℤ◌ wrap64
sources_accepted = rw merged refl

small_product : IsInt64 (pos 1_000_000_000 *ℤ pos 3)
unfolding ◌*ℤ◌
small_product = omega arith

validate_timings_iff_example :
    (validate_timings (pos 30_000_000_000) (pos 1_000_000_000) (pos 5_000_000_000) (pos 3) ≡ ok tt)
    ↔ FitsBudget (pos 30_000_000_000) (pos 1_000_000_000) (pos 5_000_000_000) (pos 3)
validate_timings_iff_example =
    validate_timings_iff (pos 30_000_000_000) (pos 1_000_000_000) (pos 5_000_000_000) (pos 3)
      small_product

validate_timings_overflow_example :
    (validate_timings (pos 2_000_000_000) (pos (2 ^ 20)) (pos 1_000_000_000) (pos (3 * 2 ^ 44))
      ≡ ok tt)
    × (pos 1_000_000_000 <ℤ pos (2 ^ 20) *ℤ pos (3 * 2 ^ 44))
validate_timings_overflow_example =
    validate_timings_overflow (pos 2_000_000_000) (pos 1_000_000_000) 3 (omega arith) (omega arith)
      (omega arith) (omega arith)

merge-IsValid_example : IsValid host icmp_probe
merge-IsValid_example = merge-IsValid host raw_icmp default_global icmp_probe icmp_accepted

http_interval_unchecked_example :
    merge_and_validate_probe host (record raw_http { interval = some (pos 0) }) default_global
    ≡ ok (record http_probe { interval = pos 0 })
http_interval_unchecked_example =
    http_interval_unchecked host raw_http default_global http_probe (pos 0) refl http_accepted

parse_probe_sources-Distinct_example :
    (fs : List Fragment) × FollowRules host codec default_global [] sources default_global fs
    × (names (icmp_probe ∷ http_probe ∷ []) ≡ raw_names fs)
    × Distinct (names (icmp_probe ∷ http_probe ∷ []))
    × All (IsGood host) (icmp_probe ∷ http_probe ∷ [])
parse_probe_sources-Distinct_example =
    parse_probe_sources-Distinct host codec sources default_global (icmp_probe ∷ http_probe ∷ [])
      sources_accepted

-- A decoder that reads `global:` with no value.
abbrev null_codec : Codec
null_codec = record {
  decode_ops = λ preset bytes. some preset;
  decode_probes = λ preset bytes. some (record { global = none; probes = none });
  sha256 = λ bytes. bytes;
}

abbrev null_sources : List ProbeSource
null_sources = record { name = global_file_name; content = codes "global:" } ∷ sources

read_fragments_iff_example :
    ((read_fragments host null_codec default_global [] null_sources ≡ ok (default_global, []))
      ↔ FollowRules host null_codec default_global [] null_sources default_global [])
    × ((read_fragments host null_codec default_global [] null_sources ≡ err nil_dereference)
        ↔ MeetsNullGlobal host null_codec default_global [] null_sources)
read_fragments_iff_example =
    read_fragments_iff host null_codec default_global default_global [] [] null_sources

read_null : read_fragments host null_codec default_global [] null_sources ≡ err nil_dereference
unfolding read_fragments read_fragment decoded dereference
read_null = refl

bytes_of_name : bytes "é€😀" ≡ 195 ∷ 169 ∷ 226 ∷ 130 ∷ 172 ∷ 240 ∷ 159 ∷ 152 ∷ 128 ∷ []
unfolding bytes rune
bytes_of_name = refl

preimage-injective_example : sources ≡ sources
unfolding bytes rune
preimage-injective_example = preimage-injective sources sources (omega arith) (omega arith) refl
