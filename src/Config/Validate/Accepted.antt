-- ===== src/Config/Validate/Accepted.antt =====
-- What is known of a probe that `mergeAndValidateProbe` has accepted: what the probers, the
-- scheduler and the exporters rely on.
pub mod HttpTimings
use trimon.Base.{
  ◌<◌, String, ◌≡◌, refl, ◌∙◌, subst, ◌≢◌, ◌⊎◌, inl, inr, true, false, none, some, List, [], ◌∷◌,
  str_eq, eq_iff, contains, length, codes, arith, ok, All-imp, for_each-All, Option-cases,
  Bool-cases, Result-cases, All,
}
use trimon.Base.Int.{pos, ◌≤ℤ◌, ◌*ℤ◌, IsInt64}
use trimon.Net.{Host, Addr, is_some, contains_any}
use trimon.Types.{ProbeConfig, probe_type_http}
use trimon.Config.Schema.{GlobalConfig, RawProbeConfig}
use trimon.Config.Protocols.{validate_protocol_config, known_probe_types}
use trimon.Config.Protocols.Blocks.{HasBlock, SameBase, protocol-HasBlock}
use trimon.Config.Validate.{
  validate_timings, merge_timings, validate_labels, validate_label, validate_targets,
  resolve_source_ip, is_local_ip, local_in, check_source_ip, merge_and_validate_probe,
  match_label_key, entries,
}
use trimon.Config.Validate.Budget.{FitsBudget, validate_timings_iff}

module _ (host : Host) (r : RawProbeConfig) (g : GlobalConfig) where
  -- The configuration before its protocol block is filled in.
  abbrev pub base : String → ProbeConfig
  base source_ip =
      let t = merge_timings r g in
      record {
        name = r.name;
        type = r.type;
        targets = r.targets;
        max_resolved_ips = r.max_resolved_ips;
        source_ip = source_ip;
        interval = t.interval;
        packet_interval = t.packet_interval;
        timeout = t.timeout;
        count = t.count;
        labels = r.labels;
        http = none;
        tcp = none;
        udp = none;
        dns = none;
      }

  pub record Checks (pc : ProbeConfig) (source_ip : String) : Type 0 where
    pub known : contains known_probe_types r.type ≡ true
    pub targets : validate_targets host r ≡ ok tt
    pub capped : pos 0 ≤ℤ r.max_resolved_ips
    pub source : resolve_source_ip host r g ≡ ok source_ip
    pub timed :
        let t = merge_timings r g in
        str_eq r.type probe_type_http ≡ false
        → validate_timings t.interval t.packet_interval t.timeout t.count ≡ ok tt
    pub labels : validate_labels r.labels ≡ ok tt
    pub protocol : validate_protocol_config host r (base source_ip) ≡ ok pc

  pub merge-Checks :
      (pc : ProbeConfig)
      → merge_and_validate_probe host r g ≡ ok pc
      → (source_ip : String) × Checks pc source_ip
  unfolding merge_and_validate_probe
  merge-Checks pc h = elim (Result-cases (resolve_source_ip host r g)) [
    | inl (s, e) ↦ (s, ground arith)
    | inr (e, f) ↦ absurd (ground arith)
  ]

-- The source address is left to the system, or one of a local interface.
abbrev pub IsLocal : Host → String → Type 0
IsLocal host ip =
    (ip ≡ "")
    ⊎ ((addrs : List Addr) × (host.interface_addrs ≡ some addrs)
        × (local_in host ip addrs ≡ true)
        × (is_some (host.parse_ip ip) ≡ true))

abbrev IsLabel : String × String → Type 0
IsLabel (k, v) =
    (match_label_key (codes k) ≡ true) × (contains_any v (b'\n' ∷ b'\r' ∷ b'\t' ∷ []) ≡ false)

pub record IsValid (host : Host) (pc : ProbeConfig) : Type 0 where
  pub targeted : 0 < length pc.targets
  pub capped : pos 0 ≤ℤ pc.max_resolved_ips
  pub source : IsLocal host pc.source_ip
  pub timed :
      pc.type ≢ probe_type_http
      → IsInt64 (pc.packet_interval *ℤ pc.count)
      → FitsBudget pc.interval pc.packet_interval pc.timeout pc.count
  pub labelled : All IsLabel (entries pc.labels)
  pub block : HasBlock pc

targets_nonempty :
    (host : Host) (r : RawProbeConfig) → validate_targets host r ≡ ok tt → 0 < length r.targets
unfolding validate_targets
targets_nonempty host r h = ground arith

check_source_ip-IsLocal :
    (host : Host) (ip s : String) → check_source_ip host ip ≡ ok s → IsLocal host s
unfolding check_source_ip is_local_ip
check_source_ip-IsLocal host ip s h = elim (Option-cases host.interface_addrs) [
  | inl e ↦ inl (ground arith)
  | inr (addrs, e) ↦ elim (Bool-cases (str_eq ip "")) [
    | inl none_given ↦ inl (ground arith)
    | inr given ↦
        let same : ip ≡ s = ground arith in
        subst (IsLocal host) same (inr (addrs, e, ground arith, ground arith))
  ]
]

validate_label-IsLabel : (kv : String × String) → validate_label kv ≡ ok tt → IsLabel kv
unfolding validate_label
validate_label-IsLabel (k, v) h = ground arith

labels-IsLabel :
    (pc : ProbeConfig) → validate_labels pc.labels ≡ ok tt → All IsLabel (entries pc.labels)
unfolding validate_labels
labels-IsLabel pc h =
    All-imp _ IsLabel validate_label-IsLabel (entries pc.labels)
      (for_each-All validate_label (entries pc.labels) h)

-- The timings of an accepted probe, unless it is an HTTP probe.
budget :
    (host : Host) (r : RawProbeConfig) (g : GlobalConfig) (pc : ProbeConfig) (s : String)
    → Checks host r g pc s
    → SameBase (base host r g s) pc
    → pc.type ≢ probe_type_http
    → let t = merge_timings r g in
      IsInt64 (t.packet_interval *ℤ t.count)
      → FitsBudget t.interval t.packet_interval t.timeout t.count
budget host r g pc s c same t i = elim (Bool-cases (str_eq r.type probe_type_http)) [
  | inl e ↦ absurd (t (same.type ∙ (eq_iff r.type probe_type_http).0 e))
  | inr e ↦
      let m = merge_timings r g in
      (validate_timings_iff m.interval m.packet_interval m.timeout m.count i).0 (c.timed e)
]

-- An accepted probe has a target, a cap that is not negative, a source address that is empty or a
-- parsable address of a local interface, valid labels, the valid block of its type, and, unless it is
-- an HTTP probe or packet_interval * count overflows, timings that fit their budget.
pub merge-IsValid :
    (host : Host) (r : RawProbeConfig) (g : GlobalConfig) (pc : ProbeConfig)
    → merge_and_validate_probe host r g ≡ ok pc
    → IsValid host pc
unfolding resolve_source_ip
merge-IsValid host r g pc h =
    let (s, c) = merge-Checks host r g pc h in
    let (same, block) = protocol-HasBlock host r (base host r g s) pc refl c.known c.protocol in
    record {
      targeted = rw same.targets (targets_nonempty host r c.targets);
      capped = rw same.max_resolved_ips c.capped;
      source = rw same.source_ip (check_source_ip-IsLocal host _ s c.source);
      timed = λ t i.
          rw (same.interval, same.packet_interval, same.timeout, same.count)
            (budget host r g pc s c same t (rw (same.packet_interval, same.count) at i));
      labelled = rw same.labels (labels-IsLabel (base host r g s) c.labels);
      block = block;
    }

pub merge-name :
    (host : Host) (r : RawProbeConfig) (g : GlobalConfig) (pc : ProbeConfig)
    → merge_and_validate_probe host r g ≡ ok pc
    → pc.name ≡ r.name
merge-name host r g pc h =
    let (s, c) = merge-Checks host r g pc h in
    let (same, block) = protocol-HasBlock host r (base host r g s) pc refl c.known c.protocol in
    same.name
