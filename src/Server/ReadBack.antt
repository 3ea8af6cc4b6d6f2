-- ===== src/Server/ReadBack.antt =====
-- The dump of a probe, fed back as a probe of a configuration file, as the comment above ConfigDump
-- describes. `duration` is what the decoder makes of the text of a duration.
use trimon.Base.{
  ◌≡◌, refl, sym, ap, ap₂, ◌∙◌, ◌⊎◌, inl, inr, ◌≢◌, subst, String, true, false, none, some, str_eq,
  eq_iff, arith, ok, err, Result, wrap_err, Bool-cases, contains, if◌then◌else◌,
}
use trimon.Base.Int.{ℤ, pos, ltb_ℤ}
use trimon.Net.{Host}
use trimon.Types.{
  ProbeConfig, probe_type_icmp, probe_type_http, probe_type_tcp, probe_type_udp, probe_type_dns,
}
use trimon.Config.Schema.{GlobalConfig, RawProbeConfig, Error, in_probe, block_required}
use trimon.Config.Protocols.{
  validate_protocol_config, http_block, tcp_block, udp_block, dns_block, known_probe_types,
}
use trimon.Config.Protocols.Blocks.{protocol-HasBlock}
use trimon.Config.Validate.{
  merge_and_validate_probe, resolve_source_ip, check_source_ip, validate_targets, validate_labels,
  merge_timings, entries,
}
use trimon.Config.Validate.Accepted.{base, Checks, merge-Checks}
use trimon.Server.Dump.{ProbeDump, probe_dump}

-- The YAML keys of the dump are those of a raw probe; it has no key for the block of a protocol.
abbrev pub read_back : (String → ℤ) → ProbeDump → RawProbeConfig
read_back duration d = record {
  name = d.name;
  type = d.type;
  targets = d.targets;
  max_resolved_ips = d.max_resolved_ips;
  source_ip = d.source_ip;
  interval = some (duration d.interval);
  packet_interval = some (duration d.packet_interval);
  timeout = some (duration d.timeout);
  count = some d.count;
  labels = some d.labels;
  http = none;
  tcp = none;
  udp = none;
  dns = none;
}

chosen_again :
    (a b s : String) → s ≡ (if str_eq a "" then b else a) → (if str_eq s "" then b else s) ≡ s
chosen_again a b s h = ground (arith, eq_iff a "", eq_iff s "", h)

module _ (host : Host) (r : RawProbeConfig) (g : GlobalConfig) where
  -- The raw probe whose values are those that were merged.
  abbrev again : String → RawProbeConfig
  again source_ip =
      let t = merge_timings r g in
      record {
        name = r.name;
        type = r.type;
        targets = r.targets;
        max_resolved_ips = r.max_resolved_ips;
        source_ip = source_ip;
        interval = some t.interval;
        packet_interval = some t.packet_interval;
        timeout = some t.timeout;
        count = some t.count;
        labels = some (entries r.labels);
        http = none;
        tcp = none;
        udp = none;
        dns = none;
      }

  check_source_ip-same : (x s : String) → check_source_ip host x ≡ ok s → s ≡ x
  unfolding check_source_ip
  check_source_ip-same x s h = ground (arith, eq_iff x "")

  again-source :
      (s : String) → resolve_source_ip host r g ≡ ok s → resolve_source_ip host (again s) g ≡ ok s
  unfolding resolve_source_ip
  again-source s h =
      let same = check_source_ip-same _ s h in
      ap (check_source_ip host) (chosen_again r.source_ip g.source_ip s same)
      ∙ (ap (check_source_ip host) same ∙ h)

  named : (type : String) → contains known_probe_types type ≡ true → str_eq type "" ≡ false
  named type h = elim (Bool-cases (str_eq type "")) [
    | inr e ↦ e
    | inl e ↦
        let same = (eq_iff type "").0 e in
        absurd
          (let f : false ≡ true = subst (λ x. contains known_probe_types x ≡ true) same h in cc)
  ]

  again-merge :
      (pc : ProbeConfig) (s : String)
      → Checks host r g pc s
      → merge_and_validate_probe host (again s) g
        ≡ wrap_err (in_probe r.name) (
            validate_protocol_config host
              (again s)
              (record (base host r g s) { labels = some (entries r.labels) }))
  unfolding merge_and_validate_probe validate_labels validate_targets merge_timings
  again-merge pc s c =
      let targets : validate_targets host (again s) ≡ ok tt = c.targets in
      let source = again-source s c.source in
      let labels : validate_labels (some (entries r.labels)) ≡ ok tt = c.labels in
      let given : str_eq r.type "" ≡ false = named r.type c.known in
      let capped : ltb_ℤ r.max_resolved_ips (pos 0) ≡ false =
        let h = c.capped in ground (arith, h) in
      elim (Bool-cases (str_eq r.type probe_type_http)) [
        | inl http ↦ rw (given, c.known, targets, capped, source, http, labels) refl
        | inr other ↦
            rw (given, c.known, targets, capped, source, other, c.timed other, labels) refl
      ]

-- What becomes of an accepted probe whose dump is read back.
abbrev pub ReadsBack : Host → GlobalConfig → RawProbeConfig → ProbeConfig → Type 0
ReadsBack host g again pc =
    ((pc.type ≡ probe_type_icmp)
      × (merge_and_validate_probe host again g
          ≡ ok (record pc { labels = some (entries pc.labels) })))
    ⊎ ((pc.type ≢ probe_type_icmp)
        × (merge_and_validate_probe host again g ≡ err (in_probe pc.name (block_required pc.type))))

abbrev required : String → Result Error ProbeConfig
required type = err (block_required type)

-- A probe without a block, and one of a type that needs it.
without_block :
    (host : Host) (r : RawProbeConfig) (pc : ProbeConfig)
    → contains known_probe_types r.type ≡ true
    → r.http ≡ none
    → r.tcp ≡ none
    → r.udp ≡ none
    → r.dns ≡ none
    → ((r.type ≡ probe_type_icmp) × (validate_protocol_config host r pc ≡ ok pc))
      ⊎ ((r.type ≢ probe_type_icmp)
          × (validate_protocol_config host r pc ≡ err (block_required r.type)))
unfolding validate_protocol_config http_block tcp_block udp_block dns_block
without_block host r pc k h t u d = elim (Bool-cases (str_eq r.type probe_type_icmp)) [
  | inl e ↦ inl ((eq_iff r.type probe_type_icmp).0 e, rw e refl)
  | inr no_icmp ↦
      let other : r.type ≢ probe_type_icmp = λ q. ground (arith, eq_iff r.type probe_type_icmp) in
      elim (Bool-cases (str_eq r.type probe_type_http)) [
        | inl e ↦
            inr
              (other, rw (no_icmp, e, h) (ap required (sym ((eq_iff r.type probe_type_http).0 e))))
        | inr no_http ↦ elim (Bool-cases (str_eq r.type probe_type_tcp)) [
          | inl e ↦ inr (
            other,
            rw (no_icmp, no_http, e, t) (ap required (sym ((eq_iff r.type probe_type_tcp).0 e))),
          )
          | inr no_tcp ↦ elim (Bool-cases (str_eq r.type probe_type_udp)) [
            | inl e ↦ inr (
              other,
              rw (no_icmp, no_http, no_tcp, e, u)
                  (ap required (sym ((eq_iff r.type probe_type_udp).0 e))),
            )
            | inr no_udp ↦ elim (Bool-cases (str_eq r.type probe_type_dns)) [
              | inl e ↦ inr (
                other,
                rw (no_icmp, no_http, no_tcp, no_udp, e, d)
                    (ap required (sym ((eq_iff r.type probe_type_dns).0 e))),
              )
              | inr no_dns ↦ absurd (ground arith)
            ]
          ]
        ]
      ]
]

icmp_unchanged :
    (host : Host) (r : RawProbeConfig) (b pc : ProbeConfig)
    → r.type ≡ probe_type_icmp
    → validate_protocol_config host r b ≡ ok pc
    → b ≡ pc
unfolding validate_protocol_config
icmp_unchanged host r b pc t h =
    let e : str_eq r.type probe_type_icmp ≡ true = (eq_iff r.type probe_type_icmp).1 t in
    ground arith

module _ (host : Host) (string : ℤ → String) (duration : String → ℤ) where
  -- A probe that was accepted under the same global defaults, when its dump is read back as a
  -- probe of a file and the texts of its durations are read as those durations: an ICMP probe is
  -- accepted again, as the same probe with the same labels; one of any other type is refused, since the
  -- block of its type is required and the dump has none.
  pub dump-ReadsBack :
      (r : RawProbeConfig) (g : GlobalConfig) (pc : ProbeConfig)
      → merge_and_validate_probe host r g ≡ ok pc
      → duration (string pc.interval) ≡ pc.interval
      → duration (string pc.packet_interval) ≡ pc.packet_interval
      → duration (string pc.timeout) ≡ pc.timeout
      → ReadsBack host g (read_back duration (probe_dump string pc)) pc
  unfolding probe_dump
  dump-ReadsBack r g pc h d1 d2 d3 =
      let (s, c) = merge-Checks host r g pc h in
      let (same, block) = protocol-HasBlock host r (base host r g s) pc refl c.known c.protocol in
      let e : read_back duration (probe_dump string pc) ≡ again host r g s =
        rw
          (
            d1, d2, d3, same.name, same.type, same.targets, same.max_resolved_ips, same.source_ip,
            same.interval, same.packet_interval, same.timeout, same.count, same.labels,
          )
          refl in
      let back = record (base host r g s) { labels = some (entries r.labels) } in
      let merged = again-merge host r g pc s c in
      rw e (elim (without_block host (again host r g s) back c.known refl refl refl refl) [
        | inl (t, v) ↦
            let b = icmp_unchanged host r (base host r g s) pc t c.protocol in
            inl (
              same.type ∙ t,
              merged
                  ∙ (ap (wrap_err (in_probe r.name)) v
                      ∙ ap {A = ProbeConfig}
                          (λ x. ok (record x { labels = some (entries x.labels) })) b),
            )
        | inr (n, v) ↦ inr (
          λ q. n (sym same.type ∙ q),
          merged
              ∙ (ap (wrap_err (in_probe r.name)) v
                  ∙ ap₂ (λ x y. err (in_probe x (block_required y))) (sym same.name)
                      (sym same.type)),
        )
      ])
