-- ===== src/Config/Protocols/Blocks.antt =====
-- What a probe's protocol block is known to hold once `validateProtocolConfig` has accepted it.
use trimon.Base.{
  ap, sym, ◌<◌, String, ◌≡◌, refl, ◌∙◌, subst, ◌≢◌, ◌⊎◌, inl, inr, true, Option, none, some, str_eq,
  eq_iff, contains, length, arith, ok, >>=-eq-ok, Bool-cases,
}
use trimon.Base.Int.{ℤ, pos, ◌≤ℤ◌}
use trimon.Net.{Host}
use trimon.Types.{
  HttpConfig, TcpConfig, UdpConfig, DnsConfig, ProbeConfig, probe_type_icmp, probe_type_http,
  probe_type_tcp, probe_type_udp, probe_type_dns, tcp_mode_connect, tcp_mode_syn,
}
use trimon.Config.Schema.{RawHttpConfig, RawTcpConfig, RawUdpConfig, RawDnsConfig, RawProbeConfig}
use trimon.Config.Protocols.{
  validate_http_config, validate_tcp_config, validate_udp_config, validate_dns_config,
  validate_protocol_config, dns_record_types, known_probe_types, http_scheme, http_port,
  http_method, http_status, dns_record_type, http_block, tcp_block, udp_block, dns_block,
}

abbrev pub IsPort : ℤ → Type 0
IsPort p = (pos 1 ≤ℤ p) × (p ≤ℤ pos 65535)

pub record IsValidHttp (c : HttpConfig) : Type 0 where
  pub scheme : (c.scheme ≡ "http") ⊎ (c.scheme ≡ "https")
  pub port : (c.port ≡ pos 0) ⊎ IsPort c.port
  pub method : (c.method ≡ "GET") ⊎ (c.method ≡ "HEAD") ⊎ (c.method ≡ "POST")
  pub status :
      (c.expected_status ≡ pos 0)
      ⊎ ((pos 100 ≤ℤ c.expected_status) × (c.expected_status ≤ℤ pos 599))
  pub warning : pos 0 ≤ℤ c.tls_expiry_warning_days
  pub path : c.path ≢ ""

pub record IsValidTcp (c : TcpConfig) : Type 0 where
  pub port : IsPort c.port
  pub mode : (c.mode ≡ tcp_mode_connect) ⊎ (c.mode ≡ tcp_mode_syn)

pub record IsValidUdp (c : UdpConfig) : Type 0 where
  pub port : IsPort c.port
  pub payload : 0 < length c.expected_response → 0 < length c.payload

pub record IsValidDns (c : DnsConfig) : Type 0 where
  pub record_type : contains dns_record_types c.record_type ≡ true

module _ (host : Host) where
  scheme_cases : (s v : String) → http_scheme host s ≡ ok v → (v ≡ "http") ⊎ (v ≡ "https")
  unfolding http_scheme
  scheme_cases s v h =
      ground (arith, eq_iff (host.to_lower s) "http", eq_iff (host.to_lower s) "https")

  method_cases :
      (s v : String) → http_method host s ≡ ok v → (v ≡ "GET") ⊎ (v ≡ "HEAD") ⊎ (v ≡ "POST")
  unfolding http_method
  method_cases s v h = ground (
    arith,
    eq_iff (host.to_upper s) "GET",
    eq_iff (host.to_upper s) "HEAD",
    eq_iff (host.to_upper s) "POST",
  )

  IsPort-cases : (p v : ℤ) → http_port host p ≡ ok v → (v ≡ pos 0) ⊎ IsPort v
  unfolding http_port
  IsPort-cases p v h = ground arith

  status_cases :
      (s v : ℤ) → http_status host s ≡ ok v → (v ≡ pos 0) ⊎ ((pos 100 ≤ℤ v) × (v ≤ℤ pos 599))
  unfolding http_status
  status_cases s v h = ground arith

  record_type_known :
      (t v : String) → dns_record_type host t ≡ ok v → contains dns_record_types v ≡ true
  unfolding dns_record_type
  record_type_known t v h = elim (Bool-cases (str_eq t "")) [
    | inl e ↦
        let a : "A" ≡ v = ground arith in subst (λ w. contains dns_record_types w ≡ true) a refl
    | inr e ↦ elim (Bool-cases (contains dns_record_types (host.to_upper t))) [
      | inl known ↦
          let a : host.to_upper t ≡ v = ground arith in
          subst (λ w. contains dns_record_types w ≡ true) a known
      | inr unknown ↦ absurd (ground arith)
    ]
  ]

  http-IsValidHttp :
      (r : RawHttpConfig) (c : HttpConfig) → validate_http_config host r ≡ ok c → IsValidHttp c
  unfolding validate_http_config
  http-IsValidHttp r c h = record {
    scheme = ground (arith, scheme_cases r.scheme c.scheme);
    port = ground (arith, IsPort-cases r.port c.port);
    method = ground (arith, method_cases r.method c.method);
    status = ground (arith, status_cases r.expected_status c.expected_status);
    warning = ground arith;
    path = ground (arith, eq_iff r.path "", eq_iff "/" "");
  }

  tcp-IsValidTcp :
      (r : RawTcpConfig) (c : TcpConfig) → validate_tcp_config host r ≡ ok c → IsValidTcp c
  unfolding validate_tcp_config
  tcp-IsValidTcp r c h = ground (arith, eq_iff r.mode tcp_mode_connect, eq_iff r.mode tcp_mode_syn)

  udp-IsValidUdp :
      (r : RawUdpConfig) (c : UdpConfig) → validate_udp_config host r ≡ ok c → IsValidUdp c
  unfolding validate_udp_config
  udp-IsValidUdp r c h = ground arith

  dns-IsValidDns :
      (r : RawDnsConfig) (c : DnsConfig) → validate_dns_config host r ≡ ok c → IsValidDns c
  unfolding validate_dns_config
  dns-IsValidDns r c h = record {
    record_type = ground (arith, record_type_known r.record_type c.record_type);
  }

-- The block of the probe's own type is there and valid.
abbrev pub Has {ℓ} : {A : Type ℓ} → (A → Type 0) → Option A → Type ℓ
Has {A} P o = (a : A) × (o ≡ some a) × P a

pub data HasBlock (pc : ProbeConfig) : Type 0 where
  icmp : pc.type ≡ probe_type_icmp → HasBlock pc
  http : pc.type ≡ probe_type_http → Has IsValidHttp pc.http → HasBlock pc
  tcp : pc.type ≡ probe_type_tcp → Has IsValidTcp pc.tcp → HasBlock pc
  udp : pc.type ≡ probe_type_udp → Has IsValidUdp pc.udp → HasBlock pc
  dns : pc.type ≡ probe_type_dns → Has IsValidDns pc.dns → HasBlock pc

-- The fields that the protocol check leaves alone.
pub record SameBase (a b : ProbeConfig) : Type 0 where
  pub name : b.name ≡ a.name
  pub type : b.type ≡ a.type
  pub targets : b.targets ≡ a.targets
  pub max_resolved_ips : b.max_resolved_ips ≡ a.max_resolved_ips
  pub source_ip : b.source_ip ≡ a.source_ip
  pub interval : b.interval ≡ a.interval
  pub packet_interval : b.packet_interval ≡ a.packet_interval
  pub timeout : b.timeout ≡ a.timeout
  pub count : b.count ≡ a.count
  pub labels : b.labels ≡ a.labels

module _ (host : Host) (pc pc' : ProbeConfig) where
  http_block_ok :
      (o : Option RawHttpConfig)
      → http_block host o pc ≡ ok pc'
      → SameBase pc pc' × Has IsValidHttp pc'.http
  unfolding http_block
  http_block_ok none h = cc
  http_block_ok (some raw) h =
      let (c, e, f) = >>=-eq-ok (validate_http_config host raw) _ h in
      (ground arith, (c, ground arith, http-IsValidHttp host raw c e))

  tcp_block_ok :
      (o : Option RawTcpConfig)
      → tcp_block host o pc ≡ ok pc'
      → SameBase pc pc' × Has IsValidTcp pc'.tcp
  unfolding tcp_block
  tcp_block_ok none h = cc
  tcp_block_ok (some raw) h =
      let (c, e, f) = >>=-eq-ok (validate_tcp_config host raw) _ h in
      (ground arith, (c, ground arith, tcp-IsValidTcp host raw c e))

  udp_block_ok :
      (o : Option RawUdpConfig)
      → udp_block host o pc ≡ ok pc'
      → SameBase pc pc' × Has IsValidUdp pc'.udp
  unfolding udp_block
  udp_block_ok none h = cc
  udp_block_ok (some raw) h =
      let (c, e, f) = >>=-eq-ok (validate_udp_config host raw) _ h in
      (ground arith, (c, ground arith, udp-IsValidUdp host raw c e))

  dns_block_ok :
      (o : Option RawDnsConfig)
      → dns_block host o pc ≡ ok pc'
      → SameBase pc pc' × Has IsValidDns pc'.dns
  unfolding dns_block
  dns_block_ok none h = cc
  dns_block_ok (some raw) h =
      let (c, e, f) = >>=-eq-ok (validate_dns_config host raw) _ h in
      (ground arith, (c, ground arith, dns-IsValidDns host raw c e))

-- An accepted block keeps the rest of the configuration, and is valid for the probe's type.
pub protocol-HasBlock :
    (host : Host) (r : RawProbeConfig) (pc pc' : ProbeConfig)
    → pc.type ≡ r.type
    → contains known_probe_types r.type ≡ true
    → validate_protocol_config host r pc ≡ ok pc'
    → SameBase pc pc' × HasBlock pc'
unfolding validate_protocol_config
protocol-HasBlock host r pc pc' t k h = elim (Bool-cases (str_eq r.type probe_type_icmp)) [
  | inl e ↦
      let same : SameBase pc pc' = ground arith in
      (same, icmp (same.type ∙ t ∙ (eq_iff r.type probe_type_icmp).0 e))
  | inr no_http ↦ elim (Bool-cases (str_eq r.type probe_type_http)) [
    | inl e ↦
        let h' : http_block host r.http pc ≡ ok pc' = ground arith in
        let (same, block) = http_block_ok host pc pc' r.http h' in
        (same, http (same.type ∙ t ∙ (eq_iff r.type probe_type_http).0 e) block)
    | inr no_tcp ↦ elim (Bool-cases (str_eq r.type probe_type_tcp)) [
      | inl e ↦
          let h' : tcp_block host r.tcp pc ≡ ok pc' = ground arith in
          let (same, block) = tcp_block_ok host pc pc' r.tcp h' in
          (same, tcp (same.type ∙ t ∙ (eq_iff r.type probe_type_tcp).0 e) block)
      | inr no_udp ↦ elim (Bool-cases (str_eq r.type probe_type_udp)) [
        | inl e ↦
            let h' : udp_block host r.udp pc ≡ ok pc' = ground arith in
            let (same, block) = udp_block_ok host pc pc' r.udp h' in
            (same, udp (same.type ∙ t ∙ (eq_iff r.type probe_type_udp).0 e) block)
        | inr no_dns ↦ elim (Bool-cases (str_eq r.type probe_type_dns)) [
          | inl e ↦
              let h' : dns_block host r.dns pc ≡ ok pc' = ground arith in
              let (same, block) = dns_block_ok host pc pc' r.dns h' in
              (same, dns (same.type ∙ t ∙ (eq_iff r.type probe_type_dns).0 e) block)
          | inr none_left ↦ absurd (ground arith)
        ]
      ]
    ]
  ]
]

protocol-http :
    (host : Host) (r : RawProbeConfig) (pc : ProbeConfig)
    → r.type ≡ probe_type_http
    → validate_protocol_config host r pc ≡ http_block host r.http pc
unfolding validate_protocol_config
protocol-http host r pc t = rw (t, validate_protocol_config)

http_block-interval :
    (host : Host) (o : Option RawHttpConfig) (pc pc' : ProbeConfig) (v : ℤ)
    → http_block host o pc ≡ ok pc'
    → http_block host o (record pc { interval = v }) ≡ ok (record pc' { interval = v })
unfolding http_block
http_block-interval host none pc pc' v h = cc
http_block-interval host (some raw) pc pc' v h = ground arith

-- The check of an HTTP probe's block takes no notice of the interval.
pub protocol-interval :
    (host : Host) (r r' : RawProbeConfig) (pc pc' : ProbeConfig) (v : ℤ)
    → r.type ≡ probe_type_http
    → r'.type ≡ r.type
    → r'.http ≡ r.http
    → validate_protocol_config host r pc ≡ ok pc'
    → validate_protocol_config host r' (record pc { interval = v })
      ≡ ok (record pc' { interval = v })
protocol-interval host r r' pc pc' v t t' b h =
    protocol-http host r' (record pc { interval = v }) (t' ∙ t)
    ∙ ap (λ o. http_block host o (record pc { interval = v })) b
    ∙ http_block-interval host r.http pc pc' v (sym (protocol-http host r pc t) ∙ h)
