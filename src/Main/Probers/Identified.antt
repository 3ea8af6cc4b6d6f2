-- ===== src/Main/Probers/Identified.antt =====
-- The probers of a configuration that was loaded: what their runs report, and under which names.
use trimon.Base.{
  suc, ◌≡◌, refl, ap, ap₂, ◌∙◌, sym, subst, String, false, some, List, [], ◌∷◌, map, length, str_eq,
  if◌then◌else◌, ok, All, All-imp,
}
use trimon.Net.{Host}
use trimon.Types.{
  TcpConfig, UdpConfig, DnsConfig, HttpConfig, ProbeConfig, ProbeResult, probe_type_icmp,
  probe_type_tcp, probe_type_udp, probe_type_dns, probe_type_http,
}
use trimon.Types.Floats.{FloatOps}
use trimon.Config.Schema.{Config}
use trimon.Config.Load.{Codec, Disk, load}
use trimon.Config.Load.Names.{IsGood}
use trimon.Config.Protocols.Blocks.{HasBlock}
use trimon.Probe.Targets.{WorkItem, literal, expand_targets}
use trimon.Probe.Targets.Slots.{IsComplete}
use trimon.Probe.Run.Identity.{identity, identity_of}
use trimon.Probe.Tcp.{run as tcp_run}
use trimon.Probe.Udp.{run as udp_run}
use trimon.Probe.Dns.{run as dns_run}
use trimon.Probe.Runs.{tcp_run-identity, udp_run-identity}
use trimon.Probe.Icmp.Runs.{run-identity as icmp_run-identity}
use trimon.Probe.Dns.Identified.{run-identity as dns_run-identity}
use trimon.Probe.Http.Runs.{run-slots}
use trimon.Probe.Http.Clients.{Clients, new, run as http_run}
use trimon.Probe.Http.Clients.Served.{new-IsServed}
use trimon.Main.{
  Prober, icmp_prober, tcp_prober, udp_prober, dns_prober, http_prober, probe_factory,
}
use trimon.Main.Reloads.{load-IsLoaded}
use trimon.Main.Probers.{Surroundings, config_of, prober_name, prober_type, with_block, run_prober}

-- What a run probes: the names themselves for DNS, and else the addresses that they have then.
abbrev pub items_of : Host → ProbeConfig → List WorkItem
items_of host pc =
    if str_eq pc.type probe_type_dns
    then map literal pc.targets
    else expand_targets host pc.targets pc.max_resolved_ips

module _ {F : Type 0} (fl : FloatOps F) where
  -- A run reports one result for each item, in their order, each with the name, the type, the source address
  -- and the labels of the probe, and the address and the name of its item.
  pub record Reports (pc : ProbeConfig) (p : Prober) (s : Surroundings F) : Type 0 where
    pub out : List (ProbeResult F)
    pub runs : run_prober fl s p ≡ some out
    pub identified : map identity out ≡ map (identity_of pc.type pc) (items_of s.host pc)

  pub record HasProber (host : Host) (pc : ProbeConfig) : Type 0 where
    pub prober : Prober
    pub made : probe_factory host pc ≡ ok prober
    pub name : prober_name prober ≡ pc.name
    pub type : prober_type prober ≡ pc.type
    pub reports :
        (s : Surroundings F)
        → IsComplete (length (items_of s.host pc)) s.order
        → Reports pc prober s

  -- The factory, for a type that it knows.
  factory-makes :
      (host : Host) (pc : ProbeConfig)
      → ((pc.type ≡ probe_type_icmp) → probe_factory host pc ≡ ok (icmp_prober pc))
        × ((pc.type ≡ probe_type_tcp) → probe_factory host pc ≡ ok (tcp_prober pc))
        × ((pc.type ≡ probe_type_udp) → probe_factory host pc ≡ ok (udp_prober pc))
        × ((pc.type ≡ probe_type_dns) → probe_factory host pc ≡ ok (dns_prober pc))
  unfolding probe_factory
  factory-makes host pc = (λ t. rw t refl, λ t. rw t refl, λ t. rw t refl, λ t. rw t refl)

  factory-makes_http :
      (host : Host) (pc : ProbeConfig) (clients : Clients)
      → new host pc ≡ ok clients
      → pc.type ≡ probe_type_http
      → probe_factory host pc ≡ ok (http_prober pc clients)
  unfolding probe_factory
  factory-makes_http host pc clients f t =
      let is = λ (x : String). ap (λ type. str_eq type x) t in
      rw
        (
          is probe_type_icmp,
          is probe_type_tcp,
          is probe_type_udp,
          is probe_type_dns,
          is probe_type_http,
          f,
        )
        refl

  module _ (s : Surroundings F) (pc : ProbeConfig) where
    tcp_runs :
        (tcp : TcpConfig)
        → pc.tcp ≡ some tcp
        → run_prober fl s (tcp_prober pc)
          ≡ some (tcp_run s.host fl s.zero_result s.now pc tcp s.is_done s.nets s.order)
    unfolding run_prober
    tcp_runs tcp e =
        ap
          (with_block
            (λ block. tcp_run s.host fl s.zero_result s.now pc block s.is_done s.nets s.order))
          e

    udp_runs :
        (udp : UdpConfig)
        → pc.udp ≡ some udp
        → run_prober fl s (udp_prober pc)
          ≡ some (udp_run fl s.host s.zero_result s.now pc udp s.is_done s.sockets s.order)
    unfolding run_prober
    udp_runs udp e =
        ap
          (with_block
            (λ block. udp_run fl s.host s.zero_result s.now pc block s.is_done s.sockets s.order))
          e

    dns_runs :
        (dns : DnsConfig)
        → pc.dns ≡ some dns
        → run_prober fl s (dns_prober pc)
          ≡ some (
              dns_run fl s.types s.texts s.zero_result s.now pc dns s.is_done s.exchanges s.system
                s.order)
    unfolding run_prober
    dns_runs dns e =
        ap
          (with_block (λ block.
            dns_run fl s.types s.texts s.zero_result s.now pc block s.is_done s.exchanges s.system
              s.order))
          e

    http_runs :
        (clients : Clients) (hcfg : HttpConfig)
        → pc.http ≡ some hcfg
        → run_prober fl s (http_prober pc clients)
          ≡ some (http_run s.itoa fl s.zero_result s.now pc hcfg clients s.perform s.host s.order)
    unfolding run_prober
    http_runs clients hcfg e =
        ap
          (with_block (λ block.
            http_run s.itoa fl s.zero_result s.now pc block clients s.perform s.host s.order))
          e

  module _ (host : Host) (pc : ProbeConfig) where
    -- A run whose results are those of a type other than DNS.
    addressed :
        (p : Prober) (s : Surroundings F) (type : String) (out : List (ProbeResult F))
        → pc.type ≡ type
        → str_eq type probe_type_dns ≡ false
        → IsComplete (length (items_of s.host pc)) s.order
        → run_prober fl s p ≡ some out
        → (IsComplete (length (expand_targets s.host pc.targets pc.max_resolved_ips)) s.order
            → map identity out
              ≡ map (identity_of type pc) (expand_targets s.host pc.targets pc.max_resolved_ips))
        → Reports pc p s
    addressed p s type out t n c r i =
        let items = expand_targets s.host pc.targets pc.max_resolved_ips in
        let at : String → List WorkItem =
          λ x. if str_eq x probe_type_dns then map literal pc.targets else items in
        let same : items_of s.host pc ≡ items =
          ap at t ∙ ap (λ b. if b then map literal pc.targets else items) n in
        record {
          out = out;
          runs = r;
          identified =
              i (subst (λ is. IsComplete (length is) s.order) same c)
              ∙ ap₂ (λ x is. map (identity_of x pc) is) (sym t) (sym same);
        }

    map-literal :
        (names : List String)
        → map (λ n. identity_of "dns" pc (literal n)) names
          ≡ map (identity_of "dns" pc) (map literal names)
    map-literal [] = refl
    map-literal (n ∷ ns) = ap (◌∷◌ (identity_of "dns" pc (literal n))) (map-literal ns)

    dns-HasProber :
        pc.type ≡ probe_type_dns → (dns : DnsConfig) → pc.dns ≡ some dns → HasProber host pc
    unfolding prober_name prober_type config_of run_prober
    dns-HasProber t dns e = record {
      prober = dns_prober pc;
      made = (factory-makes host pc).3 t;
      name = refl;
      type = sym t;
      reports = λ s c.
          let at : String → List WorkItem = λ x.
            if str_eq x probe_type_dns
            then map literal pc.targets
            else expand_targets s.host pc.targets pc.max_resolved_ips in
          let same : items_of s.host pc ≡ map literal pc.targets = ap at t in
          let slots : length (map literal pc.targets) ≡ length pc.targets =
            length-literal pc.targets in
          record {
            out = _;
            runs = dns_runs s pc dns e;
            identified =
                dns_run-identity fl s.types s.texts pc dns s.now s.is_done s.exchanges s.zero_result
                  s.system s.order (subst (λ n. IsComplete n s.order) (ap length same ∙ slots) c)
                ∙ (map-literal pc.targets
                    ∙ ap₂ (λ x is. map (identity_of x pc) is) (sym t) (sym same));
          };
    }
      where
        length-literal : (names : List String) → length (map literal names) ≡ length names
        length-literal [] = refl
        length-literal (n ∷ ns) = ap suc (length-literal ns)

    http-HasProber :
        pc.type ≡ probe_type_http → (hcfg : HttpConfig) → pc.http ≡ some hcfg → HasProber host pc
    unfolding prober_name prober_type config_of run_prober
    http-HasProber t hcfg e =
        let (clients, f, served) = new-IsServed host pc hcfg e in
        record {
          prober = http_prober pc clients;
          made = factory-makes_http host pc clients f t;
          name = refl;
          type = sym t;
          reports = λ s c.
              addressed (http_prober pc clients) s probe_type_http _ t refl c
                (http_runs s pc clients hcfg e)
                (λ k.
                  (run-slots fl s.host s.itoa pc hcfg s.zero_result s.now s.perform s.order clients
                    k).0);
        }

    HasBlock-HasProber : HasBlock pc → HasProber host pc
    unfolding prober_name prober_type config_of run_prober
    HasBlock-HasProber (HasBlock.icmp t) = record {
      prober = icmp_prober pc;
      made = (factory-makes host pc).0 t;
      name = refl;
      type = sym t;
      reports = λ s c.
          addressed (icmp_prober pc) s probe_type_icmp _ t refl c refl
            (icmp_run-identity fl s.host s.zero_result s.now pc s.pingers s.order);
    }
    HasBlock-HasProber (HasBlock.tcp t (tcp, e, v)) = record {
      prober = tcp_prober pc;
      made = (factory-makes host pc).1 t;
      name = refl;
      type = sym t;
      reports = λ s c.
          addressed (tcp_prober pc) s probe_type_tcp _ t refl c (tcp_runs s pc tcp e)
            (tcp_run-identity fl s.host s.zero_result pc s.now s.is_done s.order tcp s.nets);
    }
    HasBlock-HasProber (HasBlock.udp t (udp, e, v)) = record {
      prober = udp_prober pc;
      made = (factory-makes host pc).2 t;
      name = refl;
      type = sym t;
      reports = λ s c.
          addressed (udp_prober pc) s probe_type_udp _ t refl c (udp_runs s pc udp e)
            (udp_run-identity fl s.host s.zero_result pc s.now s.is_done s.order udp s.sockets);
    }
    HasBlock-HasProber (HasBlock.dns t (dns, e, v)) = dns-HasProber t dns e
    HasBlock-HasProber (HasBlock.http t (hcfg, e, v)) = http-HasProber t hcfg e

  -- Every probe of a configuration that loads is one that the factory makes a prober of, of the probe's
  -- name and type, which never lacks the block of its protocol: each run of it, whatever it meets
  -- and in whatever order its goroutines end, provided each slot's does and no other, reports one result
  -- for each item that it probes, in their order (the names for DNS, the addresses that they
  -- have then for the others), and each result has the name, type, source address and labels of the
  -- probe and the address and name of its item.
  pub load-HasProber :
      (host : Host) (codec : Codec) (disk : Disk) (ops_path probes_dir : String) (cfg : Config)
      → load host codec disk ops_path probes_dir ≡ ok cfg
      → All (HasProber host) cfg.probes
  load-HasProber host codec disk ops_path probes_dir cfg h =
      All-imp (IsGood host) (HasProber host) (λ pc g. HasBlock-HasProber host pc g.0.block)
        cfg.probes (load-IsLoaded host codec disk ops_path probes_dir cfg h).good
