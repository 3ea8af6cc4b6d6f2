-- ===== src/Main/Probers.antt =====
-- internal/probe/prober.go: the interface of the probers, over the five that the factory of cmd/trimon
-- makes: Name, Type and Run.
pub mod Identified
use trimon.Base.{ℕ, String, Bool, Option, none, some, Result, List}
use trimon.Base.Int.{ℤ}
use trimon.Net.{Host}
use trimon.Types.{
  ProbeConfig, ProbeResult, probe_type_icmp, probe_type_tcp, probe_type_udp, probe_type_dns,
  probe_type_http,
}
use trimon.Types.Floats.{FloatOps}
use trimon.Probe.Icmp.{Pinger, run as icmp_run}
use trimon.Probe.Tcp.{Network, run as tcp_run}
use trimon.Probe.Udp.{Socket, run as udp_run}
use trimon.Probe.Dns.{RecordTypes, Texts, Response, run as dns_run}
use trimon.Probe.Http.{Exchange}
use trimon.Probe.Http.Clients.{Request, run as http_run}
use trimon.Main.{Prober, icmp_prober, tcp_prober, udp_prober, dns_prober, http_prober}

unfoldable pub config_of : Prober → ProbeConfig
config_of (icmp_prober cfg) = cfg
config_of (tcp_prober cfg) = cfg
config_of (udp_prober cfg) = cfg
config_of (dns_prober cfg) = cfg
config_of (http_prober cfg clients) = cfg

-- `Name()`.
unfoldable pub prober_name : Prober → String
unfolding config_of
prober_name p = (config_of p).name

-- `Type()`.
unfoldable pub prober_type : Prober → String
prober_type (icmp_prober cfg) = probe_type_icmp
prober_type (tcp_prober cfg) = probe_type_tcp
prober_type (udp_prober cfg) = probe_type_udp
prober_type (dns_prober cfg) = probe_type_dns
prober_type (http_prober cfg clients) = probe_type_http

-- What a run meets: the host, the order in which its goroutines end, and for each slot the clock, the
-- context, and what the attempts come to.
pub record Surroundings (F : Type 0) : Type 0 where
  pub host : Host
  pub order : List ℕ
  pub zero_result : ProbeResult F
  pub now : ℕ → ℕ
  pub is_done : ℕ → ℕ → Bool
  pub pingers : ℕ → Pinger F
  pub nets : ℕ → ℕ → Network
  pub sockets : ℕ → ℕ → Socket
  pub types : RecordTypes
  pub texts : Texts
  pub exchanges : ℕ → ℕ → Option Response
  pub system : Result String String
  pub itoa : ℤ → String
  pub perform : ℕ → Request → Exchange

-- A nil block is dereferenced as soon as an item is probed: `none`.
abbrev pub with_block : {B R : Type 0} → (B → R) → Option B → Option R
with_block run none = none
with_block run (some block) = some (run block)

module _ {F : Type 0} (fl : FloatOps F) where
  -- `Run`.
  unfoldable pub run_prober : Surroundings F → Prober → Option (List (ProbeResult F))
  run_prober s (icmp_prober cfg) =
      some (icmp_run fl s.host s.zero_result s.now cfg s.pingers s.order)
  run_prober s (tcp_prober cfg) =
      with_block (λ tcp. tcp_run s.host fl s.zero_result s.now cfg tcp s.is_done s.nets s.order)
        cfg.tcp
  run_prober s (udp_prober cfg) =
      with_block (λ udp. udp_run fl s.host s.zero_result s.now cfg udp s.is_done s.sockets s.order)
        cfg.udp
  run_prober s (dns_prober cfg) =
      with_block
        (λ dns.
          dns_run fl s.types s.texts s.zero_result s.now cfg dns s.is_done s.exchanges s.system
            s.order)
        cfg.dns
  run_prober s (http_prober cfg clients) =
      with_block
        (λ hcfg. http_run s.itoa fl s.zero_result s.now cfg hcfg clients s.perform s.host s.order)
        cfg.http
