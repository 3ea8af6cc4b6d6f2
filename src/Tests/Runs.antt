-- ===== src/Tests/Runs.antt =====
-- Tests of whole runs of TCP and UDP probes.
use trimon.Base.{ℕ, zero, suc, ◌≡◌, refl, false, none, [], ◌∷◌, length, ok, arith}
use trimon.Base.Int.{pos}
use trimon.Types.{TcpConfig, UdpConfig, tcp_mode_connect}
use trimon.Types.Floats.{exact, exact-FloatLaws}
use trimon.Probe.Targets.{
  literal, resolved, expand_targets, expand_entry, expand_name, expand_addrs,
}
use trimon.Probe.Targets.Slots.{IsComplete}
use trimon.Probe.Run.{blank}
use trimon.Probe.Runs.{Reports, run-Reports}
use trimon.Probe.Tcp.{Network, refused, failed, run as tcp_run}
use trimon.Probe.Udp.{Socket, run as udp_run}
use trimon.Tests.Config.{host, icmp_probe}

abbrev tcp_config : TcpConfig
tcp_config = record { port = pos 443; mode = tcp_mode_connect }

abbrev udp_config : UdpConfig
udp_config = record { port = pos 53; payload = 9 ∷ 9 ∷ []; expected_response = 1 ∷ [] }

-- The first attempt is lost, the others find a closed port.
abbrev network : ℕ → Network
network i = record {
  dialed = elim i [ zero ↦ failed | suc n ↦ refused (pos 5_000_000) ];
  syn = record {
    route_source = λ ip. none;
    socket_opens = false;
    deadline_set = false;
    sends = false;
    src_port = 40_000;
    seq = 7;
    packets = [];
  };
}

abbrev socket : Socket
socket = record {
  dial = none;
  deadline = none;
  write = ok 2;
  write_time = pos 1_000;
  read = ok (1 ∷ 2 ∷ 3 ∷ []);
  read_time = pos 2_000_000;
}

two_items :
    expand_targets host icmp_probe.targets icmp_probe.max_resolved_ips
    ≡ literal "10.0.0.1" ∷ resolved "gw.example" "192.0.2.7" ∷ []
unfolding expand_targets expand_entry expand_name expand_addrs
two_items = refl

pub both_end :
    IsComplete
      (length (expand_targets host icmp_probe.targets icmp_probe.max_resolved_ips))
      (1 ∷ 0 ∷ [])
both_end = rw two_items ((omega arith, (omega arith, tt)), λ j h. ground arith)

run-Reports_example :
    let items = expand_targets host icmp_probe.targets icmp_probe.max_resolved_ips in
    Reports exact "tcp" icmp_probe items (
      tcp_run host exact
        (blank exact 0 icmp_probe (literal "") "tcp")
        (λ slot. slot)
        icmp_probe
        tcp_config
        (λ slot i. false)
        (λ slot i. network i)
        (1 ∷ 0 ∷ []))
    × Reports exact "udp" icmp_probe items (
        udp_run exact host
          (blank exact 0 icmp_probe (literal "") "tcp")
          (λ slot. slot)
          icmp_probe
          udp_config
          (λ slot i. false)
          (λ slot i. socket)
          (1 ∷ 0 ∷ []))
run-Reports_example =
    run-Reports exact exact-FloatLaws host (blank exact 0 icmp_probe (literal "") "tcp") icmp_probe
      (λ slot. slot) (λ slot i. false) (1 ∷ 0 ∷ []) 4 tcp_config udp_config (λ slot i. network i)
      (λ slot i. socket) both_end refl (omega arith) (omega arith)
