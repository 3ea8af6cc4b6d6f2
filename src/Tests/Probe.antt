-- ===== src/Tests/Probe.antt =====
-- Tests of internal/probe.
use mathlib.Core.Option
use trimon.Base.{
  ℕ, zero, suc, ◌≡◌, refl, ◌⊎◌, ◌∷◌, [], List, none, some, true, false, Bool, arith, ok, All,
}
use trimon.Base.Int.{pos}
use trimon.Types.{ProbeResult}
use trimon.Types.Floats.{Frac, exact, exact-FloatLaws}
use trimon.Probe.Targets.{literal, expand_name, expand_targets}
use trimon.Probe.Targets.Expand.{
  Expansion, expand_name-Expansion, IsCovered, expand_targets-IsCovered,
}
use trimon.Probe.Run.{
  Attempt, no_reply, blank, run_loop, rounds, round, after_attempt, summarise, conclude, measure,
}
use trimon.Probe.Run.Failed.{Ends, run_loop-Ends}
use trimon.Probe.Ports.{state_unreachable}
use trimon.Probe.Tcp.Segment.{
  build_syn, tcp_checksum, parse_tcp_segment, strip_ipv4_header, flag_syn,
}
use trimon.Probe.Tcp.Segment.Checksum.{Octets, to_bytes, build_syn-checksum}
use trimon.Probe.Tcp.Segment.Replies.{parse_tcp_segment-build_syn, strip_ipv4_header_loses}
use trimon.Probe.Tcp.Syn.{Packet, await_reply}
use trimon.Probe.Tcp.Syn.FirstReply.{IsForeign, FirstReply, await_reply-FirstReply}
use trimon.Probe.Udp.{Socket, udp_attempt}
use trimon.Probe.Udp.Answers.{Judged, udp_attempt-Judged}
use trimon.Tests.Config.{host, icmp_probe}

-- The first attempt is not answered, the others fail.
abbrev attempts : ℕ → Bool → Attempt × Bool
attempts zero got = (no_reply, true)
attempts (suc i) got = (record no_reply { err = some "socket" }, got)

abbrev fresh : ProbeResult Frac
fresh = blank exact 0 icmp_probe (literal "10.0.0.1") "icmp"

second_fails : (run_loop exact (λ i. false) attempts fresh (pos 4) false).0.error_msg ≡ "socket"
unfolding run_loop rounds round after_attempt summarise conclude measure
second_fails = refl

run_loop-Ends_example :
    let out = run_loop exact (λ i. false) attempts fresh (pos 4) false in
    Ends attempts false 4 out.0 out.1
run_loop-Ends_example =
    run_loop-Ends exact exact-FloatLaws (λ i. false) attempts fresh 4 false (refl, refl)
      (omega arith) (omega arith)

expand_name-Expansion_example :
    Expansion "gw"
      (pos 1)
      ("192.0.2.7" ∷ "192.0.2.8" ∷ [])
      (expand_name "gw" (pos 1) (some ("192.0.2.7" ∷ "192.0.2.8" ∷ [])))
expand_name-Expansion_example = expand_name-Expansion "gw" (pos 1) "192.0.2.7" ("192.0.2.8" ∷ [])

expand_targets-IsCovered_example :
    All (IsCovered (expand_targets host ("10.0.0.1" ∷ "gw" ∷ []) (pos 0))) ("10.0.0.1" ∷ "gw" ∷ [])
expand_targets-IsCovered_example = expand_targets-IsCovered host (pos 0) ("10.0.0.1" ∷ "gw" ∷ [])

abbrev source : Octets
source = record {
  w = 10;
  x = 0;
  y = 0;
  z = 1;
  IsByte = (omega arith, omega arith, omega arith, omega arith);
}

abbrev target : Octets
target = record {
  w = 192;
  x = 0;
  y = 2;
  z = 7;
  IsByte = (omega arith, omega arith, omega arith, omega arith);
}

build_syn-checksum_example :
    Option.map
      (tcp_checksum (to_bytes source) (to_bytes target))
      (build_syn (to_bytes source) (to_bytes target) 40000 443 123456789)
    ≡ some 0
build_syn-checksum_example =
    build_syn-checksum (to_bytes source) (to_bytes target) source target 40000 443 123456789 refl
      refl

parse_tcp_segment-build_syn_example :
    Option.map parse_tcp_segment (build_syn (to_bytes source) (to_bytes target) 40000 443 123456789)
    ≡ some (
        some
          (record { src_port = 40000; dst_port = 443; seq = 123456789; ack = 0; flags = flag_syn }))
parse_tcp_segment-build_syn_example =
    parse_tcp_segment-build_syn (to_bytes source) (to_bytes target) (to_bytes source)
      (to_bytes target) 40000 443 123456789 refl refl (omega arith) (omega arith) (omega arith)

abbrev nineteen : List ℕ
nineteen = 0 ∷ 1 ∷ 2 ∷ 3 ∷ 4 ∷ 5 ∷ 6 ∷ 7 ∷ 8 ∷ 9 ∷ 0 ∷ 1 ∷ 2 ∷ 3 ∷ 4 ∷ 5 ∷ 6 ∷ 7 ∷ 8 ∷ []

strip_ipv4_header_loses_example :
    (strip_ipv4_header (69 ∷ nineteen) ≡ [])
    × (parse_tcp_segment (strip_ipv4_header (69 ∷ nineteen)) ≡ none)
strip_ipv4_header_loses_example =
    strip_ipv4_header_loses 5 nineteen (omega arith) (omega arith) (omega arith) (omega arith)

-- A segment of 443 with the flags SYN and ACK, from the target.
abbrev reply : Packet
reply = record {
  from = to_bytes target;
  bytes = 1 ∷ 187 ∷ 156 ∷ 64 ∷ 0 ∷ 0 ∷ 0 ∷ 0 ∷ 0 ∷ 0 ∷ 0 ∷ 8 ∷ 80 ∷ 18 ∷ 0 ∷ 0 ∷ 0 ∷ 0 ∷ 0 ∷ 0 ∷ [];
  rtt = pos 3_000_000;
}

abbrev other : Packet
other = record reply { from = to_bytes source }

abbrev packets : List Packet
packets = other ∷ reply ∷ []

await_reply-FirstReply_example :
    (All (IsForeign (to_bytes target) 40000 443 8) packets
      × (await_reply (to_bytes target) 40000 443 8 packets ≡ (pos 0, state_unreachable)))
    ⊎ FirstReply
        (to_bytes target)
        40000
        443
        8
        packets
        (await_reply (to_bytes target) 40000 443 8 packets)
await_reply-FirstReply_example = await_reply-FirstReply (to_bytes target) 40000 443 8 packets

abbrev socket : Socket
socket = record {
  dial = none;
  deadline = none;
  write = ok 2;
  write_time = pos 1_000;
  read = ok (1 ∷ 2 ∷ 3 ∷ []);
  read_time = pos 2_000_000;
}

udp_attempt-Judged_example :
    Judged (9 ∷ 9 ∷ []) (1 ∷ 2 ∷ []) socket (udp_attempt (9 ∷ 9 ∷ []) (1 ∷ 2 ∷ []) socket)
udp_attempt-Judged_example =
    udp_attempt-Judged (9 ∷ 9 ∷ []) (1 ∷ 2 ∷ []) socket (record { dial = refl; deadline = refl })
