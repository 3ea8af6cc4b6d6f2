-- ===== src/Probe/Tcp/Syn.antt =====
-- internal/probe/tcp/syn.go: one half-open attempt. What the host and the network answer is given:
-- which calls fail, the random numbers, and the packets read before the deadline.
pub mod FirstReply
use trimon.Base.{
  ℕ, ◌+◌, ◌%◌, ◌^◌, String, Bool, not, Option, none, some, List, [], ◌∷◌, str_eq, if◌then◌else◌,
  Result, ok, err, ◌>>=◌, ◌>>◌, refuse_if,
}
use trimon.Base.Int.{ℤ, pos, word64}
use trimon.Probe.Ports.{PortState, state_unreachable}
use trimon.Net.{Host, Ip, to4, ip_equal}
use trimon.Probe.Tcp.Segment.{classify_reply, parse_tcp_segment, strip_ipv4_header, build_syn}

-- A packet read: its sender, its bytes and the time since the SYN was sent.
pub record Packet : Type 0 where
  pub from : Ip
  pub bytes : List ℕ
  pub rtt : ℤ

pub record SynNet : Type 0 where
  -- The local address of a UDP socket towards an address; `none` if there is none or no UDP one.
  pub route_source : Ip → Option Ip
  pub socket_opens : Bool
  pub deadline_set : Bool
  pub sends : Bool
  pub src_port : ℕ
  pub seq : ℕ
  pub packets : List Packet

-- The state that a packet shows, if it is a reply to this probe.
unfoldable pub read_reply : Ip → ℕ → ℕ → ℕ → Packet → Option PortState
read_reply dst src_port dst_port expect_ack p =
    if not (ip_equal p.from dst)
    then none
    else elim (parse_tcp_segment (strip_ipv4_header p.bytes)) [
      | none ↦ none
      | some seg ↦ classify_reply seg src_port dst_port expect_ack
    ]

-- The reading loop; the end of the list is the deadline.
unfoldable pub await_reply : Ip → ℕ → ℕ → ℕ → List Packet → ℤ × PortState
await_reply dst src_port dst_port expect_ack [] = (pos 0, state_unreachable)
await_reply dst src_port dst_port expect_ack (p ∷ ps) =
    let later = await_reply dst src_port dst_port expect_ack ps in
    elim (read_reply dst src_port dst_port expect_ack p) [
      | some state ↦ (p.rtt, state)
      | none ↦ later
    ]

abbrev or_fail {ℓ} : {A : Type ℓ} → Option A → String → Result String A
or_fail none e = err e
or_fail (some a) e = ok a

abbrev to4_of : Option Ip → Option Ip
to4_of none = none
to4_of (some ip) = to4 ip

module _ (host : Host) (net : SynNet) where
  unfoldable pub resolve_source_ip : String → Ip → Result String Ip
  resolve_source_ip source_ip dst =
      if not (str_eq source_ip "")
      then or_fail (to4_of (host.parse_ip source_ip)) "syn: source_ip is not IPv4"
      else or_fail (to4_of (net.route_source dst)) "syn: no IPv4 source route"

  -- `port` is converted to a uint16, and the acknowledgement expected is `seq+1`, a uint32.
  unfoldable pub syn_attempt : String → String → ℤ → Result String (ℤ × PortState)
  syn_attempt source_ip ip port = do
    dst ← or_fail (to4_of (host.parse_ip ip)) "syn: target is not IPv4"
    src ← resolve_source_ip source_ip dst
    refuse_if (not net.socket_opens) "syn: open raw socket"
    let dst_port = word64 port % 2 ^ 16
    syn ← or_fail (build_syn src dst net.src_port dst_port net.seq) "syn: IPv4 required"
    refuse_if (not net.deadline_set) "syn: set deadline"
    refuse_if (not net.sends) "syn: send"
    ok (await_reply dst net.src_port dst_port ((net.seq + 1) % 2 ^ 32) net.packets)
