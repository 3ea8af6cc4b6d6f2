-- ===== src/Probe/Udp.antt =====
-- internal/probe/udp/udp.go: the answer of one datagram, the probe of one address and a run
-- over all targets. A datagram is a list of bytes; what the socket does is given.
pub mod Answers
use trimon.Base.{
  ℕ, String, Bool, true, false, not, ◌||◌, ◌&&◌, List, [], ◌∷◌, length, ltb, ◌==◌, if◌then◌else◌,
  Option, none, some, Result, ok, err,
}
use trimon.Base.Int.{ℤ, pos}
use trimon.Net.{Host, has_prefix}
use trimon.Types.{ProbeConfig, UdpConfig, ProbeResult}
use trimon.Types.Floats.{FloatOps}
use trimon.Probe.Targets.{WorkItem, run_work_items}
use trimon.Probe.Ports.{Answer, state_unreachable, state_closed, state_open, port_probe}

-- A failing read or write: ECONNREFUSED, or another error.
pub data IoError : Type 0 where
  refused other_error : IoError

-- One datagram's socket: the error that its setting up gives, if any, the bytes written, the reply, and
-- the time since the start after a write and after a read.
pub record Socket : Type 0 where
  pub dial : Option String
  pub deadline : Option String
  pub write : Result IoError ℕ
  pub write_time : ℤ
  pub read : Result IoError (List ℕ)
  pub read_time : ℤ

unfoldable pub after_read : List ℕ → Socket → Answer
after_read expected s = elim s.read [
  | err refused ↦ ok (s.read_time, state_closed)
  | err other_error ↦ ok (pos 0, state_unreachable)
  | ok reply ↦
      if (length expected == 0) || has_prefix reply expected
      then ok (s.read_time, state_open)
      else ok (pos 0, state_unreachable)
]

unfoldable pub after_setup : List ℕ → List ℕ → Socket → Answer
after_setup payload expected s = elim s.write [
  | err refused ↦ ok (s.write_time, state_closed)
  | err other_error ↦ ok (pos 0, state_unreachable)
  | ok n ↦ if ltb n (length payload) then ok (pos 0, state_unreachable) else after_read expected s
]

unfoldable pub udp_attempt : List ℕ → List ℕ → Socket → Answer
udp_attempt payload expected s = elim s.dial [
  | some e ↦ err e
  | none ↦ elim s.deadline [ some e ↦ err e | none ↦ after_setup payload expected s ]
]

module _ {F : Type 0} (fl : FloatOps F) where
  -- `sockets i` is the socket of the i-th attempt.
  unfoldable pub probe_one :
      ℕ → ProbeConfig → UdpConfig → (ℕ → Bool) → (ℕ → Socket) → WorkItem → ProbeResult F
  probe_one now cfg udp is_done sockets wi =
      port_probe fl "udp" now cfg is_done
        (λ i. udp_attempt udp.payload udp.expected_response (sockets i)) wi

  unfoldable pub run :
      Host
      → ProbeResult F
      → (ℕ → ℕ)
      → ProbeConfig
      → UdpConfig
      → (ℕ → ℕ → Bool)
      → (ℕ → ℕ → Socket)
      → List ℕ
      → List (ProbeResult F)
  unfolding probe_one
  run host zero_result now cfg udp is_done sockets order =
      run_work_items host cfg.targets cfg.max_resolved_ips zero_result
        (λ slot wi. probe_one (now slot) cfg udp (is_done slot) (sockets slot) wi) order
