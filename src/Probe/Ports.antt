-- ===== src/Probe/Ports.antt =====
-- What the probes of a port share: internal/probe/tcp/tcp.go and internal/probe/udp/udp.go declare the
-- same `portState` and run the same closure, and differ in how an attempt gets its answer. The answer
-- of each attempt is given, as a function of its number.
pub mod PortOpen
pub mod Counted
use trimon.Base.{
  ℕ, String, Bool, true, false, not, Option, none, some, if◌then◌else◌, Result, ok, err,
}
use trimon.Base.Int.{ℤ, pos}
use trimon.Types.{ProbeConfig, ProbeResult}
use trimon.Types.Floats.{FloatOps}
use trimon.Probe.Targets.{WorkItem}
use trimon.Probe.Run.{Attempt, no_reply, new_result, run_loop}

pub data PortState : Type 0 where
  state_unreachable state_closed state_open : PortState

abbrev pub reachable : PortState → Bool
reachable state_unreachable = false
reachable _ = true

-- The answer of an attempt: the round-trip time and the state, or the error that stops the probe.
abbrev pub Answer : Type 0
Answer = Result String (ℤ × PortState)

-- The closure that `probeOne` gives to `RunLoop`; its variable is `synAckGot`, or `openGot`.
unfoldable pub port_attempt : Answer → Bool → Attempt × Bool
port_attempt (err e) got = (record { rtt = pos 0; received = false; err = some e }, got)
port_attempt (ok (rtt, state)) got = if not (reachable state) then (no_reply, got) else (
  record { rtt = rtt; received = true; err = none },
  elim state [ state_open ↦ true | _ ↦ got ],
)

module _ {F : Type 0} (fl : FloatOps F) where
  -- `result.PortOpen = &got` after a live run.
  unfoldable pub set_port_open : ProbeResult F × Bool × Bool → ProbeResult F
  set_port_open (result, live, got) =
      if live then record result { port_open = some got } else result

  unfoldable pub port_probe :
      String → ℕ → ProbeConfig → (ℕ → Bool) → (ℕ → Answer) → WorkItem → ProbeResult F
  port_probe probe_type now cfg is_done answer wi =
      let (result, fresh) = new_result fl now cfg wi probe_type in
      if not fresh
      then result
      else set_port_open
          (run_loop fl is_done (λ i got. port_attempt (answer i) got) result cfg.count false)
