-- ===== src/Probe/Tcp.antt =====
-- internal/probe/tcp/tcp.go: the answer of a connection attempt, the choice of the mode, the probe of
-- one address and a run over all targets.
pub mod Segment
pub mod Syn
use trimon.Base.{ℕ, String, Bool, List, str_eq, ok, if◌then◌else◌}
use trimon.Base.Int.{ℤ, pos}
use trimon.Net.{Host}
use trimon.Types.{ProbeConfig, TcpConfig, ProbeResult, tcp_mode_syn}
use trimon.Types.Floats.{FloatOps}
use trimon.Probe.Targets.{WorkItem, run_work_items}
use trimon.Probe.Ports.{Answer, state_unreachable, state_closed, state_open, port_probe}
use trimon.Probe.Tcp.Syn.{SynNet, syn_attempt}

-- What the dialer reports: a connection, ECONNREFUSED, or another error.
pub data Dialed : Type 0 where
  connected refused : ℤ → Dialed
  failed : Dialed

unfoldable pub connect_attempt : Dialed → Answer
connect_attempt (connected rtt) = ok (rtt, state_open)
connect_attempt (refused rtt) = ok (rtt, state_closed)
connect_attempt failed = ok (pos 0, state_unreachable)

-- What one attempt meets, in either mode.
pub record Network : Type 0 where
  pub dialed : Dialed
  pub syn : SynNet

module _ (host : Host) where
  -- The function that `attemptFn` selects, called with an address.
  unfoldable pub attempt_fn : ProbeConfig → TcpConfig → Network → String → Answer
  attempt_fn cfg tcp net ip =
      if str_eq tcp.mode tcp_mode_syn
      then syn_attempt host net.syn cfg.source_ip ip tcp.port
      else connect_attempt net.dialed

  module _ {F : Type 0} (fl : FloatOps F) where
    -- `nets i` is what the i-th attempt meets.
    unfoldable pub probe_one :
        ℕ → ProbeConfig → TcpConfig → (ℕ → Bool) → (ℕ → Network) → WorkItem → ProbeResult F
    probe_one now cfg tcp is_done nets wi =
        port_probe fl "tcp" now cfg is_done (λ i. attempt_fn cfg tcp (nets i) wi.ip) wi

    unfoldable pub run :
        ProbeResult F
        → (ℕ → ℕ)
        → ProbeConfig
        → TcpConfig
        → (ℕ → ℕ → Bool)
        → (ℕ → ℕ → Network)
        → List ℕ
        → List (ProbeResult F)
    unfolding probe_one
    run zero_result now cfg tcp is_done nets order =
        run_work_items host cfg.targets cfg.max_resolved_ips zero_result
          (λ slot wi. probe_one (now slot) cfg tcp (is_done slot) (nets slot) wi) order
