-- ===== src/Tests/Times.antt =====
-- Tests of the round-trip times of a run.
use trimon.Base.{false, ℕ, refl, none, ltb, arith, ◌+◌, ◌*◌, ◌%◌}
use trimon.Base.Int.{pos}
use trimon.Types.{ProbeResult}
use trimon.Types.Floats.{Frac, exact, exact-FloatLaws}
use trimon.Types.Floats.Order.{exact-OrderLaws}
use trimon.Probe.Run.{Attempt, blank, run_loop}
use trimon.Probe.Run.Times.{Timed, run_loop-Timed}
use trimon.Probe.Targets.{literal}
use trimon.Tests.Config.{icmp_probe}

-- Of four attempts, the first two get a reply, after 5 and 6 milliseconds.
abbrev attempts : ℕ → ℕ → Attempt × ℕ
attempts i s = (record { rtt = pos ((5 + i % 2) * 1_000_000); received = ltb i 2; err = none }, s)

abbrev time : ℕ → ℕ → ℕ
time i s = (5 + i % 2) * 1_000_000

abbrev fresh : ProbeResult Frac
fresh = blank exact 0 icmp_probe (literal "10.0.0.1") "udp"

run_loop-Timed_example :
    Timed exact
      (λ i. false)
      attempts
      time
      4
      (run_loop exact (λ i. false) attempts fresh (pos 4) 0).0
run_loop-Timed_example =
    run_loop-Timed exact (λ i. false) attempts time 4 (λ i s. refl) (λ i s. omega arith)
      exact-FloatLaws exact-OrderLaws (omega arith) fresh 0 (refl, refl) (omega arith)
