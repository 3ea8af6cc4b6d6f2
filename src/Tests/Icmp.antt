-- ===== src/Tests/Icmp.antt =====
-- Tests of internal/probe/icmp.
use trimon.Base.{ℕ, zero, suc, ◌≡◌, refl, none, [], ◌∷◌, map, arith}
use trimon.Types.Floats.{Frac, exact}
use trimon.Probe.Targets.{literal, enumerate, expand_targets}
use trimon.Probe.Run.{blank}
use trimon.Probe.Icmp.{Statistics, Pinger, alive, run}
use trimon.Probe.Icmp.Statuses.{IsCounted}
use trimon.Probe.Run.Identity.{identity, identity_of}
use trimon.Probe.Icmp.Runs.{HasRun, expected_at, run-statuses}
use trimon.Tests.Config.{host, icmp_probe}
use trimon.Tests.Runs.{both_end}

abbrev seconds : Frac
seconds = record { num = 3; den = 1000 }

-- One of four packets was lost.
abbrev statistics : Statistics Frac
statistics = record {
  packets_sent = 4;
  packets_recv = 3;
  packet_loss = record { num = 25; den = 1 };
  min_rtt = seconds;
  avg_rtt = seconds;
  max_rtt = seconds;
  stddev_rtt = seconds;
}

abbrev pinger : Pinger Frac
pinger = record { init_error = none; run_error = none; context = alive; statistics = statistics }

-- The second item is pinged without a packet sent.
abbrev pingers : ℕ → Pinger Frac
pingers zero = pinger
pingers (suc i) = record pinger {
  statistics = record statistics {
    packets_sent = 0;
    packets_recv = 0;
    packet_loss = record { num = 0; den = 0 };
  };
}

statistics-IsCounted : IsCounted exact statistics
statistics-IsCounted = record {
  received = omega arith;
  none_lost = λ h. refl;
  all_lost = λ h. refl;
}

nothing-IsCounted : (i : ℕ) → IsCounted exact (pingers (suc i)).statistics
nothing-IsCounted i = record {
  received = omega arith;
  none_lost = λ h. absurd (omega (arith, h));
  all_lost = λ h. absurd (omega (arith, h));
}

pingers-HasRun : (i : ℕ) → HasRun exact (pingers i)
pingers-HasRun zero = record { made = refl; runs = refl; counted = statistics-IsCounted }
pingers-HasRun (suc i) = record { made = refl; runs = refl; counted = nothing-IsCounted i }

run-statuses_example :
    let items = expand_targets host icmp_probe.targets icmp_probe.max_resolved_ips in
    let out =
      run exact host
        (blank exact 0 icmp_probe (literal "") "icmp")
        (λ slot. slot)
        icmp_probe
        pingers
        (1 ∷ 0 ∷ []) in
    (map identity out ≡ map (identity_of "icmp" icmp_probe) items)
    × (map (λ r. r.status) out ≡ map (expected_at exact pingers) (enumerate 0 items))
run-statuses_example =
    run-statuses exact host (blank exact 0 icmp_probe (literal "") "icmp") (λ slot. slot) icmp_probe
      pingers (1 ∷ 0 ∷ []) both_end pingers-HasRun
