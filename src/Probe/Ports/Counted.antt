-- ===== src/Probe/Ports/Counted.antt =====
-- The packets of a TCP or UDP probe, for its exporters.
use trimon.Base.{ℕ, ◌≤◌, ◌<◌, String, ◌≡◌, refl, sym, subst, ◌⊎◌, inl, inr, Bool, true, false}
use trimon.Base.Int.{pos}
use trimon.Types.{ProbeConfig, ProbeResult, error}
use trimon.Types.Floats.{FloatOps, FloatLaws, max_exact}
use trimon.Probe.Targets.{WorkItem}
use trimon.Probe.Run.{Attempt, run_loop, blank}
use trimon.Probe.Run.Outcome.{Outcome, IsMeasured, run_loop-Outcome, new_result-cases}
use trimon.Probe.Ports.{Answer, port_attempt, set_port_open, port_probe}

-- Measured, or an error without a reply.
abbrev pub IsCounted : {F : Type 0} → ℕ → ProbeResult F → Type 0
IsCounted count r = IsMeasured count r ⊎ ((r.status ≡ error) × (r.packets_received ≡ 0))

module _ {F : Type 0} (fl : FloatOps F) (is_done : ℕ → Bool) (answer : ℕ → Answer) where
  set_port_open-IsCounted :
      (count : ℕ) (out : ProbeResult F × Bool × Bool)
      → Outcome count out.0 out.1
      → IsCounted count (set_port_open fl out)
  unfolding set_port_open
  set_port_open-IsCounted count (r, true, got) m = inl (record {
    some_sent = m.some_sent;
    at_most = m.at_most;
    received = m.received;
    status = m.status;
  })
  set_port_open-IsCounted count (r, false, got) b = inr (b.status, b.received)

  pub port_probe-IsCounted :
      (laws : FloatLaws fl) (probe_type : String) (now : ℕ) (cfg : ProbeConfig) (wi : WorkItem)
      (count : ℕ)
      → cfg.count ≡ pos count
      → 0 < count
      → count ≤ max_exact
      → IsCounted count (port_probe fl probe_type now cfg is_done answer wi)
  unfolding port_probe
  port_probe-IsCounted laws probe_type now cfg wi count e h b =
      let attempt : ℕ → Bool → Attempt × Bool = λ i got. port_attempt (answer i) got in
      let live : IsCounted count (
          set_port_open fl
            (run_loop fl is_done attempt (blank fl now cfg wi probe_type) cfg.count false)) =
        subst
          (λ c. IsCounted count (
            set_port_open fl
              (run_loop fl is_done attempt (blank fl now cfg wi probe_type) c false)))
          (sym e)
          (set_port_open-IsCounted count
            (run_loop fl is_done attempt (blank fl now cfg wi probe_type) (pos count) false)
            (run_loop-Outcome fl laws is_done attempt (blank fl now cfg wi probe_type) count false
              (refl, refl) h b)) in
      elim (new_result-cases fl now cfg wi probe_type) [
        | inl lost ↦ rw lost (inr (refl, refl))
        | inr fresh ↦ rw fresh live
      ]
