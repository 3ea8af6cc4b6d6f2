-- ===== src/Probe/Icmp/Runs.antt =====
-- internal/probe/icmp/icmp.go: the statuses of a run.
use trimon.Base.{
  ℕ, ◌≡◌, refl, ap, sym, ◌∙◌, Bool, true, false, none, List, map, length, Bool-cases, inl, inr,
  if◌then◌else◌, arith,
}
use trimon.Net.{Host}
use trimon.Types.{ProbeConfig, ProbeResult, Status, error}
use trimon.Types.Floats.{FloatOps}
use trimon.Probe.Targets.{WorkItem, is_unresolved, enumerate, expand_targets}
use trimon.Probe.Targets.Slots.{IsComplete, map-enumerate, map-slots, run_work_items-map}
use trimon.Probe.Run.{new_result}
use trimon.Probe.Run.Identity.{identity, identity_of, new_result-identity}
use trimon.Probe.Icmp.{Pinger, apply_stats, no_packets, after_run, run_pinger, probe_one, run}
use trimon.Probe.Icmp.Statuses.{IsCounted, run_fails, expected, probe_one-status}

module _ {F : Type 0} (fl : FloatOps F) where
  -- Made, and not failed other than by its context.
  pub record HasRun (pinger : Pinger F) : Type 0 where
    pub made : pinger.init_error ≡ none
    pub runs : run_fails fl pinger ≡ false
    pub counted : IsCounted fl pinger.statistics

  -- What a slot reports.
  abbrev pub expected_at : (ℕ → Pinger F) → ℕ × WorkItem → Status
  expected_at pingers (i, wi) =
      if is_unresolved wi then error else expected fl (pingers i).statistics

  after_run-identity :
      (pinger : Pinger F) (result : ProbeResult F)
      → identity (after_run fl pinger result) ≡ identity result
  unfolding after_run no_packets apply_stats
  after_run-identity pinger result = ground arith

  run_pinger-identity :
      (pinger : Pinger F) (result : ProbeResult F)
      → identity (run_pinger fl pinger result) ≡ identity result
  unfolding run_pinger
  run_pinger-identity pinger result = let a = after_run-identity pinger result in ground (arith, a)

  probe_one-identity :
      (now : ℕ) (cfg : ProbeConfig) (wi : WorkItem) (pinger : Pinger F)
      → identity (probe_one fl now cfg wi pinger) ≡ identity_of "icmp" cfg wi
  unfolding probe_one
  probe_one-identity now cfg wi pinger =
      let new = new_result-identity fl now cfg wi "icmp" in
      let a = run_pinger-identity pinger (new_result fl now cfg wi "icmp").0 in
      ground (arith, a, new)

  new_result-fresh :
      (now : ℕ) (cfg : ProbeConfig) (wi : WorkItem)
      → is_unresolved wi ≡ false
      → (new_result fl now cfg wi "icmp").1 ≡ true
  unfolding new_result
  new_result-fresh now cfg wi e = rw e refl

  probe_one-unresolved :
      (now : ℕ) (cfg : ProbeConfig) (wi : WorkItem) (pinger : Pinger F)
      → is_unresolved wi ≡ true
      → (probe_one fl now cfg wi pinger).status ≡ error
  unfolding probe_one new_result
  probe_one-unresolved now cfg wi pinger e = rw e refl

  probe_one-expected :
      (now : ℕ) (cfg : ProbeConfig) (wi : WorkItem) (pingers : ℕ → Pinger F) (i : ℕ)
      → HasRun (pingers i)
      → (probe_one fl now cfg wi (pingers i)).status ≡ expected_at pingers (i, wi)
  probe_one-expected now cfg wi pingers i h =
      let at : Bool → Status = λ b. if b then error else expected fl (pingers i).statistics in
      elim (Bool-cases (is_unresolved wi)) [
        | inl e ↦ probe_one-unresolved now cfg wi (pingers i) e ∙ sym (ap at e)
        | inr e ↦
            probe_one-status fl now cfg wi (pingers i) (new_result-fresh now cfg wi e) h.made h.runs
              h.counted
            ∙ sym (ap at e)
      ]

  pub run-identity :
      (host : Host) (zero_result : ProbeResult F) (now : ℕ → ℕ) (cfg : ProbeConfig)
      (pingers : ℕ → Pinger F) (order : List ℕ)
      → IsComplete (length (expand_targets host cfg.targets cfg.max_resolved_ips)) order
      → map identity (run fl host zero_result now cfg pingers order)
        ≡ map (identity_of "icmp" cfg) (expand_targets host cfg.targets cfg.max_resolved_ips)
  unfolding run
  run-identity host zero_result now cfg pingers order c =
      let one : ℕ → WorkItem → ProbeResult F = λ i w. probe_one fl (now i) cfg w (pingers i) in
      ap (map identity)
        (run_work_items-map host zero_result one order cfg.targets cfg.max_resolved_ips c)
      ∙ map-enumerate (λ (i, w). one i w) identity (identity_of "icmp" cfg)
          (λ i w. probe_one-identity (now i) cfg w (pingers i)) 0
          (expand_targets host cfg.targets cfg.max_resolved_ips)

  -- An ICMP run whose pingers were made and run, or are cut off by the context, gives, in whatever order
  -- its goroutines end, provided each slot's does and no other, one result for each work item of its
  -- targets, in their order, under the probe's name and labels and the item's address. The status is error for a name whose lookup
  -- failed and where no packet was sent, and otherwise success, failure or partial as all, none or
  -- some of the packets of the slot were answered.
  pub run-statuses :
      (host : Host) (zero_result : ProbeResult F) (now : ℕ → ℕ) (cfg : ProbeConfig)
      (pingers : ℕ → Pinger F) (order : List ℕ)
      → IsComplete (length (expand_targets host cfg.targets cfg.max_resolved_ips)) order
      → ((i : ℕ) → HasRun (pingers i))
      → let items = expand_targets host cfg.targets cfg.max_resolved_ips in
        let out = run fl host zero_result now cfg pingers order in
        (map identity out ≡ map (identity_of "icmp" cfg) items)
        × (map (λ r. r.status) out ≡ map (expected_at pingers) (enumerate 0 items))
  unfolding run
  run-statuses host zero_result now cfg pingers order c h =
      let one : ℕ → WorkItem → ProbeResult F = λ i w. probe_one fl (now i) cfg w (pingers i) in
      let items = expand_targets host cfg.targets cfg.max_resolved_ips in
      let same = run_work_items-map host zero_result one order cfg.targets cfg.max_resolved_ips c in
      (
        run-identity host zero_result now cfg pingers order c,
        ap (map (λ r. r.status)) same
            ∙ map-slots (λ (i, w). one i w) (λ r. r.status) (expected_at pingers)
                (λ i w. probe_one-expected (now i) cfg w pingers i (h i)) 0 items,
      )
