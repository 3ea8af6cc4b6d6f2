-- ===== src/Probe/Icmp/Statuses.antt =====
-- The status of an ICMP result.
use trimon.Base.{
  Option-cases, sym, ap, ◌∙◌, ◌&&◌, if◌then◌else◌, ℕ, ◌<◌, ◌≤◌, ◌≡◌, refl, Bool, true, false, none,
  arith, ◌==◌, Bool-cases, inl, inr,
}
use trimon.Types.{Status, ProbeConfig, ProbeResult, error}
use trimon.Types.Floats.{FloatOps, of_ℕ}
use trimon.Probe.Targets.{WorkItem}
use trimon.Probe.Run.{status_from_loss, new_result}
use trimon.Probe.Run.StatusOf.{status_of}
use trimon.Net.{is_some}
use trimon.Probe.Icmp.{
  is_alive, Statistics, Pinger, ContextState, alive, deadline_exceeded, cancelled, apply_stats,
  no_packets, after_run, run_pinger, probe_one,
}

module _ {F : Type 0} (fl : FloatOps F) where
  -- What pro-bing documents of its statistics: no more replies are counted than packets; and with a packet
  -- sent, the loss is the share of the packets sent that got no reply, in percent, so that it is 0 with
  -- all and 100 with none answered. Without one it is NaN, of which nothing is asked.
  pub record IsCounted (stats : Statistics F) : Type 0 where
    pub received : stats.packets_recv ≤ stats.packets_sent
    pub none_lost :
        0 < stats.packets_sent
        → fl.eq (fl.div stats.packet_loss (of_ℕ fl 100)) (of_ℕ fl 0)
          ≡ (stats.packets_recv == stats.packets_sent)
    pub all_lost :
        0 < stats.packets_sent
        → fl.le (of_ℕ fl 1) (fl.div stats.packet_loss (of_ℕ fl 100)) ≡ (stats.packets_recv == 0)

  apply_stats-status :
      (result : ProbeResult F) (stats : Statistics F)
      → 0 < stats.packets_sent
      → IsCounted stats
      → (apply_stats fl result stats).status ≡ status_of stats.packets_recv stats.packets_sent
  unfolding apply_stats status_from_loss
  apply_stats-status result stats h c =
      let a = c.none_lost h in
      let b = c.all_lost h in let d = c.received in ground (arith, a, b, d, h)

  no_packets-status :
      (context : ContextState) (result : ProbeResult F)
      → (no_packets fl context result).status ≡ error
  unfolding no_packets
  no_packets-status alive result = refl
  no_packets-status deadline_exceeded result = refl
  no_packets-status cancelled result = refl

  -- The status that the counters stand for.
  abbrev pub expected : Statistics F → Status
  expected stats =
      if stats.packets_sent == 0 then error else status_of stats.packets_recv stats.packets_sent

  after_run-status :
      (pinger : Pinger F) (result : ProbeResult F)
      → IsCounted pinger.statistics
      → (after_run fl pinger result).status ≡ expected pinger.statistics
  unfolding after_run
  after_run-status pinger result c =
      let a = apply_stats-status result pinger.statistics in
      let b = no_packets-status pinger.context result in
      elim (Bool-cases (pinger.statistics.packets_sent == 0)) [
        | inl e ↦
            let q : after_run fl pinger result ≡ no_packets fl pinger.context result =
              simp (after_run, e) in
            let r : expected pinger.statistics ≡ error = simp (expected, e) in
            ap (λ x. x.status) q ∙ (b ∙ sym r)
        | inr e ↦
            let q : after_run fl pinger result ≡ apply_stats fl result pinger.statistics =
              simp (after_run, e) in
            let r : expected pinger.statistics
                ≡ status_of pinger.statistics.packets_recv pinger.statistics.packets_sent =
              simp (expected, e) in
            ap (λ x. x.status) q ∙ (a (ground (arith, e)) c ∙ sym r)
      ]

  -- The run failed by itself, and not by its context.
  abbrev pub run_fails : Pinger F → Bool
  run_fails pinger = is_some pinger.run_error && is_alive pinger.context

  run_pinger-runs :
      (pinger : Pinger F) (result : ProbeResult F)
      → run_fails pinger ≡ false
      → run_pinger fl pinger result ≡ after_run fl pinger result
  unfolding run_pinger
  run_pinger-runs pinger result h = elim (Option-cases pinger.run_error) [
    | inl e ↦ simp (run_pinger, e)
    | inr (m, e) ↦
        let q : is_alive pinger.context ≡ false = ground (arith, e, h) in simp (run_pinger, e, q)
  ]

  -- An ICMP probe of a resolved address whose pinger was made and runs, or is cut off by its context,
  -- has status error if it sent no packet, and otherwise success, failure or partial as all, none or
  -- some of the packets it sent were answered.
  pub probe_one-status :
      (now : ℕ) (cfg : ProbeConfig) (wi : WorkItem) (pinger : Pinger F)
      → (new_result fl now cfg wi "icmp").1 ≡ true
      → pinger.init_error ≡ none
      → run_fails pinger ≡ false
      → IsCounted pinger.statistics
      → (probe_one fl now cfg wi pinger).status ≡ expected pinger.statistics
  unfolding probe_one
  probe_one-status now cfg wi pinger n i r c =
      let result = (new_result fl now cfg wi "icmp").0 in
      let q : probe_one fl now cfg wi pinger ≡ run_pinger fl pinger result =
        simp (probe_one, n, i) in
      ap (λ x. x.status) (q ∙ run_pinger-runs pinger result r) ∙ after_run-status pinger result c
