-- ===== src/Probe/Icmp.antt =====
-- internal/probe/icmp/icmp.go: the probe of one address, by the pro-bing library, whose statistics
-- are given, and a run over all targets.
pub mod Statuses
pub mod Runs
use trimon.Base.{
  ℕ, String, Bool, true, false, not, ◌&&◌, Option, none, some, List, if◌then◌else◌, ltb, ◌==◌,
}
use trimon.Base.Int.{ℤ}
use trimon.Net.{Host}
use trimon.Types.{ProbeConfig, ProbeResult, error}
use trimon.Types.Floats.{FloatOps, of_ℕ}
use trimon.Probe.Targets.{WorkItem, run_work_items}
use trimon.Probe.Run.{new_result, status_from_loss}

-- `probing.Statistics`; the loss is a percentage, and a time is as `Seconds()` gives it.
pub record Statistics (F : Type 0) : Type 0 where
  pub packets_sent : ℕ
  pub packets_recv : ℕ
  pub packet_loss : F
  pub min_rtt : F
  pub avg_rtt : F
  pub max_rtt : F
  pub stddev_rtt : F

-- `ctx.Err()` after the run.
pub data ContextState : Type 0 where
  alive deadline_exceeded cancelled : ContextState

abbrev pub is_alive : ContextState → Bool
is_alive alive = true
is_alive _ = false

-- The pinger: the error of making it, that of its run, and its statistics.
pub record Pinger (F : Type 0) : Type 0 where
  pub init_error : Option String
  pub run_error : Option String
  pub context : ContextState
  pub statistics : Statistics F

module _ {F : Type 0} (fl : FloatOps F) where
  abbrev milliseconds : F → F
  milliseconds seconds = fl.mul seconds (of_ℕ fl 1000)

  unfoldable pub apply_stats : ProbeResult F → Statistics F → ProbeResult F
  apply_stats result stats =
      let loss = fl.div stats.packet_loss (of_ℕ fl 100) in
      let counted = record result {
        packets_sent = stats.packets_sent;
        packets_received = stats.packets_recv;
        packet_loss_ratio = loss;
        status = status_from_loss fl loss;
      } in
      if ltb 0 stats.packets_recv
      then record counted {
        rtt_min_ms = milliseconds stats.min_rtt;
        rtt_mean_ms = milliseconds stats.avg_rtt;
        rtt_max_ms = milliseconds stats.max_rtt;
        rtt_stddev_ms = milliseconds stats.stddev_rtt;
      }
      else counted

  unfoldable pub no_packets : ContextState → ProbeResult F → ProbeResult F
  no_packets context result =
      let failed = record result { status = error; error_msg = "no packets sent" } in
      elim context [ deadline_exceeded ↦ record failed { error_type = "timeout" } | _ ↦ failed ]

  unfoldable pub after_run : Pinger F → ProbeResult F → ProbeResult F
  after_run pinger result =
      if pinger.statistics.packets_sent == 0
      then no_packets pinger.context result
      else apply_stats result pinger.statistics

  -- A run error counts only while the context is alive.
  unfoldable pub run_pinger : Pinger F → ProbeResult F → ProbeResult F
  run_pinger pinger result = elim pinger.run_error [
    | none ↦ after_run pinger result
    | some e ↦
        if is_alive pinger.context
        then record result { status = error; error_type = "run_error"; error_msg = e }
        else after_run pinger result
  ]

  unfoldable pub probe_one : ℕ → ProbeConfig → WorkItem → Pinger F → ProbeResult F
  probe_one now cfg wi pinger =
      let (result, fresh) = new_result fl now cfg wi "icmp" in
      if not fresh then result else elim pinger.init_error [
        | some e ↦ record result { status = error; error_type = "init_error"; error_msg = e }
        | none ↦ run_pinger pinger result
      ]

  -- Each slot has its own pinger.
  unfoldable pub run :
      Host → ProbeResult F → (ℕ → ℕ) → ProbeConfig → (ℕ → Pinger F) → List ℕ → List (ProbeResult F)
  run host zero_result now cfg pingers order =
      run_work_items host cfg.targets cfg.max_resolved_ips zero_result
        (λ slot wi. probe_one (now slot) cfg wi (pingers slot)) order
