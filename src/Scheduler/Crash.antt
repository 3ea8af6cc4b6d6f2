-- ===== src/Scheduler/Crash.antt =====
-- Whether a start crashes: `time.NewTicker` panics in the goroutine of a probe whose interval is not positive.
use trimon.Base.{◌≡◌, Bool, true, ◌||◌, List, [], ◌∷◌, any, All, arith}
use trimon.Base.Int.{pos, leb_ℤ}
use trimon.Types.{ProbeConfig}
use trimon.Scheduler.{Scheduler, start_locked, start, stop, reload}

abbrev pub stalls : ProbeConfig → Bool
stalls cfg = leb_ℤ cfg.interval (pos 0)

module _ (builds : ProbeConfig → Bool) where
  pub start-crashed :
      (s : Scheduler) (cfgs : List ProbeConfig)
      → All (λ cfg. builds cfg ≡ true) cfgs
      → (start builds s cfgs).crashed ≡ (s.crashed || any stalls cfgs)
  unfolding start start_locked
  start-crashed s [] b = ground arith
  start-crashed s (cfg ∷ cfgs) b =
      let rest = start-crashed (start_locked builds s cfg) cfgs b.1 in
      let h = b.0 in ground (arith, rest, h)

  pub reload-crashed :
      (s : Scheduler) (cfgs : List ProbeConfig)
      → All (λ cfg. builds cfg ≡ true) cfgs
      → (reload builds s cfgs).crashed ≡ (s.crashed || any stalls cfgs)
  unfolding reload stop
  reload-crashed s cfgs b = start-crashed (stop s) cfgs b
