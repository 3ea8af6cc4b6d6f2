-- ===== src/Scheduler.antt =====
-- internal/scheduler/scheduler.go: the table of workers. A goroutine has a number, and `live` holds
-- those that run; a call of a cancel function and the wait for its goroutine take one out.
pub mod Tables
pub mod Reload
pub mod Names
pub mod Leak
pub mod Crash
use trimon.Base.{
  ℕ, suc, String, Bool, true, false, not, ◌||◌, List, [], ◌∷◌, map, any, length, ◌==◌, str_eq,
  if◌then◌else◌,
}
use trimon.Base.Int.{ℤ, pos, leb_ℤ}
use trimon.Types.{ProbeConfig}

-- `crashed`: a goroutine has panicked, which ends the program.
pub record Scheduler : Type 0 where
  pub workers : List (String × ℕ)
  pub live : List ℕ
  pub next : ℕ
  pub crashed : Bool

-- `s.workers[name] = w` on the table.
unfoldable pub assign : String → ℕ → List (String × ℕ) → List (String × ℕ)
assign name id [] = (name, id) ∷ []
assign name id ((k, i) ∷ ws) =
    let rest = assign name id ws in if str_eq k name then (name, id) ∷ ws else (k, i) ∷ rest

abbrev pub ids : List (String × ℕ) → List ℕ
ids ws = map (λ w. w.1) ws

abbrev pub keys : List (String × ℕ) → List String
keys ws = map (λ w. w.0) ws

-- The goroutines left when those of the table have exited.
unfoldable pub without : List ℕ → List ℕ → List ℕ
without [] gone = []
without (i ∷ live) gone =
    let rest = without live gone in if any (λ g. g == i) gone then rest else i ∷ rest

unfoldable pub stop : Scheduler → Scheduler
unfolding without
stop s = record s { workers = []; live = without s.live (ids s.workers) }

-- `builds` is whether the factory makes a probe of a configuration.
module _ (builds : ProbeConfig → Bool) where
  -- `time.NewTicker` panics on an interval that is not positive.
  unfoldable pub start_locked : Scheduler → ProbeConfig → Scheduler
  unfolding assign
  start_locked s cfg =
      if builds cfg
      then record {
        workers = assign cfg.name s.next s.workers;
        live = s.next ∷ s.live;
        next = suc s.next;
        crashed = s.crashed || leb_ℤ cfg.interval (pos 0);
      }
      else s

  unfoldable pub start : Scheduler → List ProbeConfig → Scheduler
  unfolding start_locked
  start s [] = s
  start s (cfg ∷ cfgs) = start (start_locked s cfg) cfgs

  unfoldable pub reload : Scheduler → List ProbeConfig → Scheduler
  unfolding start stop
  reload s cfgs = start (stop s) cfgs

abbrev pub worker_count : Scheduler → ℕ
worker_count s = length s.workers
