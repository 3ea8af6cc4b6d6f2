-- ===== src/Pipeline/Fleet/Exports.antt =====
-- What the exporters have got when `Run` has returned: the goroutines of internal/scheduler and
-- internal/pipeline with the loop of dispatch.
use trimon.Base.{ℕ, ◌≡◌, ap, ◌∙◌, String, List}
use trimon.Pipeline.{Exporter, drain}
use trimon.Pipeline.Dispatch.{exports, failures, to_all, failing, concat_map, drain-all}
use trimon.Pipeline.Fleet.{returned, Fleet, at_start, Steps, IsClean}
use trimon.Pipeline.Fleet.Orders.{Steps-Orderly}

module _ {R : Type 0} (owner : R → String) where
  -- When `Run` has returned, in a run where, when main began its last Stop, every goroutine of a probe
  -- that had not exited was in the table, and no probe was started afterwards: its calls of dispatch,
  -- before and after the cancel, have given every result that the channel ever took to every
  -- exporter, in the order in which they were sent, whether or not exporters failed, and have
  -- recorded an error for each exporter that failed for a result, and only for those.
  pub returned-exports :
      (capacity : ℕ) (exps : List (Exporter R)) (f : Fleet R)
      (steps : Steps owner (at_start capacity) f)
      → IsClean owner steps
      → f.phase ≡ returned
      → (exports (drain exps f.dispatched) ≡ concat_map (to_all exps) f.taken)
        × (failures (drain exps f.dispatched) ≡ concat_map (failing exps) f.taken)
  returned-exports capacity exps f steps clean done =
      let all = (Steps-Orderly owner capacity steps clean).complete done in
      let (calls, errors) = drain-all exps f.dispatched in
      (calls ∙ ap (concat_map (to_all exps)) all, errors ∙ ap (concat_map (failing exps)) all)
