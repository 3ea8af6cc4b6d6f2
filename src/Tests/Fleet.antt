-- ===== src/Tests/Fleet.antt =====
-- Tests of the goroutines together: one probe, which reports two results to a buffer of one.
use trimon.Base.{
  Bool, inl, ◌&&◌, ℕ, ◌+◌, ◌≡◌, refl, String, true, false, none, some, List, if◌then◌else◌, ◌==◌,
  [], ◌∷◌, count_if,
}
use trimon.Types.{is_error}
use trimon.Types.Floats.{exact}
use trimon.Pipeline.{Exporter, drain, Channel, full, stored, send}
use trimon.Pipeline.Fleet.{
  closing, returned, Activity, probing, waiting, exited, sending, tabled, by_main, is_main,
  is_reload, Worker, Fleet, alive, at_start, tick, report, all_sent, exit, launch, stop_main,
  cancel_worker, move, send_result, drop_result, cancel, receive, see_done, see_empty, close, Steps,
  here, step, IsClean,
}
use trimon.Pipeline.Fleet.Orders.{Orderly, Steps-Orderly}
use trimon.Pipeline.Fleet.Late.{AboutToPanic, late_start_panics}
use trimon.Pipeline.Dispatch.{exports, failures}
use trimon.Pipeline.Fleet.Exports.{returned-exports}
use trimon.Pipeline.Fleet.Ends.{HasEnded, shutdown_ends}
use trimon.Exporters.Otlp.{probe_runs, probe_errors, results_dropped}
use trimon.Exporters.Otlp.Readings.{total, has_attr}
use trimon.Exporters.Otlp.Totals.{of_name}
use trimon.Main.Accounts.{calls_of, returned-accounts}
use trimon.Tests.Exporters.{plain}

module _ {R : Type 0} (r : R) where
  abbrev probe : Activity R → Worker R
  probe a = record { name = "gateway"; hold = tabled; cancelled = false; activity = a }

  -- Taken by main's Stop.
  abbrev taken_by : Bool → Activity R → Worker R
  taken_by c a = record { name = "gateway"; hold = by_main; cancelled = c; activity = a }

  abbrev one_item : Channel R
  one_item = record { capacity = 1; items = r ∷ []; closed = false }

  abbrev started : Fleet R
  started = record (at_start 1) { workers = probe (sending (r ∷ r ∷ [])) ∷ [] }

  abbrev stored_one : Fleet R
  stored_one = record started {
    workers = probe (sending (r ∷ [])) ∷ [];
    channel = one_item;
    taken = r ∷ [];
    tried = r ∷ [];
  }

  abbrev dropped_one : Fleet R
  dropped_one = record stored_one {
    workers = probe (sending []) ∷ [];
    dropped = ("gateway", r) ∷ [];
    tried = r ∷ r ∷ [];
  }

  abbrev stopped : Fleet R
  stopped = record dropped_one { stopping = true; workers = taken_by true exited ∷ [] }

  abbrev drained : Fleet R
  drained = record stopped {
    cancelled = true;
    phase = closing;
    channel = record one_item { items = [] };
    dispatched = r ∷ [];
  }

  abbrev ended : Fleet R
  ended = record drained {
    phase = returned;
    channel = record { capacity = 1; items = []; closed = true };
  }

  sent : send (at_start {R = R} 1).channel r ≡ stored one_item
  unfolding send
  sent = refl

  is_full : send one_item r ≡ full
  unfolding send
  is_full = refl

  none_alive : alive is_main stopped.workers ≡ 0
  unfolding alive
  none_alive = refl

module _ {R : Type 0} (owner : R → String) (r : R) (own : owner r ≡ "gateway") where
  to_started : Steps owner (at_start 1) (started r)
  to_started =
      step
        (step (step (here (at_start 1)) (launch (at_start 1) "gateway"))
          (move _ [] [] (probe r waiting) (probe r probing) refl (tick (probe r waiting) refl)))
        (move _ [] [] (probe r probing) (probe r (sending (r ∷ r ∷ []))) refl
          (report (probe r probing) (r ∷ r ∷ []) refl (own, (own, tt))))

  to_dropped : Steps owner (at_start 1) (dropped_one r)
  to_dropped =
      step
        (step to_started (
          send_result (started r) [] [] (probe r (sending (r ∷ r ∷ []))) r (r ∷ []) (one_item r)
            refl refl (sent r)))
        (drop_result (stored_one r) [] [] (probe r (sending (r ∷ []))) r [] refl refl (is_full r))

  to_stopped : Steps owner (at_start 1) (stopped r)
  to_stopped =
      step
        (step
          (step (step to_dropped (stop_main (dropped_one r) refl))
            (cancel_worker _ [] [] (taken_by r false (sending [])) refl (inl refl)))
          (move _ [] [] (taken_by r true (sending [])) (taken_by r true waiting) refl
            (all_sent (taken_by r true (sending [])) refl)))
        (move _ [] [] (taken_by r true waiting) (taken_by r true exited) refl
          (exit (taken_by r true waiting) refl refl))

  to_end : Steps owner (at_start 1) (ended r)
  to_end =
      step
        (step
          (step
            (step (step to_stopped (cancel (stopped r) refl (none_alive r))) (see_done _ refl refl))
            (receive _ r [] refl refl))
          (see_empty _ refl refl))
        (close (drained r) refl)

  clean : IsClean owner to_end
  unfolding IsClean to_end to_stopped to_dropped to_started
  clean = (
    (((((((((((((tt, refl), tt), tt), tt), tt), (refl, tt)), tt), tt), tt), tt), tt), tt), tt),
    tt,
  )

Steps-Orderly_example : Orderly (ended {R = ℕ} 7)
Steps-Orderly_example =
    Steps-Orderly (λ n. "gateway") 1 (to_end (λ n. "gateway") 7 refl)
      (clean (λ n. "gateway") 7 refl)

shutdown_ends_example :
    ((g : Fleet ℕ) × Steps (λ n. "gateway") (started 7) g
      × (alive is_reload g.workers ≡ 0)
      × (g.stopping ≡ false))
    × ((g : Fleet ℕ) × Steps (λ n. "gateway") (started 7) g × HasEnded g)
shutdown_ends_example =
    shutdown_ends (λ n. "gateway") 1 (started 7) (to_started (λ n. "gateway") 7 refl) refl

late_start_panics_example :
    (g : Fleet ℕ) × Steps (λ n. "gateway") (ended 7) g × AboutToPanic (λ n. "gateway") (ended 7) g 9
late_start_panics_example =
    late_start_panics (λ n. "gateway") 1 (ended 7) (to_end (λ n. "gateway") 7 refl) refl 9

abbrev exporters : List (Exporter ℕ)
exporters =
    record { name = "otlp"; export = λ r. if r == 7 then some "refused" else none }
    ∷ record { name = "stdout"; export = λ r. none }
    ∷ []

returned-exports_example :
    (exports (drain exporters (ended {R = ℕ} 7).dispatched) ≡ ("otlp", 7) ∷ ("stdout", 7) ∷ [])
    × (failures (drain exporters (ended {R = ℕ} 7).dispatched) ≡ "otlp" ∷ [])
returned-exports_example =
    returned-exports (λ n. "gateway") 1 exporters (ended 7) (to_end (λ n. "gateway") 7 refl)
      (clean (λ n. "gateway") 7 refl) refl

returned-accounts_example :
    (total probe_runs (has_attr "probe.name" "gateway") (calls_of exact (ended plain))
        + total results_dropped (has_attr "probe.name" "gateway") (calls_of exact (ended plain))
      ≡ 2)
    × (total probe_errors (has_attr "probe.name" "gateway") (calls_of exact (ended plain))
          + count_if (λ d. of_name exact "gateway" d.1 && is_error d.1.status) (ended plain).dropped
        ≡ 0)
returned-accounts_example =
    returned-accounts exact 1 (ended plain) "gateway" (to_end (λ r. r.probe_name) plain refl)
      (clean (λ r. r.probe_name) plain refl) refl
