-- ===== src/Pipeline/Fleet/Orders.antt =====
-- What holds of a run whose shutdown no reload disturbs.
use mathlib.Core.List.{append-nil}
use trimon.Base.{
  ℕ, ◌≤◌, ◌≡◌, ◌≢◌, refl, sym, ap, ◌∙◌, subst, String, true, List, [], ◌∷◌, ◌++◌, length, arith,
  All, All-append, All-split, All-map, if◌then◌else◌,
}
use trimon.Pipeline.{panicked, send}
use trimon.Pipeline.Fleet.{
  running, draining, returned, is_main, is_tabled, by_main, by_reload, sending, Worker, Fleet, take,
  is_alive, alive, at_start, Move, tick, report, all_sent, exit, Step, launch, stop_reload,
  stop_main, cancel_worker, move, send_result, drop_result, cancel, receive, see_done, see_empty,
  close, Steps, here, step, IsClean, IsCleanStep,
}
use trimon.Pipeline.Fleet.Sound.{
  send_open, Counted, IsSound, taken_by_main, taken_by_reload, Steps-IsSound,
}

module _ {R : Type 0} where
  -- What a clean run promises.
  pub record Orderly (f : Fleet R) : Type 0 where
    -- First in, first out, with nothing lost: what was taken and not dispatched is in the buffer.
    pub kept : f.taken ≡ f.dispatched ++ f.channel.items
    pub bounded : length f.channel.items ≤ f.channel.capacity
    -- When `Run` has returned, all that was taken is dispatched.
    pub complete : f.phase ≡ returned → f.dispatched ≡ f.taken
    -- A result that a probe sent is in the channel's books or in the recorder's.
    pub counted : Counted f
    -- No send panics.
    pub safe :
        (us ws : List (Worker R)) (w : Worker R) (r : R) (rs : List R)
        → f.workers ≡ us ++ w ∷ ws
        → w.activity ≡ sending (r ∷ rs)
        → send f.channel r ≢ panicked
    -- After the cancel, every goroutine of a probe has exited.
    pub silent : f.cancelled ≡ true → All (λ w. is_alive w ≡ 0) f.workers

module _ {R : Type 0} (owner : R → String) where
  -- Held by main, or at its end.
  abbrev IsMains : Worker R → Type 0
  IsMains w = is_alive w ≤ (if is_main w.hold then is_alive w else 0)

  -- What every step of a clean run keeps.
  record IsQuiet (f : Fleet R) : Type 0 where
    mains : f.stopping ≡ true → All IsMains f.workers
    silent : f.cancelled ≡ true → All (λ w. is_alive w ≡ 0) f.workers
    emptied : f.phase ≢ running → f.phase ≢ draining → f.channel.items ≡ []

  -- One worker changes among the others.
  changed :
      (P : Worker R → Type 0) (all us ws : List (Worker R)) (w w' : Worker R)
      → all ≡ us ++ w ∷ ws
      → (P w → P w')
      → All P all
      → All P (us ++ w' ∷ ws)
  changed P all us ws w w' e keep h =
      let (a, b) = All-split P us (w ∷ ws) (subst (All P) e h) in
      All-append P us (w' ∷ ws) a (keep b.0, b.1)

  Move-IsMains : {w w' : Worker R} → Move owner w w' → IsMains w → IsMains w'
  Move-IsMains (tick w e) h = ground (arith, e, h)
  Move-IsMains (report w results e o) h = ground (arith, e, h)
  Move-IsMains (all_sent w e) h = ground (arith, e, h)
  Move-IsMains (exit w e c) h = omega arith

  Move-ended : {w w' : Worker R} → Move owner w w' → is_alive w ≡ 0 → is_alive w' ≡ 0
  Move-ended (tick w e) h = ground (arith, e, h)
  Move-ended (report w results e o) h = ground (arith, e, h)
  Move-ended (all_sent w e) h = ground (arith, e, h)
  Move-ended (exit w e c) h = refl

  take-IsMains :
      (w : Worker R)
      → is_alive w ≡ (if is_tabled w.hold then is_alive w else 0)
      → IsMains (take by_main w)
  take-IsMains w h = taken_by_main w.hold (is_alive w) h

  take_reload-IsMains : (w : Worker R) → IsMains w → IsMains (take by_reload w)
  take_reload-IsMains w h = taken_by_reload w.hold (is_alive w) h

  mains_ended :
      (ws : List (Worker R)) → alive is_main ws ≡ 0 → All IsMains ws → All (λ w. is_alive w ≡ 0) ws
  unfolding alive
  mains_ended [] e h = tt
  mains_ended (w ∷ ws) e h = (omega (arith, e, h.0), mains_ended ws (omega (arith, e)) h.1)

  -- A worker that sends has not ended.
  sends_ended :
      (all us ws : List (Worker R)) (w : Worker R) (rs : List R)
      → all ≡ us ++ w ∷ ws
      → w.activity ≡ sending rs
      → All (λ v. is_alive v ≡ 0) all
      → ⊥
  sends_ended all us ws w rs e a h =
      let (x, y) =
        All-split (λ v. is_alive v ≡ 0) us (w ∷ ws) (subst (All (λ v. is_alive v ≡ 0)) e h) in
      let one : is_alive w ≡ 1 = rw a refl in absurd (omega (arith, y.0, one))

  Step-IsQuiet :
      {f g : Fleet R} (s : Step owner f g) → IsCleanStep owner s → IsSound f → IsQuiet f → IsQuiet g
  Step-IsQuiet (launch f name) c i q = record {
    mains = λ x. cc;
    silent = λ x. let y = i.ordered x in cc;
    emptied = q.emptied;
  }
  Step-IsQuiet (stop_reload f) c i q = record {
    mains = λ x. All-map IsMains IsMains (take by_reload) take_reload-IsMains f.workers (q.mains x);
    silent = λ x. All-map _ _ (take by_reload) (λ w h. h) f.workers (q.silent x);
    emptied = q.emptied;
  }
  Step-IsQuiet (stop_main f e) c i q = record {
    mains = λ x. All-map _ IsMains (take by_main) take-IsMains f.workers c;
    silent = λ x. let y = i.ordered x in cc;
    emptied = q.emptied;
  }
  Step-IsQuiet (cancel_worker f us ws w e h) c i q = record {
    mains = λ x. changed IsMains f.workers us ws w _ e (λ k. k) (q.mains x);
    silent = λ x. changed _ f.workers us ws w _ e (λ k. k) (q.silent x);
    emptied = q.emptied;
  }
  Step-IsQuiet (move f us ws w w' e m) c i q = record {
    mains = λ x. changed IsMains f.workers us ws w w' e (Move-IsMains m) (q.mains x);
    silent = λ x. changed _ f.workers us ws w w' e (Move-ended m) (q.silent x);
    emptied = q.emptied;
  }
  Step-IsQuiet (send_result f us ws w r rs ch e a s) c i q = record {
    mains = λ x. changed IsMains f.workers us ws w _ e (λ k. ground (arith, a, k)) (q.mains x);
    silent = λ x. absurd (sends_ended f.workers us ws w (r ∷ rs) e a (q.silent x));
    emptied = λ x y. absurd (sends_ended f.workers us ws w (r ∷ rs) e a (q.silent (i.waits x)));
  }
  Step-IsQuiet (drop_result f us ws w r rs e a s) c i q = record {
    mains = λ x. changed IsMains f.workers us ws w _ e (λ k. ground (arith, a, k)) (q.mains x);
    silent = λ x. absurd (sends_ended f.workers us ws w (r ∷ rs) e a (q.silent x));
    emptied = q.emptied;
  }
  Step-IsQuiet (cancel f e n) c i q = record {
    mains = q.mains;
    silent = λ x. mains_ended f.workers n (q.mains e);
    emptied = q.emptied;
  }
  Step-IsQuiet (receive f r rs p e) c i q = record {
    mains = q.mains;
    silent = q.silent;
    emptied = λ x y. let z = q.emptied x y in cc;
  }
  Step-IsQuiet (see_done f p e) c i q = record {
    mains = q.mains;
    silent = q.silent;
    emptied = λ x y. absurd (y refl);
  }
  Step-IsQuiet (see_empty f p e) c i q = record {
    mains = q.mains;
    silent = q.silent;
    emptied = λ x y. e;
  }
  Step-IsQuiet (close f p) c i q = record {
    mains = q.mains;
    silent = q.silent;
    emptied = λ x y. q.emptied (λ z. cc) (λ z. cc);
  }

  Steps-IsQuiet :
      (capacity : ℕ) {f : Fleet R} (steps : Steps owner (at_start capacity) f)
      → IsClean owner steps
      → IsQuiet f
  unfolding IsClean
  Steps-IsQuiet capacity (here _) c = record {
    mains = λ x. tt;
    silent = λ x. tt;
    emptied = λ x y. refl;
  }
  Steps-IsQuiet capacity (step first last) c =
      Step-IsQuiet last c.1 (Steps-IsSound owner capacity first) (Steps-IsQuiet capacity first c.0)

  -- In a run where, when main begins its last Stop, every goroutine of a probe that has not exited is in
  -- the table, and no probe is started afterwards; whatever results under its own name a Run of a
  -- probe gives, in whatever order goroutines step, and however reloads stop and start probes before:
  -- at any time, what the channel took is dispatched in order or in the buffer, which keeps to its
  -- capacity; all of it is dispatched when `Run` has returned; each result was taken or dropped, as
  -- often as probes tried to send it; no goroutine in the middle of its sends meets a closed channel;
  -- and all have exited once the pipeline is cancelled.
  pub Steps-Orderly :
      (capacity : ℕ) {f : Fleet R} (steps : Steps owner (at_start capacity) f)
      → IsClean owner steps
      → Orderly f
  Steps-Orderly capacity {f} steps clean =
      let i = Steps-IsSound owner capacity steps in
      let q = Steps-IsQuiet capacity steps clean in
      record {
        kept = i.kept;
        bounded = i.bounded;
        complete = λ x. sym (
            i.kept
            ∙ (ap (λ xs. f.dispatched ++ xs) (q.emptied (λ y. cc) (λ y. cc))
                ∙ append-nil f.dispatched));
        counted = i.counted;
        safe = λ us ws w r rs e a. send_open f.channel r (
            i.opened
              (λ x. sends_ended f.workers us ws w (r ∷ rs) e a (q.silent (i.waits (λ y. cc)))));
        silent = q.silent;
      }
