-- ===== src/Pipeline/Fleet/Exits.antt =====
-- How the goroutines that a Stop waits for exit, from wherever they are.
use trimon.Base.{
  String, ◌≡◌, refl, sym, ap, ◌∙◌, Bool, true, false, List, [], ◌∷◌, ◌++◌, map, arith, ◌⊎◌, inl,
  inr, if◌then◌else◌, Bool-cases,
}
use mathlib.Core.List.{append_assoc}
use trimon.Pipeline.{Sent, panicked, full, stored, send}
use trimon.Pipeline.Fleet.{
  Hold, is_main, is_reload, Activity, waiting, probing, exited, sending, Worker, Fleet, alive,
  report, all_sent, exit, move, send_result, drop_result, cancel_worker, Steps, here, step,
}
use trimon.Pipeline.Fleet.Sound.{send-IsStored, send_open}

module _ {R : Type 0} (owner : R → String) where
  pub chain : {f g h : Fleet R} → Steps owner f g → Steps owner g h → Steps owner f h
  chain first (here _) = first
  chain first (step second last) = step (chain first second) last

  -- Steps that only change the workers, to these, and what they sent, with the channel open.
  pub record Progress (f : Fleet R) (ws : List (Worker R)) : Type 0 where
    pub end : Fleet R
    pub steps : Steps owner f end
    pub workers : end.workers ≡ ws
    pub stopping : end.stopping ≡ f.stopping
    pub still_open : end.channel.closed ≡ false

  abbrev doing : Worker R → Activity R → Worker R
  doing w a = record w { activity = a }

  after :
      {f : Fleet R} {vs ws : List (Worker R)} (p : Progress f vs)
      → Progress p.end ws
      → Progress f ws
  after p q = record {
    end = q.end;
    steps = chain p.steps q.steps;
    workers = q.workers;
    stopping = q.stopping ∙ p.stopping;
    still_open = q.still_open;
  }

  -- A worker sends, or drops, one result.
  send_one :
      (f : Fleet R) (us ws : List (Worker R)) (w : Worker R) (r : R) (rs : List R)
      → f.channel.closed ≡ false
      → f.workers ≡ us ++ w ∷ ws
      → w.activity ≡ sending (r ∷ rs)
      → Progress f (us ++ doing w (sending rs) ∷ ws)
  send_one f us ws w r rs o e a = go (send f.channel r) refl
    where
      go : (out : Sent R) → send f.channel r ≡ out → Progress f (us ++ doing w (sending rs) ∷ ws)
      go panicked s = absurd (send_open f.channel r o s)
      go full s = record {
        end = _;
        steps = step (here f) (drop_result f us ws w r rs e a s);
        workers = refl;
        stopping = refl;
        still_open = o;
      }
      go (stored ch) s = record {
        end = _;
        steps = step (here f) (send_result f us ws w r rs ch e a s);
        workers = refl;
        stopping = refl;
        still_open = (send-IsStored f.channel r ch s).still_open;
      }

  -- From its select, a cancelled worker exits.
  leave :
      (f : Fleet R) (us ws : List (Worker R)) (w : Worker R)
      → f.channel.closed ≡ false
      → f.workers ≡ us ++ w ∷ ws
      → w.activity ≡ waiting
      → w.cancelled ≡ true
      → Progress f (us ++ doing w exited ∷ ws)
  leave f us ws w o e a c = record {
    end = _;
    steps = step (here f) (move f us ws w (doing w exited) e (exit w a c));
    workers = refl;
    stopping = refl;
    still_open = o;
  }

  -- It sends what is left, and exits.
  finish :
      (rs : List R) (f : Fleet R) (us ws : List (Worker R)) (w : Worker R)
      → f.channel.closed ≡ false
      → f.workers ≡ us ++ w ∷ ws
      → w.activity ≡ sending rs
      → w.cancelled ≡ true
      → Progress f (us ++ doing w exited ∷ ws)
  finish [] f us ws w o e a c =
      let one : Progress f (us ++ doing w waiting ∷ ws) = record {
        end = _;
        steps = step (here f) (move f us ws w (doing w waiting) e (all_sent w a));
        workers = refl;
        stopping = refl;
        still_open = o;
      } in
      after one (leave one.end us ws (doing w waiting) o refl refl c)
  finish (r ∷ rs) f us ws w o e a c =
      let one = send_one f us ws w r rs o e a in
      after one (finish rs one.end us ws (doing w (sending rs)) one.still_open one.workers refl c)

  exit_worker :
      (f : Fleet R) (us ws : List (Worker R)) (w : Worker R)
      → f.channel.closed ≡ false
      → f.workers ≡ us ++ w ∷ ws
      → w.cancelled ≡ true
      → Progress f (us ++ doing w exited ∷ ws)
  exit_worker f us ws w o e c = go w.activity refl
    where
      go : (a : Activity R) → w.activity ≡ a → Progress f (us ++ doing w exited ∷ ws)
      go waiting a = leave f us ws w o e a c
      go probing a =
          let one : Progress f (us ++ doing w (sending []) ∷ ws) = record {
            end = _;
            steps = step (here f) (move f us ws w (doing w (sending [])) e (report w [] a tt));
            workers = refl;
            stopping = refl;
            still_open = o;
          } in
          after one (finish [] one.end us ws (doing w (sending [])) o refl refl c)
      go exited a = record {
        end = f;
        steps = here f;
        workers = e ∙ ap (λ x. us ++ doing w x ∷ ws) a;
        stopping = refl;
        still_open = o;
      }
      go (sending rs) a = finish rs f us ws w o e a c

  abbrev ended : Worker R → Worker R
  ended w = record w { cancelled = true; activity = exited }

  -- A Stop cancels a worker that it took, which then exits.
  end_worker :
      (f : Fleet R) (us ws : List (Worker R)) (w : Worker R)
      → f.channel.closed ≡ false
      → f.workers ≡ us ++ w ∷ ws
      → (is_main w.hold ≡ true) ⊎ (is_reload w.hold ≡ true)
      → Progress f (us ++ ended w ∷ ws)
  end_worker f us ws w o e h =
      let one : Progress f (us ++ (record w { cancelled = true }) ∷ ws) = record {
        end = _;
        steps = step (here f) (cancel_worker f us ws w e h);
        workers = refl;
        stopping = refl;
        still_open = o;
      } in
      after one (exit_worker one.end us ws (record w { cancelled = true }) o refl refl)

  module _ (p : Hold → Bool)
      (awaited : (h : Hold) → p h ≡ true → (is_main h ≡ true) ⊎ (is_reload h ≡ true)) where
    abbrev pub ended_if : Worker R → Worker R
    ended_if w = if p w.hold then ended w else w

    end_if :
        (f : Fleet R) (us ws : List (Worker R)) (w : Worker R)
        → f.channel.closed ≡ false
        → f.workers ≡ us ++ w ∷ ws
        → Progress f (us ++ ended_if w ∷ ws)
    end_if f us ws w o e = elim (Bool-cases (p w.hold)) [
      | inl h ↦ rw h (end_worker f us ws w o e (awaited w.hold h))
      | inr h ↦
          rw h (record { end = f; steps = here f; workers = e; stopping = refl; still_open = o })
    ]

    -- All that are awaited, one after the other.
    pub end_workers :
        (ws us : List (Worker R)) (f : Fleet R)
        → f.channel.closed ≡ false
        → f.workers ≡ us ++ ws
        → Progress f (us ++ map ended_if ws)
    end_workers [] us f o e = record {
      end = f;
      steps = here f;
      workers = e;
      stopping = refl;
      still_open = o;
    }
    end_workers (w ∷ ws) us f o e =
        let one = end_if f us ws w o e in
        let more =
          end_workers ws (us ++ ended_if w ∷ []) one.end one.still_open
            (one.workers ∙ sym (append_assoc us (ended_if w ∷ []) ws)) in
        let all = after one more in
        record {
          end = all.end;
          steps = all.steps;
          workers = all.workers ∙ append_assoc us (ended_if w ∷ []) (map ended_if ws);
          stopping = all.stopping;
          still_open = all.still_open;
        }

    pub none_left : (ws : List (Worker R)) → alive p (map ended_if ws) ≡ 0
    unfolding alive
    none_left [] = refl
    none_left (w ∷ ws) = elim (Bool-cases (p w.hold)) [
      | inl h ↦ rw h (ground (arith, h, none_left ws))
      | inr h ↦ rw h (ground (arith, h, none_left ws))
    ]
