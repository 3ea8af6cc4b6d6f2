-- ===== src/Pipeline/Fleet.antt =====
-- internal/scheduler/scheduler.go (the table, Start, Stop, and the goroutine of startLocked),
-- internal/pipeline/pipeline.go (Run) and the shutdown of cmd/trimon/main.go, goroutine by goroutine. A
-- step is one of one goroutine; the steps come in any order. A Stop waits only for the goroutines that it
-- took from the table. A send that panics ends the program and is no step.
pub mod Sound
pub mod Orders
pub mod Exits
pub mod Ends
pub mod Named
pub mod Exports
pub mod Late
use trimon.Base.{
  All, ℕ, ◌≡◌, String, Bool, true, false, List, [], ◌∷◌, ◌++◌, ◌+◌, map, str_eq, ◌&&◌,
  if◌then◌else◌, ◌⊎◌,
}
use trimon.Pipeline.{Channel, full, stored, send}

-- Where `Run` is: in its main loop, draining, past the `default` of its drain, or returned.
pub data Phase : Type 0 where
  running draining closing returned : Phase

-- Whether `Run` is at a select that receives.
abbrev pub receives : Phase → Bool
receives running = true
receives draining = true
receives _ = false

-- Where the goroutine of a probe is: in its select, in `p.Run`, sending the results left, or at its end.
pub data Activity (R : Type 0) : Type 0 where
  waiting probing exited : Activity R
  sending : List R → Activity R

-- Who has the cancel function and the channel `done` of a worker: the table, the Stop of a reload, that of
-- main, or nobody, after another worker was put under its name.
pub data Hold : Type 0 where
  tabled by_reload by_main lost : Hold

abbrev pub is_tabled : Hold → Bool
is_tabled tabled = true
is_tabled _ = false

abbrev pub is_main : Hold → Bool
is_main by_main = true
is_main _ = false

abbrev pub is_reload : Hold → Bool
is_reload by_reload = true
is_reload _ = false

-- `cancelled` is whether its context is.
pub record Worker (R : Type 0) : Type 0 where
  pub name : String
  pub hold : Hold
  pub cancelled : Bool
  pub activity : Activity R

pub record Fleet (R : Type 0) : Type 0 where
  pub workers : List (Worker R)
  -- Whether main has called the Stop of its shutdown, and the cancel of the pipeline.
  pub stopping : Bool
  pub cancelled : Bool
  pub channel : Channel R
  pub phase : Phase
  -- The results that the channel took, those dispatched, and those dropped, under the name of the probe
  -- that the recorder is called with.
  pub taken : List R
  pub dispatched : List R
  pub dropped : List (String × R)
  -- The results that probes tried to send.
  pub tried : List R

module _ {R : Type 0} where
  abbrev pub launched : String → Worker R
  launched name = record { name = name; hold = tabled; cancelled = false; activity = waiting }

  -- `s.workers[name] = w`: what stood there is forgotten.
  abbrev pub overwrite : String → Worker R → Worker R
  overwrite name w = record w {
    hold = if is_tabled w.hold && str_eq w.name name then lost else w.hold;
  }

  -- The first part of a Stop: the table is emptied.
  abbrev pub take : Hold → Worker R → Worker R
  take h w = record w { hold = if is_tabled w.hold then h else w.hold }

  -- The goroutines that have not ended.
  abbrev pub is_alive : Worker R → ℕ
  is_alive w = elim w.activity [ exited ↦ 0 | _ ↦ 1 ]

  -- The goroutines that have not ended, of those whose holder passes a test.
  unfoldable pub alive : (Hold → Bool) → List (Worker R) → ℕ
  alive p [] = 0
  alive p (w ∷ ws) = (if p w.hold then is_alive w else 0) + alive p ws

  abbrev pub at_start : ℕ → Fleet R
  at_start capacity = record {
    workers = [];
    stopping = false;
    cancelled = false;
    channel = record { capacity = capacity; items = []; closed = false };
    phase = running;
    taken = [];
    dispatched = [];
    dropped = [];
    tried = [];
  }

-- `owner` is the probe name in a result: a Run gives results of its own probe.
module _ {R : Type 0} (owner : R → String) where
  -- One goroutine's own step. With a cancelled context and a tick, the select takes either.
  pub data Move : Worker R → Worker R → Type 0 where
    tick : (w : Worker R) → w.activity ≡ waiting → Move w (record w { activity = probing })
    report :
        (w : Worker R) (results : List R)
        → w.activity ≡ probing
        → All (λ r. owner r ≡ w.name) results
        → Move w (record w { activity = sending results })
    all_sent : (w : Worker R) → w.activity ≡ sending [] → Move w (record w { activity = waiting })
    exit :
        (w : Worker R)
        → w.activity ≡ waiting
        → w.cancelled ≡ true
        → Move w (record w { activity = exited })

  pub data Step : Fleet R → Fleet R → Type 0 where
    -- startLocked, in the first Start or in one of a reload, which the server may run at any time: main
    -- shuts it down after all that is a step here.
    launch :
        (f : Fleet R) (name : String)
        → Step f (record f { workers = map (overwrite name) f.workers ++ launched name ∷ [] })
    -- The Stop of a reload, and the last Stop of main, take the table.
    stop_reload : (f : Fleet R) → Step f (record f { workers = map (take by_reload) f.workers })
    stop_main :
        (f : Fleet R)
        → f.stopping ≡ false
        → Step f (record f { stopping = true; workers = map (take by_main) f.workers })
    -- A Stop calls the cancel function of a worker that it took.
    cancel_worker :
        (f : Fleet R) (us ws : List (Worker R)) (w : Worker R)
        → f.workers ≡ us ++ w ∷ ws
        → (is_main w.hold ≡ true) ⊎ (is_reload w.hold ≡ true)
        → Step f (record f { workers = us ++ (record w { cancelled = true }) ∷ ws })
    move :
        (f : Fleet R) (us ws : List (Worker R)) (w w' : Worker R)
        → f.workers ≡ us ++ w ∷ ws
        → Move w w'
        → Step f (record f { workers = us ++ w' ∷ ws })
    send_result :
        (f : Fleet R) (us ws : List (Worker R)) (w : Worker R) (r : R) (rs : List R)
        (ch : Channel R)
        → f.workers ≡ us ++ w ∷ ws
        → w.activity ≡ sending (r ∷ rs)
        → send f.channel r ≡ stored ch
        → Step f (record f {
          workers = us ++ (record w { activity = sending rs }) ∷ ws;
          channel = ch;
          taken = f.taken ++ r ∷ [];
          tried = f.tried ++ r ∷ [];
        })
    drop_result :
        (f : Fleet R) (us ws : List (Worker R)) (w : Worker R) (r : R) (rs : List R)
        → f.workers ≡ us ++ w ∷ ws
        → w.activity ≡ sending (r ∷ rs)
        → send f.channel r ≡ full
        → Step f (record f {
          workers = us ++ (record w { activity = sending rs }) ∷ ws;
          dropped = f.dropped ++ (w.name, r) ∷ [];
          tried = f.tried ++ r ∷ [];
        })
    -- main: its Stop returns when the workers that it took have exited.
    cancel :
        (f : Fleet R)
        → f.stopping ≡ true
        → alive is_main f.workers ≡ 0
        → Step f (record f { cancelled = true })
    -- `Pipeline.Run`. Its drain finds the channel empty, and closes it later.
    receive :
        (f : Fleet R) (r : R) (rs : List R)
        → receives f.phase ≡ true
        → f.channel.items ≡ r ∷ rs
        → Step f (record f {
          channel = record f.channel { items = rs };
          dispatched = f.dispatched ++ r ∷ [];
        })
    see_done :
        (f : Fleet R)
        → f.phase ≡ running
        → f.cancelled ≡ true
        → Step f (record f { phase = draining })
    see_empty :
        (f : Fleet R)
        → f.phase ≡ draining
        → f.channel.items ≡ []
        → Step f (record f { phase = closing })
    close :
        (f : Fleet R)
        → f.phase ≡ closing
        → Step f (record f { channel = record f.channel { closed = true }; phase = returned })

  pub data Steps : Fleet R → Fleet R → Type 0 where
    here : (f : Fleet R) → Steps f f
    step : {f g h : Fleet R} → Steps f g → Step g h → Steps f h

  -- A run whose shutdown no reload disturbs: when the last Stop of main begins, every goroutine that has
  -- not ended is in the table, and no probe is started afterwards.
  abbrev pub IsCleanStep : {f g : Fleet R} → Step f g → Type 0
  IsCleanStep (launch f name) = f.stopping ≡ false
  IsCleanStep (stop_main f e) =
      All (λ w. is_alive w ≡ (if is_tabled w.hold then is_alive w else 0)) f.workers
  IsCleanStep _ = Unit

  unfoldable pub IsClean : {f g : Fleet R} → Steps f g → Type 0
  IsClean (here _) = Unit
  IsClean (step first last) = IsClean first × IsCleanStep last
