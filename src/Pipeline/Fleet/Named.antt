-- ===== src/Pipeline/Fleet/Named.antt =====
-- Whose results are dropped: the recorder is called with the name of the probe that made them.
use trimon.Base.{
  ℕ, ◌≡◌, subst, String, List, [], ◌∷◌, ◌++◌, map, All, All-append, All-split, All-map,
}
use trimon.Pipeline.Fleet.{
  Activity, waiting, probing, exited, sending, Worker, Fleet, launched, overwrite, take, by_main,
  by_reload, at_start, Move, tick, report, all_sent, exit, Step, launch, stop_reload, stop_main,
  cancel_worker, move, send_result, drop_result, cancel, receive, see_done, see_empty, close, Steps,
  here, step,
}

module _ {R : Type 0} (owner : R → String) where
  -- The results that it has left are its own.
  abbrev Bears : String → Activity R → Type 0
  Bears name (sending rs) = All (λ r. owner r ≡ name) rs
  Bears name waiting = Unit
  Bears name probing = Unit
  Bears name exited = Unit

  abbrev IsOwn : Worker R → Type 0
  IsOwn w = Bears w.name w.activity

  record IsNamed (f : Fleet R) : Type 0 where
    own : All IsOwn f.workers
    dropped : All (λ d. owner d.1 ≡ d.0) f.dropped

  Move-IsOwn : {w w' : Worker R} → Move owner w w' → IsOwn w'
  Move-IsOwn (tick w e) = tt
  Move-IsOwn (report w results e o) = o
  Move-IsOwn (all_sent w e) = tt
  Move-IsOwn (exit w e c) = tt

  -- One worker among the others, before and after its step.
  among :
      (all us ws : List (Worker R)) (w : Worker R)
      → all ≡ us ++ w ∷ ws
      → All IsOwn all
      → All IsOwn us × IsOwn w × All IsOwn ws
  among all us ws w e h =
      let (a, b) = All-split IsOwn us (w ∷ ws) (subst (All IsOwn) e h) in (a, b.0, b.1)

  replaced :
      (us ws : List (Worker R)) (w : Worker R)
      → All IsOwn us
      → IsOwn w
      → All IsOwn ws
      → All IsOwn (us ++ w ∷ ws)
  replaced us ws w a o b = All-append IsOwn us (w ∷ ws) a (o, b)

  Step-IsNamed : {f g : Fleet R} → Step owner f g → IsNamed f → IsNamed g
  Step-IsNamed (launch f name) n = record {
    own =
        All-append IsOwn (map (overwrite name) f.workers) (launched name ∷ [])
          (All-map IsOwn IsOwn (overwrite name) (λ w h. h) f.workers n.own) (tt, tt);
    dropped = n.dropped;
  }
  Step-IsNamed (stop_reload f) n = record {
    own = All-map IsOwn IsOwn (take by_reload) (λ w h. h) f.workers n.own;
    dropped = n.dropped;
  }
  Step-IsNamed (stop_main f e) n = record {
    own = All-map IsOwn IsOwn (take by_main) (λ w h. h) f.workers n.own;
    dropped = n.dropped;
  }
  Step-IsNamed (cancel_worker f us ws w e h) n =
      let (a, o, b) = among f.workers us ws w e n.own in
      record { own = replaced us ws _ a o b; dropped = n.dropped }
  Step-IsNamed (move f us ws w w' e m) n =
      let (a, o, b) = among f.workers us ws w e n.own in
      record { own = replaced us ws w' a (Move-IsOwn m) b; dropped = n.dropped }
  Step-IsNamed (send_result f us ws w r rs ch e s x) n =
      let (a, o, b) = among f.workers us ws w e n.own in
      let own : Bears w.name (sending (r ∷ rs)) = subst (Bears w.name) s o in
      record {
        own = replaced us ws (record w { activity = sending rs }) a own.1 b;
        dropped = n.dropped;
      }
  Step-IsNamed (drop_result f us ws w r rs e s x) n =
      let (a, o, b) = among f.workers us ws w e n.own in
      let own : Bears w.name (sending (r ∷ rs)) = subst (Bears w.name) s o in
      record {
        own = replaced us ws (record w { activity = sending rs }) a own.1 b;
        dropped =
            All-append (λ d. owner d.1 ≡ d.0) f.dropped ((w.name, r) ∷ []) n.dropped (own.0, tt);
      }
  Step-IsNamed (cancel f e k) n = record { own = n.own; dropped = n.dropped }
  Step-IsNamed (receive f r rs p e) n = record { own = n.own; dropped = n.dropped }
  Step-IsNamed (see_done f p e) n = record { own = n.own; dropped = n.dropped }
  Step-IsNamed (see_empty f p e) n = record { own = n.own; dropped = n.dropped }
  Step-IsNamed (close f p) n = record { own = n.own; dropped = n.dropped }

  Steps-IsNamed : (capacity : ℕ) {f : Fleet R} → Steps owner (at_start capacity) f → IsNamed f
  Steps-IsNamed capacity (here _) = record { own = tt; dropped = tt }
  Steps-IsNamed capacity (step first last) = Step-IsNamed last (Steps-IsNamed capacity first)

  pub Steps-dropped :
      (capacity : ℕ) {f : Fleet R}
      → Steps owner (at_start capacity) f
      → All (λ d. owner d.1 ≡ d.0) f.dropped
  Steps-dropped capacity steps = (Steps-IsNamed capacity steps).dropped
