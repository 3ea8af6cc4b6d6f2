-- ===== src/Pipeline/Fleet/Late.antt =====
-- The server is shut down last, so that a reload may start probes after the end of the pipeline.
use trimon.Base.{String, ℕ, ◌≡◌, refl, true, [], ◌∷◌, ◌++◌, map}
use trimon.Pipeline.{Channel, panicked, send}
use trimon.Pipeline.Fleet.{
  returned, tabled, probing, sending, Worker, Fleet, launched, overwrite, at_start, tick, report,
  launch, move, Steps, here, step,
}
use trimon.Pipeline.Fleet.Sound.{Steps-IsSound}

module _ {R : Type 0} (owner : R → String) where
  -- In the second state, a goroutine that was not there in the first one, of a worker newly put in the
  -- table under the name of the result's probe, is about to send the result, and its send panics.
  pub record AboutToPanic (f g : Fleet R) (r : R) : Type 0 where
    pub sender : Worker R
    pub workers : g.workers ≡ map (overwrite (owner r)) f.workers ++ sender ∷ []
    pub started : (sender.name ≡ owner r) × (sender.hold ≡ tabled)
    pub sends : sender.activity ≡ sending (r ∷ [])
    pub panics : send g.channel r ≡ panicked

  send_closed : (ch : Channel R) (r : R) → ch.closed ≡ true → send ch r ≡ panicked
  unfolding send
  send_closed ch r h = rw h refl

  -- From each state in which `Run` has returned, and for each result: the program can go on to a state
  -- with one goroutine more, newly started in the table for the probe of the result, that is about to
  -- send the result, and whose send, on a closed channel, panics.
  pub late_start_panics :
      (capacity : ℕ) (f : Fleet R)
      → Steps owner (at_start capacity) f
      → f.phase ≡ returned
      → (r : R) → (g : Fleet R) × Steps owner f g × AboutToPanic f g r
  late_start_panics capacity f reached done r =
      let name = owner r in
      let others = map (overwrite name) f.workers in
      let w : Worker R = launched name in
      let running = record w { activity = probing } in
      (
        _,
        step (step (step (here f) (launch f name)) (move _ others [] w running refl (tick w refl)))
            (move _ others [] running (record w { activity = sending (r ∷ []) }) refl
              (report running (r ∷ []) refl (refl, tt))),
        record {
          sender = record w { activity = sending (r ∷ []) };
          workers = refl;
          started = (refl, refl);
          sends = refl;
          panics = send_closed f.channel r ((Steps-IsSound owner capacity reached).shut done);
        },
      )
