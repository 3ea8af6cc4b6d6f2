-- ===== src/Pipeline/Fleet/Ends.antt =====
-- The Stop of a reload and the shutdown of main end, from wherever the goroutines are.
use trimon.Base.{String, ℕ, ◌≡◌, refl, ap, ◌∙◌, true, false, List, [], ◌∷◌, ◌++◌, map, inl, inr}
use trimon.Pipeline.Fleet.{
  Phase, running, draining, closing, returned, is_main, is_reload, by_main, by_reload, take, Fleet,
  alive, at_start, stop_reload, stop_main, cancel, receive, see_done, see_empty, close, Steps, here,
  step,
}
use trimon.Pipeline.Fleet.Sound.{Steps-IsSound}
use trimon.Pipeline.Fleet.Exits.{chain, end_workers, none_left}

-- main waits for no goroutine that its Stop took, and `Run` has returned.
pub record HasEnded {R : Type 0} (f : Fleet R) : Type 0 where
  pub none_awaited : alive is_main f.workers ≡ 0
  pub run_returned : f.phase ≡ returned

module _ {R : Type 0} (owner : R → String) where
  drain_all :
      (items : List R) (f : Fleet R)
      → alive is_main f.workers ≡ 0
      → f.phase ≡ draining
      → f.channel.items ≡ items
      → (g : Fleet R) × Steps owner f g × HasEnded g
  drain_all [] f n p e = (
    _,
    step (step (here f) (see_empty f p e)) (close _ refl),
    record { none_awaited = n; run_returned = refl },
  )
  drain_all (r ∷ rs) f n p e =
      let one = receive f r rs (rw p refl) e in
      let (g, steps, end) =
        drain_all rs
          (record f {
            channel = record f.channel { items = rs };
            dispatched = f.dispatched ++ r ∷ [];
          })
          n p refl in
      (g, chain owner (step (here f) one) steps, end)

  run_returns :
      (f : Fleet R)
      → f.cancelled ≡ true
      → alive is_main f.workers ≡ 0
      → (g : Fleet R) × Steps owner f g × HasEnded g
  run_returns f c n = go f.phase refl
    where
      go : (p : Phase) → f.phase ≡ p → (g : Fleet R) × Steps owner f g × HasEnded g
      go running p =
          let (g, steps, end) =
            drain_all f.channel.items (record f { phase = draining }) n refl refl in
          (g, chain owner (step (here f) (see_done f p c)) steps, end)
      go draining p = drain_all f.channel.items f n p refl
      go closing p =
          (_, step (here f) (close f p), record { none_awaited = n; run_returned = refl })
      go returned p = (f, here f, record { none_awaited = n; run_returned = p })

  module _ (capacity : ℕ) (f : Fleet R) (reached : Steps owner (at_start capacity) f)
      (begun : f.stopping ≡ false) where
    is_open : f.channel.closed ≡ false
    is_open =
        let i = Steps-IsSound owner capacity reached in
        i.opened λ x. let y = i.ordered (i.waits (λ z. cc)) in cc

    reload_ends :
        (g : Fleet R) × Steps owner f g × (alive is_reload g.workers ≡ 0) × (g.stopping ≡ false)
    reload_ends =
        let taken = map (take by_reload) f.workers in
        let p =
          end_workers owner is_reload (λ h e. inr e) taken [] (record f { workers = taken }) is_open
            refl in
        (
          p.end,
          chain owner (step (here f) (stop_reload f)) p.steps,
          ap (alive is_reload) p.workers ∙ none_left owner is_reload (λ h e. inr e) taken,
          p.stopping ∙ begun,
        )

    main_ends : (g : Fleet R) × Steps owner f g × HasEnded g
    main_ends =
        let taken = map (take by_main) f.workers in
        let start = record f { stopping = true; workers = taken } in
        let p = end_workers owner is_main (λ h e. inl e) taken [] start is_open refl in
        let none = ap (alive is_main) p.workers ∙ none_left owner is_main (λ h e. inl e) taken in
        let (h, more, end) = run_returns (record p.end { cancelled = true }) refl none in
        (
          h,
          chain owner
              (step (chain owner (step (here f) (stop_main f begun)) p.steps)
                (cancel p.end p.stopping none))
              more,
          end,
        )

    -- Nothing blocks a reload or the shutdown for ever. From each state that is reached before main has
    -- begun its last Stop, whatever the probes are in the middle of, how full the buffer is, and
    -- whatever goroutines have been lost from the table: the Stop of a reload can go on until every
    -- goroutine that a reload took from the table has exited; and main's Stop, cancel and Wait can go
    -- on until every goroutine that main took from it has exited and `Run` has returned.
    pub shutdown_ends :
        ((g : Fleet R) × Steps owner f g × (alive is_reload g.workers ≡ 0) × (g.stopping ≡ false))
        × ((g : Fleet R) × Steps owner f g × HasEnded g)
    shutdown_ends = (reload_ends, main_ends)
