-- ===== src/Scheduler/Reload.antt =====
-- Start, Stop and Reload: no goroutine is left behind.
use trimon.Base.{
  inl, inr, Fresh, ℕ, suc, ◌+◌, ◌≡◌, ◌∙◌, refl, sym, ap, String, Bool, true, false, ◌||◌, List, [],
  ◌∷◌, ◌++◌, map, any, length, length-append, contains, contains-append, Distinct, All, arith,
  Bool-cases, if◌then◌else◌, ◌==◌,
}
use trimon.Base.Int.{pos, ◌<ℤ◌, leb_ℤ}
use trimon.Types.{ProbeConfig}
use trimon.Scheduler.Tables.{
  assign-ids, without-all, any-append, ids-append, keys-append, Distinct-Fresh,
}
use trimon.Scheduler.{Scheduler, ids, keys, stop, start_locked, start, reload, worker_count}

-- The goroutines that run are those of the table.
pub record IsTracked (s : Scheduler) : Type 0 where
  pub same : (i : ℕ) → any (λ j. j == i) s.live ≡ any (λ j. j == i) (ids s.workers)
  pub count : length s.live ≡ worker_count s

-- `Stop` leaves no goroutine running.
stop-live : (s : Scheduler) → IsTracked s → (stop s).live ≡ []
unfolding stop
stop-live s t = without-all s.live (ids s.workers) (λ i e. sym (t.same i) ∙ e)

stop-IsTracked : (s : Scheduler) → (stop s).live ≡ [] → IsTracked (stop s)
unfolding stop
stop-IsTracked s h = rw h (record { same = λ i. refl; count = refl })

stop-keys :
    (s : Scheduler) (n : String) → contains (keys (stop s).workers) n ≡ true → contains [] n ≡ true
unfolding stop
stop-keys s n e = e

or_swap : (x a b c : Bool) → c ≡ (b || (x || false)) → a ≡ b → (x || a) ≡ c
or_swap x a b c h k = ground (arith, h, k)

abbrev pub names : List ProbeConfig → List String
names cfgs = map (λ cfg. cfg.name) cfgs

module _ (builds : ProbeConfig → Bool) where
  -- The number of configurations that the factory takes.
  abbrev pub built : List ProbeConfig → ℕ
  built [] = 0
  built (cfg ∷ cfgs) = let rest = built cfgs in if builds cfg then suc rest else rest

  -- A start under a name that no worker has.
  pub start_locked-new :
      (s : Scheduler) (cfg : ProbeConfig)
      → builds cfg ≡ true
      → contains (keys s.workers) cfg.name ≡ false
      → (start_locked builds s cfg).workers ≡ s.workers ++ (cfg.name, s.next) ∷ []
  unfolding start_locked
  start_locked-new s cfg b h = rw b (assign-ids cfg.name s.next s.workers h)

  pub start_locked-IsTracked :
      (s : Scheduler) (cfg : ProbeConfig)
      → IsTracked s
      → contains (keys s.workers) cfg.name ≡ false
      → IsTracked (start_locked builds s cfg)
  unfolding start_locked
  start_locked-IsTracked s cfg t h = elim (Bool-cases (builds cfg)) [
    | inr b ↦ rw b t
    | inl b ↦
        let w = assign-ids cfg.name s.next s.workers h in
        rw b (record {
          same = λ i.
              let e =
                ap (λ ws. any (λ j. j == i) (ids ws)) w
                ∙ (ap (any (λ j. j == i)) (ids-append s.workers ((cfg.name, s.next) ∷ []))
                    ∙ any-append (λ j. j == i) (ids s.workers) (s.next ∷ [])) in
              let u = t.same i in or_swap (s.next == i) _ _ _ e u;
          count =
              let l = length-append s.workers ((cfg.name, s.next) ∷ []) in
              let m = ap length w in let c = t.count in omega (arith, l, m, c);
        })
  ]

  start_locked-crashed :
      (s : Scheduler) (cfg : ProbeConfig)
      → pos 0 <ℤ cfg.interval
      → (start_locked builds s cfg).crashed ≡ s.crashed
  unfolding start_locked
  start_locked-crashed s cfg h =
      let e : leb_ℤ cfg.interval (pos 0) ≡ false = ground (arith, h) in ground (arith, e)

  start_locked-skips :
      (s : Scheduler) (cfg : ProbeConfig) → builds cfg ≡ false → start_locked builds s cfg ≡ s
  unfolding start_locked
  start_locked-skips s cfg b = rw b refl

  start_locked-count :
      (s : Scheduler) (cfg : ProbeConfig)
      → contains (keys s.workers) cfg.name ≡ false
      → worker_count (start_locked builds s cfg) ≡ worker_count s + built (cfg ∷ [])
  start_locked-count s cfg h = elim (Bool-cases (builds cfg)) [
    | inl b ↦
        let w = ap length (start_locked-new s cfg b h) in
        let l = length-append s.workers ((cfg.name, s.next) ∷ []) in rw b (omega (arith, w, l))
    | inr b ↦ let w = ap worker_count (start_locked-skips s cfg b) in rw b (omega (arith, w))
  ]

  pub start_locked-keys :
      (s : Scheduler) (cfg : ProbeConfig)
      → contains (keys s.workers) cfg.name ≡ false
      → (n : String) → contains (keys (start_locked builds s cfg).workers) n ≡ true
      → contains (cfg.name ∷ keys s.workers) n ≡ true
  start_locked-keys s cfg h n e = elim (Bool-cases (builds cfg)) [
    | inl b ↦
        let w =
          ap (λ ws. contains (keys ws) n) (start_locked-new s cfg b h)
          ∙ (ap (λ ks. contains ks n) (keys-append s.workers ((cfg.name, s.next) ∷ []))
              ∙ contains-append (keys s.workers) (cfg.name ∷ []) n) in
        let e' = sym w ∙ e in ground (arith, e')
    | inr b ↦
        let w = ap (λ x. contains (keys x.workers) n) (start_locked-skips s cfg b) in
        let e' = sym w ∙ e in ground (arith, e')
  ]

  pub start-Tracked :
      (cfgs : List ProbeConfig) (s : Scheduler) (taken : List String)
      → IsTracked s
      → ((n : String) → contains (keys s.workers) n ≡ true → contains taken n ≡ true)
      → Fresh taken (names cfgs)
      → IsTracked (start builds s cfgs)
        × (worker_count (start builds s cfgs) ≡ worker_count s + built cfgs)
  unfolding start
  start-Tracked [] s taken t k f = (t, omega arith)
  start-Tracked (cfg ∷ cfgs) s taken t k f =
      let new : contains (keys s.workers) cfg.name ≡ false =
        elim (Bool-cases (contains (keys s.workers) cfg.name)) [
          | inl x ↦ let y = k cfg.name x in let z = f.0 in cc
          | inr x ↦ x
        ] in
      let one = start_locked-count s cfg new in
      let (a, b) =
        start-Tracked cfgs (start_locked builds s cfg) (cfg.name ∷ taken)
          (start_locked-IsTracked s cfg t new)
          (λ n e. let m = start_locked-keys s cfg new n e in let q = k n in ground (arith, m, q))
          f.1 in
      (a, ground (arith, b, one))

  start-crashed :
      (cfgs : List ProbeConfig) (s : Scheduler)
      → All (λ cfg. pos 0 <ℤ cfg.interval) cfgs
      → (start builds s cfgs).crashed ≡ s.crashed
  unfolding start
  start-crashed [] s p = refl
  start-crashed (cfg ∷ cfgs) s p =
      start-crashed cfgs (start_locked builds s cfg) p.1 ∙ start_locked-crashed s cfg p.0

  -- The first start, and a reload, whatever the intervals are.
  pub start-tracks :
      (s : Scheduler) (cfgs : List ProbeConfig)
      → s.live ≡ []
      → s.workers ≡ []
      → Distinct (names cfgs)
      → IsTracked (start builds s cfgs)
  start-tracks s cfgs l w d =
      (start-Tracked cfgs s [] (record { same = λ i. rw (l, w) refl; count = rw (l, w) refl })
        (λ n e. let g = ap (λ ws. contains (keys ws) n) w in sym g ∙ e)
        (Distinct-Fresh [] (names cfgs) d (λ n e. refl))).0

  pub reload-replaces :
      (s : Scheduler) (cfgs : List ProbeConfig)
      → IsTracked s
      → Distinct (names cfgs)
      → ((stop s).live ≡ [])
        × IsTracked (reload builds s cfgs)
        × (worker_count (reload builds s cfgs) ≡ built cfgs)
  unfolding reload
  reload-replaces s cfgs t d =
      let gone = stop-live s t in
      let (a, b) =
        start-Tracked cfgs (stop s) [] (stop-IsTracked s gone) (stop-keys s)
          (Distinct-Fresh [] (names cfgs) d (λ n e. refl)) in
      (gone, a, omega (arith, b))

  -- A reload of a table whose goroutines are tracked, with configurations of different names and
  -- positive intervals, leaves exactly the goroutines of the new table running: all of the old ones
  -- have exited, each configuration that the factory takes has one, and none crashes at its start.
  pub reload-IsTracked :
      (s : Scheduler) (cfgs : List ProbeConfig)
      → IsTracked s
      → Distinct (names cfgs)
      → All (λ cfg. pos 0 <ℤ cfg.interval) cfgs
      → ((stop s).live ≡ [])
        × IsTracked (reload builds s cfgs)
        × (worker_count (reload builds s cfgs) ≡ built cfgs)
        × ((reload builds s cfgs).crashed ≡ s.crashed)
  unfolding reload
  reload-IsTracked s cfgs t d p =
      let (gone, a, b) = reload-replaces s cfgs t d in (gone, a, b, start-crashed cfgs (stop s) p)
