-- ===== src/Scheduler/Names.antt =====
-- The table of workers by name, when the factory takes every configuration.
use mathlib.Core.List.{append-nil, append_assoc}
use trimon.Base.{
  suc, length, map, Fresh, ◌≡◌, ◌∙◌, refl, sym, ap, String, true, false, List, [], ◌∷◌, ◌++◌,
  contains, Distinct, All, inl, inr, Bool-cases, Bool, arith,
}
use trimon.Types.{ProbeConfig}
use trimon.Scheduler.Tables.{keys-append, Distinct-Fresh}
use trimon.Scheduler.{Scheduler, worker_count, keys, stop, start_locked, start, reload}
use trimon.Scheduler.Reload.{names, start_locked-new, start_locked-keys}

module _ (builds : ProbeConfig → Bool) where
  start-keys :
      (cfgs : List ProbeConfig) (s : Scheduler) (taken : List String)
      → ((n : String) → contains (keys s.workers) n ≡ true → contains taken n ≡ true)
      → Fresh taken (names cfgs)
      → All (λ cfg. builds cfg ≡ true) cfgs
      → keys (start builds s cfgs).workers ≡ keys s.workers ++ names cfgs
  unfolding start
  start-keys [] s taken k f b = sym (append-nil (keys s.workers))
  start-keys (cfg ∷ cfgs) s taken k f b =
      let new : contains (keys s.workers) cfg.name ≡ false =
        elim (Bool-cases (contains (keys s.workers) cfg.name)) [
          | inl x ↦ let y = k cfg.name x in let z = f.0 in cc
          | inr x ↦ x
        ] in
      let here =
        ap keys (start_locked-new builds s cfg b.0 new)
        ∙ keys-append s.workers ((cfg.name, s.next) ∷ []) in
      start-keys cfgs (start_locked builds s cfg) (cfg.name ∷ taken)
        (λ n e.
          let m = start_locked-keys builds s cfg new n e in let q = k n in ground (arith, m, q))
        f.1 b.1
      ∙ ap (λ ks. ks ++ names cfgs) here
      ∙ append_assoc (keys s.workers) (cfg.name ∷ []) (names cfgs)

  -- A new table and a reloaded one.
  pub start-names :
      (s : Scheduler) (cfgs : List ProbeConfig)
      → s.workers ≡ []
      → Distinct (names cfgs)
      → All (λ cfg. builds cfg ≡ true) cfgs
      → keys (start builds s cfgs).workers ≡ names cfgs
  start-names s cfgs e d b =
      let none_taken : keys s.workers ≡ [] = ap keys e in
      start-keys cfgs s [] (λ n h. let g = ap (λ ks. contains ks n) none_taken in sym g ∙ h)
        (Distinct-Fresh [] (names cfgs) d (λ n h. refl)) b
      ∙ ap (λ ks. ks ++ names cfgs) none_taken

  pub reload-names :
      (s : Scheduler) (cfgs : List ProbeConfig)
      → Distinct (names cfgs)
      → All (λ cfg. builds cfg ≡ true) cfgs
      → keys (reload builds s cfgs).workers ≡ names cfgs
  unfolding reload stop
  reload-names s cfgs d b = start-names (stop s) cfgs refl d b

length-map : {A B : Type 0} (f : A → B) (xs : List A) → length (map f xs) ≡ length xs
length-map f [] = refl
length-map f (x ∷ xs) = ap suc (length-map f xs)

-- As many workers as configurations.
pub names-count :
    (s : Scheduler) (cfgs : List ProbeConfig)
    → keys s.workers ≡ names cfgs
    → worker_count s ≡ length cfgs
names-count s cfgs e =
    sym (length-map (λ w. w.0) s.workers) ∙ ap length e ∙ length-map (λ cfg. cfg.name) cfgs
