-- ===== src/Main/EarlyReload.antt =====
-- The server serves before main starts the first probes: a reload that comes in between.
use trimon.Base.{
  ℕ, String, ◌≡◌, ◌∙◌, refl, sym, ap, subst, true, Option, some, List, [], ◌∷◌, contains, Result,
  ok, err,
}
use trimon.Net.{Host}
use trimon.Config.Schema.{Config, Error}
use trimon.Config.Load.{Codec, Disk, load}
use trimon.Scheduler.{keys, stop, reload}
use trimon.Scheduler.Reload.{IsTracked, names, reload-replaces}
use trimon.Scheduler.Names.{reload-names}
use trimon.Scheduler.Leak.{
  has_id, IsNumbered, IsLeaked, stop-IsLeaked, reload-IsLeaked, reload-IsNumbered, start-leaks,
}
use trimon.Server.{after_reload, handle_reload}
use trimon.Exporters.Otlp.Transport.{NewError, OtlpExporter}
use trimon.Main.{Daemon, Flags, builds, reload_func, prepare, start_probes, empty_table}
use trimon.Main.Reloads.{load-IsLoaded, good-builds}
use trimon.Main.Life.{Request, loaded, after_requests, prepare-IsPrepared}

module _ (host : Host) where
  -- A request leaves a leaked goroutine leaked, whatever it loads.
  handle_reload-IsLeaked :
      (i : ℕ) (outcome : Result Error Config) (d : Daemon)
      → IsLeaked i d.scheduler
      → IsLeaked i (handle_reload {F = ℕ} (some (reload_func host outcome)) d).1.scheduler
  unfolding handle_reload after_reload reload_func
  handle_reload-IsLeaked i (err e) d l = l
  handle_reload-IsLeaked i (ok cfg) d l = reload-IsLeaked (builds host) i cfg.probes d.scheduler l

  handle_reload-scheduler :
      (cfg : Config) (d : Daemon)
      → (handle_reload {F = ℕ} (some (reload_func host (ok cfg))) d).1.scheduler
        ≡ reload (builds host) d.scheduler cfg.probes
  unfolding handle_reload after_reload reload_func
  handle_reload-scheduler cfg d = refl

module _ (codec : Codec) (flags : Flags) where
  after_requests-IsLeaked :
      (i : ℕ) (rs : List Request) (d : Daemon)
      → IsLeaked i d.scheduler
      → IsLeaked i (after_requests codec flags d rs).scheduler
  after_requests-IsLeaked i [] d l = l
  after_requests-IsLeaked i ((host, disk) ∷ rs) d l =
      after_requests-IsLeaked i rs _
        (handle_reload-IsLeaked host i (loaded codec flags (host, disk)) d l)

  -- When a reload is served after the server is up and before main starts the probes, and a probe of
  -- its configuration has the name of one of main's, then a goroutine runs, after any
  -- further reload requests, that the final Stop does not end either.
  pub early_reload_leaks :
      (host : Host) (disk : Disk) {Client : Type 0}
      (new_exporter : Config → Result NewError (OtlpExporter Client))
      (listen : String → Option String) (cfg : Config) (d : Daemon) (early : Disk) (cfg' : Config)
      (name : String) (rs : List Request)
      → prepare flags (load host codec disk) new_exporter listen ≡ ok (cfg, d)
      → load host codec early flags.config flags.probes ≡ ok cfg'
      → contains (names cfg'.probes) name ≡ true
      → contains (names cfg.probes) name ≡ true
      → let d' = start_probes host cfg (after_requests codec flags d ((host, early) ∷ [])) in
        (i : ℕ) × (has_id i (stop (after_requests codec flags d' rs).scheduler).live ≡ true)
  unfolding start_probes
  early_reload_leaks host disk new_exporter listen cfg d early cfg' name rs h l c c' =
      let p = prepare-IsPrepared codec flags host disk new_exporter listen (cfg, d) h in
      let good = load-IsLoaded host codec disk flags.config flags.probes cfg p.loads in
      let good' = load-IsLoaded host codec early flags.config flags.probes cfg' l in
      let between = (after_requests codec flags d ((host, early) ∷ [])).scheduler in
      let table = reload (builds host) empty_table cfg'.probes in
      let e : between ≡ table =
        ap (λ x. (handle_reload {F = ℕ} (some (reload_func host x)) d).1.scheduler) l
        ∙ (handle_reload-scheduler host cfg' d
            ∙ ap (λ x. reload (builds host) x.scheduler cfg'.probes) p.fresh) in
      let t =
        (reload-replaces (builds host) empty_table cfg'.probes
          (record { same = λ i. refl; count = refl }) good'.distinct).1 in
      let workers =
        reload-names (builds host) empty_table cfg'.probes good'.distinct
          (good-builds host cfg'.probes good'.good) in
      let (i, leaked) =
        start-leaks (builds host) cfg.probes between name
          (subst IsNumbered (sym e) (reload-IsNumbered (builds host) cfg'.probes empty_table))
          (subst IsTracked (sym e) t) (good-builds host cfg.probes good.good)
          (ap (λ s. contains (keys s.workers) name) e ∙ (ap (λ ks. contains ks name) workers ∙ c))
          c' in
      (i, (stop-IsLeaked i _ (after_requests-IsLeaked i rs _ leaked)).runs)
