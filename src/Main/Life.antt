-- ===== src/Main/Life.antt =====
-- The daemon from its start through any sequence of reload requests, accepted or not.
use trimon.Base.{
  ◌∙◌, true, false, any, All, ℕ, ◌≡◌, refl, sym, ap, subst, String, Option, some, List, [], ◌∷◌,
  str_eq, Result, ok, err, >>=-eq-ok, wrap_err, wrap_err-eq-ok, refuse_if, arith,
}
use trimon.Net.{Host}
use trimon.Config.Schema.{Config, Error}
use trimon.Config.Load.{Codec, Disk, load}
use trimon.Scheduler
use trimon.Scheduler.{keys}
use trimon.Scheduler.Reload.{start-tracks}
use trimon.Scheduler.Names.{start-names}
use trimon.Scheduler.Crash.{stalls, start-crashed}
use trimon.Server
use trimon.Server.{handle_reload}
use trimon.Exporters.Otlp.Transport.{NewError, OtlpExporter}
use trimon.Main.{
  Daemon, Flags, Exit, builds, reload_func, prepare, start_probes, start_up, empty_table,
  load_failed, exporter_failed,
}
use trimon.Main.Reloads.{
  load-IsLoaded, Serves, refused, unanswered, applied, crashes, good-builds, served-Serves,
  handle_reload-Reloads,
}

-- What the host and the disk are when a request arrives.
abbrev pub Request : Type 0
Request = Host × Disk

-- If it loads, every probe has a positive interval.
abbrev pub HasIntervals : Result Error Config → Type 0
HasIntervals (ok cfg) = any stalls cfg.probes ≡ false
HasIntervals (err e) = Unit

module _ (codec : Codec) (flags : Flags) where
  abbrev pub loaded : Request → Result Error Config
  loaded (host, disk) = load host codec disk flags.config flags.probes

  -- The daemon after the requests, handled one after the other.
  abbrev pub after_requests : Daemon → List Request → Daemon
  after_requests d [] = d
  after_requests d ((host, disk) ∷ rs) =
      after_requests (handle_reload {F = ℕ} (some (reload_func host (loaded (host, disk)))) d).1 rs

  abbrev or_loaded : Config → Result Error Config → Config
  or_loaded cfg (ok cfg') = cfg'
  or_loaded cfg (err e) = cfg

  -- The last configuration that loaded.
  abbrev pub last_loaded : Config → List Request → Config
  last_loaded cfg [] = cfg
  last_loaded cfg (r ∷ rs) = last_loaded (or_loaded cfg (loaded r)) rs

  Reloads-Serves :
      (host : Host) (disk : Disk) (d : Daemon) (cfg : Config)
      → HasIntervals (loaded (host, disk))
      → Serves d cfg
      → Serves
          (handle_reload {F = ℕ} (some (reload_func host (loaded (host, disk)))) d).1
          (or_loaded cfg (loaded (host, disk)))
  Reloads-Serves host disk d cfg i s =
      let d' = (handle_reload {F = ℕ} (some (reload_func host (loaded (host, disk)))) d).1 in
      elim (handle_reload-Reloads host codec disk flags.config flags.probes d s.tracked s.alive) [
        | refused e l n same st b ↦
            subst (λ x. Serves x (or_loaded cfg (loaded (host, disk)))) (sym same)
              (subst (λ x. Serves d (or_loaded cfg x)) (sym l) s)
        | unanswered l same b ↦
            subst (λ x. Serves x (or_loaded cfg (loaded (host, disk)))) (sym same)
              (subst (λ x. Serves d (or_loaded cfg x)) (sym l) s)
        | crashes cfg' l bad c ↦
            let fine : any stalls cfg'.probes ≡ false = subst HasIntervals l i in
            let x : true ≡ false = sym bad ∙ fine in absurd cc
        | applied cfg' l fine gone s' n st b ↦ subst (λ x. Serves d' (or_loaded cfg x)) (sym l) s'
      ]

  after_requests-Serves :
      (rs : List Request) (d : Daemon) (cfg : Config)
      → All (λ r. HasIntervals (loaded r)) rs
      → Serves d cfg
      → Serves (after_requests d rs) (last_loaded cfg rs)
  after_requests-Serves [] d cfg i s = s
  after_requests-Serves ((host, disk) ∷ rs) d cfg i s =
      after_requests-Serves rs _ (or_loaded cfg (loaded (host, disk))) i.1
        (Reloads-Serves host disk d cfg i.0 s)

  -- What stands when the server begins to serve.
  pub record IsPrepared (host : Host) (disk : Disk) (cfg : Config) (d : Daemon) : Type 0 where
    pub loads : loaded (host, disk) ≡ ok cfg
    pub fresh : d ≡ record { served = some cfg; scheduler = empty_table; config_reloads = 0 }

  pub prepare-IsPrepared :
      (host : Host) (disk : Disk) {Client : Type 0}
      (new_exporter : Config → Result NewError (OtlpExporter Client))
      (listen : String → Option String) (out : Config × Daemon)
      → prepare flags (load host codec disk) new_exporter listen ≡ ok out
      → IsPrepared host disk out.0 out.1
  unfolding prepare
  prepare-IsPrepared host disk new_exporter listen out h =
      let (u, e, h1) =
        >>=-eq-ok (refuse_if (str_eq flags.config "") Exit.config_flag_required) _ h in
      let (v, f, h2) =
        >>=-eq-ok (refuse_if (str_eq flags.probes "") Exit.probes_flag_required) _ h1 in
      let (cfg, l, h3) = >>=-eq-ok (wrap_err load_failed (loaded (host, disk))) _ h2 in
      let (exp, x, h4) = >>=-eq-ok (wrap_err exporter_failed (new_exporter cfg)) _ h3 in
      let (w, b, h5) =
        >>=-eq-ok (wrap_err Exit.bind_failed (Server.start listen cfg.server.listen)) _ h4 in
      let start : Daemon = record {
        served = some cfg;
        scheduler = empty_table;
        config_reloads = 0;
      } in
      let same : (cfg, start) ≡ out = ground arith in
      subst (λ o. IsPrepared host disk o.0 o.1) same
        (record { loads = wrap_err-eq-ok load_failed _ l; fresh = refl })

  start_up-Serves :
      (host : Host) (disk : Disk) {Client : Type 0}
      (new_exporter : Config → Result NewError (OtlpExporter Client))
      (listen : String → Option String) (d : Daemon)
      → HasIntervals (loaded (host, disk))
      → start_up host flags (load host codec disk) new_exporter listen ≡ ok d
      → (cfg : Config) × (loaded (host, disk) ≡ ok cfg) × Serves d cfg
  unfolding start_up start_probes
  start_up-Serves host disk new_exporter listen d i h =
      let (out, e, h') = >>=-eq-ok (prepare flags (load host codec disk) new_exporter listen) _ h in
      let p = prepare-IsPrepared host disk new_exporter listen out e in
      let cfg = out.0 in
      let good = load-IsLoaded host codec disk flags.config flags.probes cfg p.loads in
      let started : Daemon = record {
        served = some cfg;
        scheduler = Scheduler.start (builds host) empty_table cfg.probes;
        config_reloads = 0;
      } in
      let begun = ap (start_probes host cfg) p.fresh in
      let last : ok (start_probes host cfg out.1) ≡ ok d = h' in
      let same : started ≡ d = cc in
      (
        cfg,
        p.loads,
        subst (λ y. Serves y cfg) same
            (served-Serves started cfg refl
              (start-crashed (builds host) empty_table cfg.probes
                  (good-builds host cfg.probes good.good)
                ∙ subst HasIntervals p.loads i)
              (start-tracks (builds host) empty_table cfg.probes refl refl good.distinct)
              (start-names (builds host) empty_table cfg.probes refl good.distinct
                (good-builds host cfg.probes good.good))),
      )

  -- Once main has started, and after any sequence of reload requests, whatever the host and the files
  -- are at each, as long as every probe that loads has a positive interval: the program runs, the daemon serves the last configuration that loaded, that of the start if none
  -- did since; a worker runs for each of its probes, under its name and in their order, and no
  -- other goroutine runs, and a scrape sees as many goroutines as there are probes.
  pub life-Serves :
      (host : Host) (disk : Disk) {Client : Type 0}
      (new_exporter : Config → Result NewError (OtlpExporter Client))
      (listen : String → Option String) (d : Daemon) (rs : List Request)
      → HasIntervals (loaded (host, disk))
      → All (λ r. HasIntervals (loaded r)) rs
      → start_up host flags (load host codec disk) new_exporter listen ≡ ok d
      → (cfg : Config) × (load host codec disk flags.config flags.probes ≡ ok cfg)
        × Serves (after_requests d rs) (last_loaded cfg rs)
  life-Serves host disk new_exporter listen d rs i is h =
      let (cfg, l, s) = start_up-Serves host disk new_exporter listen d i h in
      (cfg, l, after_requests-Serves rs d cfg is s)
