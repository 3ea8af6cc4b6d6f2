-- ===== src/Main/Reloads.antt =====
-- The daemon over its life: after the start and any reloads, accepted or not.
use trimon.Base.{
  ◌≢◌, ◌∙◌, ◌||◌, false, any, Bool-cases, ℕ, ◌+◌, ◌>>=◌, Option-cases, String, ◌≡◌, refl, ap, subst,
  inl, inr, true, some, List, [], length, str_eq, arith, Result, ok, err, >>=-eq-ok, All, All-imp,
  Distinct,
}
use trimon.Net.{Host}
use trimon.Types.{
  ProbeConfig, probe_type_icmp, probe_type_tcp, probe_type_udp, probe_type_dns, probe_type_http,
}
use trimon.Config.Schema.{Config, Error, ProbeSource, nil_dereference}
use trimon.Config.Load.{
  Codec, Disk, load, parse_sources, parse_ops_file, parse_probe_sources, read_probe_dir,
}
use trimon.Config.Load.Names.{IsGood, parse_probe_sources-Distinct}
use trimon.Config.Protocols.Blocks.{HasBlock}
use trimon.Scheduler.{keys, stop, worker_count}
use trimon.Scheduler.Reload.{IsTracked, names, reload-replaces}
use trimon.Scheduler.Names.{reload-names, names-count}
use trimon.Probe.Http.Clients.Served.{new-IsServed}
use trimon.Exporters.Otlp.{observe_goroutines}
use trimon.Scheduler.Crash.{stalls, reload-crashed}
use trimon.Server.{Response, is_panic, aborted, rejected, reloaded, after_reload, handle_reload}
use trimon.Main.{Daemon, probe_factory, builds, reload_func}

-- A probe with the block of its type is one that the factory takes.
HasBlock-builds : (host : Host) (pc : ProbeConfig) → HasBlock pc → builds host pc ≡ true
unfolding probe_factory
HasBlock-builds host pc (HasBlock.icmp t) = rw t refl
HasBlock-builds host pc (HasBlock.tcp t b) = rw t refl
HasBlock-builds host pc (HasBlock.udp t b) = rw t refl
HasBlock-builds host pc (HasBlock.dns t b) = rw t refl
HasBlock-builds host pc (HasBlock.http t (hcfg, e, v)) =
    let (clients, f, served) = new-IsServed host pc hcfg e in
    let is = λ (x : String). ap (λ type. str_eq type x) t in
    rw
      (
        is probe_type_icmp,
        is probe_type_tcp,
        is probe_type_udp,
        is probe_type_dns,
        is probe_type_http,
        f,
      )
      refl

-- What a load that succeeds guarantees.
pub record IsLoaded (host : Host) (cfg : Config) : Type 0 where
  pub distinct : Distinct (names cfg.probes)
  pub good : All (IsGood host) cfg.probes

module _ (host : Host) (codec : Codec) where
  parse_sources-IsLoaded :
      (ops_bytes : List ℕ) (sources : List ProbeSource) (cfg : Config)
      → parse_sources host codec ops_bytes sources ≡ ok cfg
      → IsLoaded host cfg
  unfolding parse_sources
  parse_sources-IsLoaded ops_bytes sources cfg h =
      let (ops, e, h') = >>=-eq-ok (parse_ops_file host codec ops_bytes) _ h in
      let (p, f, h'') = >>=-eq-ok (parse_probe_sources host codec sources) _ h' in
      let (fs, a, b, d, g) = parse_probe_sources-Distinct host codec sources p.0 p.1 f in
      let same : p.1 ≡ cfg.probes = ground arith in
      record {
        distinct = subst (λ ps. Distinct (names ps)) same d;
        good = subst (All (IsGood host)) same g;
      }

  pub load-IsLoaded :
      (disk : Disk) (ops_path probes_dir : String) (cfg : Config)
      → load host codec disk ops_path probes_dir ≡ ok cfg
      → IsLoaded host cfg
  unfolding load
  load-IsLoaded disk ops_path probes_dir cfg h = elim (Option-cases (disk.read_file ops_path)) [
    | inl e ↦ absurd (ground arith)
    | inr (bytes, e) ↦
        let h' : (read_probe_dir disk probes_dir >>= parse_sources host codec bytes) ≡ ok cfg =
          ground arith in
        let (sources, f, g) = >>=-eq-ok (read_probe_dir disk probes_dir) _ h' in
        parse_sources-IsLoaded bytes sources cfg g
  ]

-- The program runs, and the workers are those of the configuration served: one for each of its probes,
-- under its name, and no other goroutine runs; a scrape sees as many goroutines as it has probes.
pub record Serves (d : Daemon) (cfg : Config) : Type 0 where
  pub served : d.served ≡ some cfg
  pub alive : d.scheduler.crashed ≡ false
  pub tracked : IsTracked d.scheduler
  pub workers : keys d.scheduler.workers ≡ names cfg.probes
  pub goroutines : observe_goroutines (some (worker_count d.scheduler)) ≡ length cfg.probes

pub served-Serves :
    (d : Daemon) (cfg : Config)
    → d.served ≡ some cfg
    → d.scheduler.crashed ≡ false
    → IsTracked d.scheduler
    → keys d.scheduler.workers ≡ names cfg.probes
    → Serves d cfg
unfolding observe_goroutines
served-Serves d cfg e a t w = record {
  served = e;
  alive = a;
  tracked = t;
  workers = w;
  goroutines = names-count d.scheduler cfg.probes w;
}

pub good-builds :
    (host : Host) (cfgs : List ProbeConfig)
    → All (IsGood host) cfgs
    → All (λ cfg. builds host cfg ≡ true) cfgs
good-builds host cfgs h =
    All-imp (IsGood host) (λ cfg. builds host cfg ≡ true)
      (λ cfg g. HasBlock-builds host cfg g.0.block) cfgs h

-- What one call of the reload handler does.
pub data Reloads (host : Host) (outcome : Result Error Config) {F : Type 0} (d : Daemon)
    (r : Response F) (d' : Daemon) : Type 0 where
  refused :
      (e : Error)
      → outcome ≡ err e
      → e ≢ nil_dereference
      → d' ≡ d
      → r.status ≡ 400
      → r.body ≡ rejected "configuration invalid; see server logs"
      → Reloads host outcome d r d'
  unanswered :
      outcome ≡ err nil_dereference → d' ≡ d → r.body ≡ aborted → Reloads host outcome d r d'
  applied :
      (cfg : Config)
      → outcome ≡ ok cfg
      → any stalls cfg.probes ≡ false
      → (stop d.scheduler).live ≡ []
      → Serves d' cfg
      → d'.config_reloads ≡ d.config_reloads + 1
      → r.status ≡ 200
      → r.body ≡ reloaded (length cfg.probes)
      → Reloads host outcome d r d'
  crashes :
      (cfg : Config)
      → outcome ≡ ok cfg
      → any stalls cfg.probes ≡ true
      → d'.scheduler.crashed ≡ true
      → Reloads host outcome d r d'

is_panic-nil : (e : Error) → is_panic e ≡ true → e ≡ nil_dereference
is_panic-nil e h = ground (arith, h)

module _ (host : Host) {F : Type 0} where
  loaded-Reloads :
      (cfg : Config) (d : Daemon)
      → IsLoaded host cfg
      → IsTracked d.scheduler
      → d.scheduler.crashed ≡ false
      → let out = handle_reload {F = F} (some (reload_func host (ok cfg))) d in
        Reloads host (ok cfg) d out.0 out.1
  unfolding handle_reload after_reload reload_func
  loaded-Reloads cfg d good t c =
      let builds_all = good-builds host cfg.probes good.good in
      let crash =
        reload-crashed (builds host) d.scheduler cfg.probes builds_all
        ∙ ap (λ x. x || any stalls cfg.probes) c in
      elim (Bool-cases (any stalls cfg.probes)) [
        | inl bad ↦ crashes cfg refl bad (crash ∙ bad)
        | inr fine ↦
            let (gone, tracked, count) =
              reload-replaces (builds host) d.scheduler cfg.probes t good.distinct in
            let workers =
              reload-names (builds host) d.scheduler cfg.probes good.distinct builds_all in
            applied cfg refl fine gone (served-Serves _ cfg refl (crash ∙ fine) tracked workers)
              refl refl refl
      ]

  apply-Reloads :
      (outcome : Result Error Config) (d : Daemon)
      → ((cfg : Config) → outcome ≡ ok cfg → IsLoaded host cfg)
      → IsTracked d.scheduler
      → d.scheduler.crashed ≡ false
      → let out = handle_reload {F = F} (some (reload_func host outcome)) d in
        Reloads host outcome d out.0 out.1
  unfolding handle_reload after_reload reload_func
  apply-Reloads (err e) d l t c = elim (Bool-cases (is_panic e)) [
    | inl p ↦ let n = is_panic-nil e p in unanswered (ap err n) refl (rw p refl)
    | inr p ↦ refused e refl (λ n. let q = ap is_panic n in cc) refl (rw p refl) (rw p refl)
  ]
  apply-Reloads (ok cfg) d l t c = loaded-Reloads cfg d (l cfg refl) t c

  -- A reload is all or nothing. From a daemon whose goroutines are those of its table of workers and none
  -- of which has crashed, POST /reload reads the files as they are then. If they do not load, nothing
  -- changes, and the answer is 400 with a message that tells nothing of the error, except that for a
  -- dereference of nil, which is a panic in the handler, nothing is answered. If they load and every
  -- probe has a positive interval, all old goroutines have exited, the new configuration is served, a
  -- worker runs for each of its probes, under its name and in their order, and for nothing else, a
  -- scrape sees as many goroutines as there are probes, one more reload is counted, and the answer
  -- is 200 with the number of the probes. If they load and an interval is not positive, the program
  -- crashes.
  pub handle_reload-Reloads :
      (codec : Codec) (disk : Disk) (ops_path probes_dir : String) (d : Daemon)
      → IsTracked d.scheduler
      → d.scheduler.crashed ≡ false
      → let outcome = load host codec disk ops_path probes_dir in
        let out = handle_reload {F = F} (some (reload_func host outcome)) d in
        Reloads host outcome d out.0 out.1
  handle_reload-Reloads codec disk ops_path probes_dir d t c =
      apply-Reloads (load host codec disk ops_path probes_dir) d
        (load-IsLoaded host codec disk ops_path probes_dir) t c
