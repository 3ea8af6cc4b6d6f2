-- ===== src/Main/Requests/Lives.antt =====
-- cmd/trimon/main.go, internal/server/server.go: the daemon over its life, seen through its requests.
use trimon.Base.{
  All, ℕ, String, ◌≡◌, ◌∙◌, refl, sym, ap, subst, inl, inr, true, false, Option, none, some, List,
  [], ◌∷◌, str_eq, eq_iff, if◌then◌else◌, Result, ok, err, arith, Bool-cases, Option-cases,
}
use trimon.Base.Int.{ℤ}
use trimon.Net.{Host}
use trimon.Types.Floats.{FloatOps}
use trimon.Config.Schema.{Config, Error}
use trimon.Config.Load.{Codec, Disk, load}
use trimon.Pipeline.{buffer_usage}
use trimon.Server.{
  Response, json_dump, write_json, healthy, degraded, health_buffer_threshold, handle_healthz,
  after_reload, handle_reload, handle_config,
}
use trimon.Server.Dump.{ConfigDump, to_config_dump}
use trimon.Server.Routes.{
  HttpRequest, Pattern, is_pattern, ServeMux, ServeMuxLaws, patterns, handler, serve,
}
use trimon.Exporters.Otlp.Transport.{NewError, OtlpExporter}
use trimon.Main.Requests.{Moment, wire, answer, after_http, is_reload, reloads}
use trimon.Main.{Daemon, Flags, reload_func, start_up}
use trimon.Main.Reloads.{Serves}
use trimon.Main.Life.{HasIntervals, loaded, after_requests, last_loaded, life-Serves}

module _ {F : Type 0} (fl : FloatOps F) (codec : Codec) (flags : Flags) where
  module _ (mux : ServeMux F) (marshal : ConfigDump → Option (List ℕ)) (string : ℤ → String)
      (listen : String) where
    abbrev answered : Moment F → HttpRequest → Daemon → Response F × Daemon
    answered t req d = answer fl codec flags mux marshal string listen t req d

    abbrev after : Daemon → List (Moment F × HttpRequest) → Daemon
    after d rs = after_http fl codec flags mux marshal string listen d rs

    -- The health that a moment's buffer gives.
    abbrev pub health : Moment F → Response F
    health t =
        if fl.lt (health_buffer_threshold fl) (buffer_usage fl t.results)
        then write_json 503 (degraded (buffer_usage fl t.results))
        else write_json 200 healthy

    module _ (laws : ServeMuxLaws mux patterns) where
      -- A reload is the request that the pattern spells, and no other.
      match-reload :
          (req : HttpRequest)
          → is_reload req ≡ true
          → mux.match patterns req.method req.path ≡ some ("POST", "/reload")
      match-reload req h =
          let m : req.method ≡ "POST" = ground (arith, h, eq_iff req.method "POST") in
          let p : req.path ≡ "/reload" = ground (arith, h, eq_iff req.path "/reload") in
          rw (m, p) (laws.spelled ("POST", "/reload") refl)

      match-other :
          (req : HttpRequest) (p : Pattern)
          → is_reload req ≡ false
          → mux.match patterns req.method req.path ≡ some p
          → is_pattern p ("POST", "/reload") ≡ false
      match-other req (m, path) h e =
          let same = laws.matched_path req.method req.path (m, path) e in
          elim (laws.matched_method req.method req.path (m, path) e) [
            | inl by ↦ rw (by, same) h
            | inr (get, head) ↦ rw get refl
          ]

      handle_reload-state :
          (host : Host) (outcome : Result Error Config) (d : Daemon)
          → (handle_reload {F = F} (some (reload_func host outcome)) d).1
            ≡ (handle_reload {F = ℕ} (some (reload_func host outcome)) d).1
      unfolding handle_reload after_reload reload_func
      handle_reload-state host (err e) d = refl
      handle_reload-state host (ok cfg) d = refl

      -- The handlers as main wires them, for a pattern.
      abbrev handled : Moment F → HttpRequest → Daemon → Option Pattern → Response F × Daemon
      handled t req d p =
          handler fl mux marshal string (λ x. x.served) (wire fl codec flags listen) t req d p

      handled-reload :
          (t : Moment F) (req : HttpRequest) (d : Daemon)
          → (handled t req d (some ("POST", "/reload"))).1
            ≡ after_requests codec flags d ((t.host, t.disk) ∷ [])
      unfolding handler wire
      handled-reload t req d = handle_reload-state t.host (loaded codec flags (t.host, t.disk)) d

      handled-other :
          (t : Moment F) (req : HttpRequest) (d : Daemon) (p : Pattern)
          → is_pattern p ("POST", "/reload") ≡ false
          → (handled t req d (some p)).1 ≡ d
      unfolding handler
      handled-other t req d p h = ground (arith, h)

      handled-none : (t : Moment F) (req : HttpRequest) (d : Daemon) → (handled t req d none).1 ≡ d
      unfolding handler
      handled-none t req d = refl

      answer-reload :
          (t : Moment F) (req : HttpRequest) (d : Daemon)
          → is_reload req ≡ true
          → (answered t req d).1 ≡ after_requests codec flags d ((t.host, t.disk) ∷ [])
      unfolding serve
      answer-reload t req d h =
          ap (λ m. (handled t req d m).1) (match-reload req h) ∙ handled-reload t req d

      -- All but a reload leaves the daemon alone.
      answer-other :
          (t : Moment F) (req : HttpRequest) (d : Daemon)
          → is_reload req ≡ false
          → (answered t req d).1 ≡ d
      unfolding serve
      answer-other t req d h = elim (Option-cases (mux.match patterns req.method req.path)) [
        | inl e ↦ ap (λ m. (handled t req d m).1) e ∙ handled-none t req d
        | inr (p, e) ↦
            ap (λ m. (handled t req d m).1) e ∙ handled-other t req d p (match-other req p h e)
      ]

      after_http-reloads :
          (d : Daemon) (rs : List (Moment F × HttpRequest))
          → after d rs ≡ after_requests codec flags d (reloads rs)
      after_http-reloads d [] = refl
      after_http-reloads d ((t, req) ∷ rs) =
          let rest = after_http-reloads (answered t req d).1 rs in
          elim (Bool-cases (is_reload req)) [
            | inl e ↦
                rest
                ∙ (ap (λ x. after_requests codec flags x (reloads rs)) (answer-reload t req d e)
                    ∙ rw e refl)
            | inr e ↦
                rest
                ∙ (ap (λ x. after_requests codec flags x (reloads rs)) (answer-other t req d e)
                    ∙ rw e refl)
          ]

      handled-config :
          (t : Moment F) (req : HttpRequest) (d : Daemon) (cfg : Config)
          → str_eq req.accept "application/x-yaml" ≡ false
          → d.served ≡ some cfg
          → handled t req d (some ("GET", "/config"))
            ≡ (write_json 200 (json_dump (to_config_dump string cfg)), d)
      unfolding handler handle_config
      handled-config t req d cfg a e = rw (e, a) refl

      -- What GET /config shows.
      answer-config :
          (t : Moment F) (accept : String) (d : Daemon) (cfg : Config)
          → str_eq accept "application/x-yaml" ≡ false
          → d.served ≡ some cfg
          → answered t (record { method = "GET"; path = "/config"; accept = accept }) d
            ≡ (write_json 200 (json_dump (to_config_dump string cfg)), d)
      unfolding serve
      answer-config t accept d cfg a e =
          let req : HttpRequest = record { method = "GET"; path = "/config"; accept = accept } in
          ap (λ m. handled t req d m) (laws.spelled ("GET", "/config") refl)
          ∙ handled-config t req d cfg a e

      handled-health :
          (t : Moment F) (req : HttpRequest) (d : Daemon)
          → handled t req d (some ("GET", "/healthz")) ≡ (health t, d)
      unfolding handler handle_healthz wire
      handled-health t req d = refl

      answer-health :
          (t : Moment F) (accept : String) (d : Daemon)
          → answered t (record { method = "GET"; path = "/healthz"; accept = accept }) d
            ≡ (health t, d)
      unfolding serve
      answer-health t accept d =
          let req : HttpRequest = record { method = "GET"; path = "/healthz"; accept = accept } in
          ap (λ m. handled t req d m) (laws.spelled ("GET", "/healthz") refl)
          ∙ handled-health t req d

    -- What the daemon does and shows, where `cfg` is the last configuration that loaded.
    pub record Lives (d : Daemon) (cfg : Config) : Type 0 where
      pub serves : Serves d cfg
      pub shown :
          (t : Moment F) (accept : String)
          → str_eq accept "application/x-yaml" ≡ false
          → answered t (record { method = "GET"; path = "/config"; accept = accept }) d
            ≡ (write_json 200 (json_dump (to_config_dump string cfg)), d)
      pub healthy :
          (t : Moment F) (accept : String)
          → answered t (record { method = "GET"; path = "/healthz"; accept = accept }) d
            ≡ (health t, d)
      pub unmoved :
          (t : Moment F) (req : HttpRequest) → is_reload req ≡ false → (answered t req d).1 ≡ d

    -- Once main has started its probes, and after any sequence of HTTP requests, one handled after the
    -- other, whatever the host, the files and the buffer are at each, as long as in the configurations
    -- that load, at the start and at each POST /reload, every probe has a positive interval: no
    -- goroutine has crashed the program, and the daemon serves the last configuration that loaded at a POST /reload
    -- among them, that of the start if none did: a worker runs for each of its probes, under its name
    -- and in their order, no other goroutine runs, and a scrape sees as many goroutines as there are
    -- probes; GET /config answers 200 with the dump of that configuration, where YAML is not asked for;
    -- GET /healthz answers 503 exactly if more than nine tenths of the buffer are in use; and no request
    -- but POST /reload changes any of it.
    pub life-Lives :
        ServeMuxLaws mux patterns
        → (host : Host) (disk : Disk) {Client : Type 0}
          (new_exporter : Config → Result NewError (OtlpExporter Client))
          (listen : String → Option String) (d : Daemon) (rs : List (Moment F × HttpRequest))
        → HasIntervals (loaded codec flags (host, disk))
        → All (λ r. HasIntervals (loaded codec flags r)) (reloads rs)
        → start_up host flags (load host codec disk) new_exporter listen ≡ ok d
        → (cfg : Config) × (load host codec disk flags.config flags.probes ≡ ok cfg)
          × Lives (after d rs) (last_loaded codec flags cfg (reloads rs))
    life-Lives laws host disk new_exporter listen d rs i is h =
        let (cfg, l, s) =
          life-Serves codec flags host disk new_exporter listen d (reloads rs) i is h in
        let last = last_loaded codec flags cfg (reloads rs) in
        let s' = subst (λ x. Serves x last) (sym (after_http-reloads laws d rs)) s in
        (
          cfg,
          l,
          record {
            serves = s';
            shown = λ t accept a. answer-config laws t accept (after d rs) last a s'.served;
            healthy = λ t accept. answer-health laws t accept (after d rs);
            unmoved = λ t req o. answer-other laws t req (after d rs) o;
          },
        )
