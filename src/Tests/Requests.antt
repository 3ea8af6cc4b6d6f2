-- ===== src/Tests/Requests.antt =====
-- Tests of requests at a running daemon.
use trimon.Base.{
  ℕ, String, ◌≡◌, refl, sym, ◌⊎◌, inl, inr, Bool, true, false, ◌&&◌, ◌||◌, Option, none, some, List,
  [], ◌∷◌, str_eq, eq_iff, if◌then◌else◌, ok, Bool-cases, any, arith,
}
use trimon.Types.Floats.{Frac, exact}
use trimon.Config.Schema.{Config}
use trimon.Config.Load.{load}
use trimon.Server.{write_json, not_found, metrics}
use trimon.Server.Routes.{HttpRequest, Pattern, is_pattern, ServeMux, ServeMuxLaws, patterns}
use trimon.Scheduler.{stop}
use trimon.Scheduler.Leak.{has_id}
use trimon.Main.{Daemon, prepare, start_probes, empty_table}
use trimon.Main.Life.{after_requests, last_loaded}
use trimon.Main.EarlyReload.{early_reload_leaks}
use trimon.Main.Requests.{Moment, after_http, reloads}
use trimon.Main.Life.{HasIntervals}
use trimon.Main.Requests.Lives.{Lives, life-Lives}
use trimon.Tests.Config.{host, codec}
use trimon.Tests.Daemon.{disk, no_disk, config, flags, exporter, daemon, loaded, started}

abbrev takes : String → String → Pattern → Bool
takes method path p =
    str_eq p.1 path && (str_eq p.0 method || (str_eq p.0 "GET" && str_eq method "HEAD"))

abbrev first_match : List Pattern → String → String → Option Pattern
first_match [] method path = none
first_match (p ∷ ps) method path =
    let rest = first_match ps method path in if takes method path p then some p else rest

takes-path : (method path : String) (p : Pattern) → takes method path p ≡ true → p.1 ≡ path
takes-path method path p h = ground (arith, h, eq_iff p.1 path)

takes-method :
    (method path : String) (p : Pattern)
    → takes method path p ≡ true
    → (p.0 ≡ method) ⊎ ((p.0 ≡ "GET") × (method ≡ "HEAD"))
takes-method method path p h = elim (Bool-cases (str_eq p.0 method)) [
  | inl e ↦ inl ((eq_iff p.0 method).0 e)
  | inr e ↦ inr (ground (arith, h, e, eq_iff p.0 "GET", eq_iff method "HEAD"))
]

first_match-takes :
    (ps : List Pattern) (method path : String) (p : Pattern)
    → first_match ps method path ≡ some p
    → takes method path p ≡ true
first_match-takes [] method path p h = cc
first_match-takes (q ∷ ps) method path p h = elim (Bool-cases (takes method path q)) [
  | inl e ↦ let same : q ≡ p = ground (arith, h, e) in rw (sym same) e
  | inr e ↦ first_match-takes ps method path p (ground (arith, h, e))
]

abbrev mux : ServeMux Frac
mux = record {
  match = λ ps method path. first_match ps method path;
  refusal = λ req. write_json 404 not_found;
}

is_pattern-eq : (p q : Pattern) → is_pattern p q ≡ true → p ≡ q
is_pattern-eq (a, b) (c, d) h =
    let x : a ≡ c = ground (arith, h, eq_iff a c) in
    let y : b ≡ d = ground (arith, h, eq_iff b d) in cc

match-spelled :
    (p : Pattern) → any (is_pattern p) patterns ≡ true → first_match patterns p.0 p.1 ≡ some p
match-spelled p h = elim (Bool-cases (is_pattern p ("GET", "/healthz"))) [
  | inl e ↦ rw (is_pattern-eq p ("GET", "/healthz") e) refl
  | inr a ↦ elim (Bool-cases (is_pattern p ("GET", "/metrics"))) [
    | inl e ↦ rw (is_pattern-eq p ("GET", "/metrics") e) refl
    | inr b ↦ elim (Bool-cases (is_pattern p ("POST", "/reload"))) [
      | inl e ↦ rw (is_pattern-eq p ("POST", "/reload") e) refl
      | inr c ↦
          rw
            (is_pattern-eq p ("GET", "/config")
              (let h' : any (is_pattern p) patterns ≡ true = h in ground (arith, a, b, c, h')))
            refl
    ]
  ]
]

mux-laws : ServeMuxLaws mux patterns
mux-laws = record {
  matched_path =
      λ method path p h. takes-path method path p (first_match-takes patterns method path p h);
  matched_method =
      λ method path p h. takes-method method path p (first_match-takes patterns method path p h);
  spelled = match-spelled;
}

abbrev moment : Moment Frac
moment = record {
  host = host;
  disk = disk;
  results = record { capacity = 8; items = []; closed = false };
  metrics = record { status = 200; content_type = "text/plain"; body = metrics };
}

abbrev asks : String → String → HttpRequest
asks method path = record { method = method; path = path; accept = "" }

-- A reload that fails, one that succeeds, and requests that change nothing.
abbrev requests : List (Moment Frac × HttpRequest)
requests =
    (record moment { disk = no_disk }, asks "POST" "/reload")
    ∷ (moment, asks "GET" "/metrics")
    ∷ (moment, asks "POST" "/reload")
    ∷ (moment, asks "GET" "/reload")
    ∷ []

intervals : HasIntervals (load host codec disk flags.config flags.probes)
intervals = rw loaded refl

no_intervals : HasIntervals (load host codec no_disk flags.config flags.probes)
unfolding load
no_intervals = tt

life-Lives_example :
    (cfg : Config) × (load host codec disk flags.config flags.probes ≡ ok cfg)
    × Lives exact codec flags mux
        (λ dump. none)
        (λ d. "")
        ":9090"
        (after_http exact codec flags mux (λ dump. none) (λ d. "") ":9090" daemon requests)
        (last_loaded codec flags cfg (reloads requests))
life-Lives_example =
    life-Lives exact codec flags mux (λ dump. none) (λ d. "") ":9090" mux-laws host disk
      (λ cfg. ok exporter) (λ addr. none) daemon requests intervals (no_intervals, (intervals, tt))
      started

abbrev waiting : Daemon
waiting = record { served = some config; scheduler = empty_table; config_reloads = 0 }

prepared :
    prepare flags (load host codec disk) (λ cfg. ok exporter) (λ addr. none) ≡ ok (config, waiting)
unfolding prepare trimon.Server.start
prepared = rw loaded refl

-- The reload that comes early reads the same files.
early_reload_leaks_example :
    let d = start_probes host config (after_requests codec flags waiting ((host, disk) ∷ [])) in
    (i : ℕ) × (has_id i (stop (after_requests codec flags d ((host, disk) ∷ [])).scheduler).live
      ≡ true)
early_reload_leaks_example =
    early_reload_leaks codec flags host disk (λ cfg. ok exporter) (λ addr. none) config waiting disk
      config "gateway" ((host, disk) ∷ []) prepared loaded refl refl
