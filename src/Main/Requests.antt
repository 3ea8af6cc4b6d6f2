-- ===== src/Main/Requests.antt =====
-- cmd/trimon/main.go: the server as main wires it, and the daemon through HTTP requests of any kind.
pub mod Lives
use trimon.Base.{ℕ, String, Bool, ◌&&◌, Option, List, [], ◌∷◌, str_eq, if◌then◌else◌}
use trimon.Base.Int.{ℤ}
use trimon.Net.{Host}
use trimon.Types.{ProbeResult}
use trimon.Types.Floats.{FloatOps}
use trimon.Config.Schema.{Error}
use trimon.Config.Load.{Codec, Disk}
use trimon.Pipeline.{Channel, buffer_usage}
use trimon.Server.{Response}
use trimon.Server.Dump.{ConfigDump}
use trimon.Server.Routes.{
  HttpRequest, ServeMux, Server, new, set_metrics_handler, set_reload_func, set_health_checker,
  handler, serve,
}
use trimon.Main.{Daemon, Flags, reload_func}
use trimon.Main.Life.{Request, loaded}

-- What a callback of the server finds when a request is served: the host and its files, the channel of
-- the pipeline, and what the Prometheus handler writes.
pub record Moment (F : Type 0) : Type 0 where
  pub host : Host
  pub disk : Disk
  pub results : Channel (ProbeResult F)
  pub metrics : Response F

abbrev pub is_reload : HttpRequest → Bool
is_reload req = str_eq req.method "POST" && str_eq req.path "/reload"

-- The moments of the reloads among the requests.
abbrev pub reloads : {F : Type 0} → List (Moment F × HttpRequest) → List Request
reloads [] = []
reloads ((t, req) ∷ rs) =
    let rest = reloads rs in if is_reload req then (t.host, t.disk) ∷ rest else rest

module _ {F : Type 0} (fl : FloatOps F) (codec : Codec) (flags : Flags) where
  -- The server of main.
  unfoldable pub wire : String → Server F (Moment F) Daemon
  unfolding new set_metrics_handler set_reload_func set_health_checker
  wire listen =
      set_reload_func (λ t d. reload_func t.host (loaded codec flags (t.host, t.disk)) d)
        (set_health_checker (λ t. buffer_usage fl t.results)
          (set_metrics_handler (λ t. t.metrics) (new listen)))

  module _ (mux : ServeMux F) (marshal : ConfigDump → Option (List ℕ)) (string : ℤ → String)
      (listen : String) where
    -- One request at the daemon.
    abbrev pub answer : Moment F → HttpRequest → Daemon → Response F × Daemon
    answer t req d = serve fl mux marshal string (λ x. x.served) (wire listen) t req d

    -- The daemon after the requests, each served at its moment.
    abbrev pub after_http : Daemon → List (Moment F × HttpRequest) → Daemon
    after_http d [] = d
    after_http d ((t, req) ∷ rs) = after_http (answer t req d).1 rs
