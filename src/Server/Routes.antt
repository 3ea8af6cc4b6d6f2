-- ===== src/Server/Routes.antt =====
-- internal/server/server.go: New, the setters, and which handler serves a request. `T` is a moment, at
-- which a callback looks at the rest of the program; http.ServeMux is a parameter.
use trimon.Base.{
  String, ◌≡◌, ◌⊎◌, Bool, ◌&&◌, Option, none, some, List, [], ◌∷◌, ℕ, str_eq, if◌then◌else◌, Result,
  any, true,
}
use trimon.Base.Int.{ℤ}
use trimon.Types.Floats.{FloatOps}
use trimon.Config.Schema.{Config, Error}
use trimon.Server.{Response, handle_healthz, handle_metrics, handle_reload, handle_config}
use trimon.Server.Dump.{ConfigDump}

pub record HttpRequest : Type 0 where
  pub method : String
  pub path : String
  pub accept : String

-- A pattern such as "GET /healthz", its method and its path apart.
abbrev pub Pattern : Type 0
Pattern = String × String

abbrev pub is_pattern : Pattern → Pattern → Bool
is_pattern p q = str_eq p.0 q.0 && str_eq p.1 q.1

-- `match` is the pattern that a request goes to, and `refusal` what is written where there is none.
pub record ServeMux (F : Type 0) : Type 0 where
  pub match : List Pattern → String → String → Option Pattern
  pub refusal : HttpRequest → Response F

-- What net/http documents of patterns with a method and a path without wildcards: the path is the
-- request's, and so is the method, but that GET also takes HEAD; and a request that a pattern spells goes
-- to that pattern.
pub record ServeMuxLaws {F : Type 0} (mux : ServeMux F) (registered : List Pattern) : Type 0 where
  pub matched_path :
      (method path : String) (p : Pattern) → mux.match registered method path ≡ some p → p.1 ≡ path
  pub matched_method :
      (method path : String) (p : Pattern)
      → mux.match registered method path ≡ some p
      → (p.0 ≡ method) ⊎ ((p.0 ≡ "GET") × (method ≡ "HEAD"))
  pub spelled :
      (p : Pattern) → any (is_pattern p) registered ≡ true → mux.match registered p.0 p.1 ≡ some p

-- The patterns that New registers.
abbrev pub patterns : List Pattern
patterns = ("GET", "/healthz") ∷ ("GET", "/metrics") ∷ ("POST", "/reload") ∷ ("GET", "/config") ∷ []

abbrev at : {T A : Type 0} → Option (T → A) → T → Option A
at none t = none
at (some f) t = some (f t)

module _ (F T S : Type 0) where
  pub record Server : Type 0 where
    pub addr : String
    pub metrics_handler : Option (T → Response F)
    pub reload_func : Option (T → S → Result Error Config × S)
    pub health_checker : Option (T → F)

module _ {F T S : Type 0} where
  unfoldable pub new : String → Server F T S
  new addr = record {
    addr = addr;
    metrics_handler = none;
    reload_func = none;
    health_checker = none;
  }

  unfoldable pub set_metrics_handler : (T → Response F) → Server F T S → Server F T S
  set_metrics_handler h s = record s { metrics_handler = some h }

  unfoldable pub set_reload_func : (T → S → Result Error Config × S) → Server F T S → Server F T S
  set_reload_func f s = record s { reload_func = some f }

  unfoldable pub set_health_checker : (T → F) → Server F T S → Server F T S
  set_health_checker f s = record s { health_checker = some f }

  module _ (fl : FloatOps F) (mux : ServeMux F) (marshal : ConfigDump → Option (List ℕ))
      (string : ℤ → String) (current_cfg : S → Option Config) where
    -- The handler that is registered for the pattern that a request goes to.
    unfoldable pub handler : Server F T S → T → HttpRequest → S → Option Pattern → Response F × S
    handler srv t req s none = (mux.refusal req, s)
    handler srv t req s (some p) =
        if is_pattern p ("GET", "/healthz")
        then (handle_healthz fl (at srv.health_checker t), s)
        else if is_pattern p ("GET", "/metrics")
        then (handle_metrics (at srv.metrics_handler t), s)
        else if is_pattern p ("POST", "/reload")
        then handle_reload (at srv.reload_func t) s
        else if is_pattern p ("GET", "/config")
        then (handle_config marshal string (current_cfg s) req.accept, s)
        else (mux.refusal req, s)

    unfoldable pub serve : Server F T S → T → HttpRequest → S → Response F × S
    unfolding handler
    serve srv t req s = handler srv t req s (mux.match patterns req.method req.path)
