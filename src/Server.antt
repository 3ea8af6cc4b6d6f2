-- ===== src/Server.antt =====
-- internal/server/server.go: the handlers, and the dump of the configuration. The state that a reload
-- changes is that of the caller, and passed through; a handler writes a Response. The mutex makes two
-- reloads follow each other, as two calls of `handle_reload` do.
pub mod Dump
pub mod ReadBack
pub mod Routes
use trimon.Base.{
  ℕ, String, Bool, true, false, Option, none, some, List, length, str_eq, if◌then◌else◌, Result, ok,
  err,
}
use trimon.Types.Floats.{FloatOps, of_ℕ}
use trimon.Config.Schema.{Config, Error, nil_dereference}
use trimon.Base.Int.{ℤ}
use Dump.{ConfigDump, to_config_dump}

-- The error of `Start`: the address, and the error of `net.Listen`.
pub record BindError : Type 0 where
  pub addr : String
  pub cause : String

-- `Start`, up to its goroutine: `listen` is `net.Listen`, by the error that it gives, if any.
unfoldable pub start : (String → Option String) → String → Result BindError (Unit {0})
start listen addr = elim (listen addr) [
  | some e ↦ err (record { addr = addr; cause = e })
  | none ↦ ok tt
]

-- An error that stands for a panic.
abbrev pub is_panic : Error → Bool
is_panic nil_dereference = true
is_panic _ = false

-- What is written after the header.
pub data Body (F : Type 0) : Type 0 where
  healthy : Body F
  degraded : F → Body F
  -- What the handler of the metrics writes, and `http.NotFound`.
  metrics not_found : Body F
  -- `{"error": ...}`, `{"reloaded": false, "error": ...}` and `{"reloaded": true, "probes": n}`.
  failed : String → Body F
  rejected : String → Body F
  reloaded : ℕ → Body F
  json_dump : ConfigDump → Body F
  yaml_dump : List ℕ → Body F
  plain : String → Body F
  -- Nothing: the handler panicked, which net/http recovers from by closing the connection.
  aborted : Body F

pub record Response (F : Type 0) : Type 0 where
  pub status : ℕ
  pub content_type : String
  pub body : Body F

abbrev status_ok : ℕ
status_ok = 200

abbrev status_bad_request : ℕ
status_bad_request = 400

abbrev status_not_found : ℕ
status_not_found = 404

abbrev status_internal : ℕ
status_internal = 500

abbrev status_unavailable : ℕ
status_unavailable = 503

module _ {F : Type 0} where
  abbrev pub write_json : ℕ → Body F → Response F
  write_json status body = record {
    status = status;
    content_type = "application/json";
    body = body;
  }

  -- The metrics handler chooses its own status and type.
  unfoldable pub handle_metrics : Option (Response F) → Response F
  handle_metrics (some response) = response
  handle_metrics none = record {
    status = status_not_found;
    content_type = "text/plain; charset=utf-8";
    body = not_found;
  }

  module _ {S : Type 0} where
    unfoldable pub after_reload : Result Error Config × S → Response F × S
    after_reload (err e, s) = (
      if is_panic e
          then record { status = 0; content_type = ""; body = aborted }
          else write_json status_bad_request (rejected "configuration invalid; see server logs"),
      s,
    )
    after_reload (ok cfg, s) = (write_json status_ok (reloaded (length cfg.probes)), s)

    unfoldable pub handle_reload : Option (S → Result Error Config × S) → S → Response F × S
    unfolding after_reload
    handle_reload none s = (write_json status_unavailable (failed "reload not configured"), s)
    handle_reload (some reload_func) s = after_reload (reload_func s)

  -- `marshal` is the YAML encoder, `none` for an error, and `string` the text of a duration.
  unfoldable pub handle_config :
      (ConfigDump → Option (List ℕ)) → (ℤ → String) → Option Config → String → Response F
  handle_config marshal string none accept =
      write_json status_unavailable (failed "config not yet loaded")
  handle_config marshal string (some cfg) accept =
      let dump = to_config_dump string cfg in
      if str_eq accept "application/x-yaml"
      then elim (marshal dump) [
        | none ↦ record {
          status = status_internal;
          content_type = "text/plain; charset=utf-8";
          body = plain "internal error";
        }
        | some b ↦ record {
          status = status_ok;
          content_type = "application/x-yaml";
          body = yaml_dump b;
        }
      ]
      else write_json status_ok (json_dump dump)

module _ {F : Type 0} (fl : FloatOps F) where
  abbrev pub health_buffer_threshold : F
  health_buffer_threshold = fl.div (of_ℕ fl 9) (of_ℕ fl 10)

  -- The usage that the health checker gives, if there is one.
  unfoldable pub handle_healthz : Option F → Response F
  handle_healthz none = write_json status_ok healthy
  handle_healthz (some usage) =
      if fl.lt health_buffer_threshold usage
      then write_json status_unavailable (degraded usage)
      else write_json status_ok healthy
