-- ===== src/Exporters/Stdout.antt =====
-- internal/exporter/stdout/stdout.go: the record or the line that Export writes for one result. The
-- formats of the fmt and time packages are parameters; the writer, and what it returns, is outside.
pub mod Agreement
use Prim.Native.String.{◌++◌ as ◌<>◌}
use trimon.Base.{
  ℕ, String, Bool, not, Option, none, some, List, [], ◌∷◌, ◌++◌, str_eq, if◌then◌else◌,
}
use trimon.Types.{
  ProbeResult, Rtt, Measured, Status, unset, success, partial, failure, error, Labels, measured,
  probe_type_http,
}
use trimon.Types.Floats.{FloatOps, of_ℕ}
use trimon.Config.Validate.{entries}

pub record JsonRecord (F : Type 0) : Type 0 where
  pub ts : String
  pub probe : String
  pub type : String
  pub target : String
  pub fqdn : String
  pub source_ip : String
  pub status : String
  pub duration_ms : Option F
  pub rtt_mean_ms : Option F
  pub rtt_min_ms : Option F
  pub rtt_max_ms : Option F
  pub rtt_stddev_ms : Option F
  pub packet_loss : Option F
  pub error_msg : String
  pub error_type : String
  pub labels : List (String × String)

-- A value of the encoded record.
pub data Json (F : Type 0) : Type 0 where
  text : String → Json F
  number : F → Json F
  object : List (String × String) → Json F

-- `%q`, `%.2f`, `%.0f`, and the time in RFC 3339.
pub record Formats (F : Type 0) : Type 0 where
  pub quoted : String → String
  pub fixed_2 : F → String
  pub fixed_0 : F → String
  pub rfc3339 : ℕ → String

-- `string(r.Status)`.
unfoldable pub status_text : Status → String
status_text unset = ""
status_text success = "success"
status_text partial = "partial"
status_text failure = "failure"
status_text error = "error"

-- The fields of a record that the encoder writes, by their tags: `omitempty` leaves out the empty
-- text and the nil pointer.
module _ {F : Type 0} where
  abbrev unless_empty : String → String → List (String × Json F)
  unless_empty key value = if str_eq value "" then [] else (key, text value) ∷ []

  abbrev pub unless_nil : String → Option F → List (String × Json F)
  unless_nil key none = []
  unless_nil key (some x) = (key, number x) ∷ []

  abbrev pub encode_error : JsonRecord F → List (String × Json F)
  encode_error rec =
      unless_empty "error_msg" rec.error_msg
      ++ (unless_empty "error_type" rec.error_type ++ ("labels", object rec.labels) ∷ [])

  abbrev pub encode_numbers : JsonRecord F → List (String × Json F)
  encode_numbers rec =
      unless_nil "duration_ms" rec.duration_ms
      ++ (unless_nil "rtt_mean_ms" rec.rtt_mean_ms
          ++ (unless_nil "rtt_min_ms" rec.rtt_min_ms
              ++ (unless_nil "rtt_max_ms" rec.rtt_max_ms
                  ++ (unless_nil "rtt_stddev_ms" rec.rtt_stddev_ms
                      ++ (unless_nil "packet_loss" rec.packet_loss ++ encode_error rec)))))

  unfoldable pub encode : JsonRecord F → List (String × Json F)
  encode rec =
      ("ts", text rec.ts)
        ∷ ("probe", text rec.probe)
        ∷ ("type", text rec.type)
        ∷ ("target", text rec.target)
        ∷ unless_empty "fqdn" rec.fqdn
      ++ ("source_ip", text rec.source_ip) ∷ ("status", text rec.status) ∷ encode_numbers rec

module _ {F : Type 0} where
  -- The addresses of the fields of `m.RTT`, if there is one.
  abbrev pub rtt_field : (Rtt F → F) → Option (Rtt F) → Option F
  rtt_field pick none = none
  rtt_field pick (some t) = some (pick t)

module _ {F : Type 0} (fl : FloatOps F) (formats : Formats F) where
  unfoldable pub json_record : ProbeResult F → JsonRecord F
  unfolding status_text measured
  json_record r =
      let m = measured fl r in
      record {
        ts = formats.rfc3339 r.timestamp;
        probe = r.probe_name;
        type = r.probe_type;
        target = r.target;
        fqdn = r.fqdn;
        source_ip = r.source_ip;
        status = status_text r.status;
        duration_ms = m.duration;
        rtt_mean_ms = rtt_field (λ t. t.mean_ms) m.rtt;
        rtt_min_ms = rtt_field (λ t. t.min_ms) m.rtt;
        rtt_max_ms = rtt_field (λ t. t.max_ms) m.rtt;
        rtt_stddev_ms = rtt_field (λ t. t.stddev_ms) m.rtt;
        packet_loss = m.loss;
        error_msg = r.error_msg;
        error_type = r.error_type;
        labels = entries r.labels;
      }

  unfoldable pub error_part : String → String
  error_part message = if not (str_eq message "") then " error=" <> formats.quoted message else ""

  unfoldable pub fqdn_text : String → String
  fqdn_text fqdn = if not (str_eq fqdn "") then " fqdn=" <> fqdn else ""

  unfoldable pub loss_text : Option F → String
  loss_text none = ""
  loss_text (some loss) = " loss=" <> formats.fixed_0 (fl.mul loss (of_ℕ fl 100)) <> "%"

  -- What the two formats have in common.
  unfoldable pub line_head : ProbeResult F → String
  unfolding fqdn_text loss_text status_text measured
  line_head r =
      formats.rfc3339 r.timestamp
      <> " probe="
      <> r.probe_name
      <> " type="
      <> r.probe_type
      <> " target="
      <> r.target
      <> fqdn_text r.fqdn
      <> " src="
      <> r.source_ip
      <> " status="
      <> status_text r.status
      <> loss_text (measured fl r).loss

  unfoldable pub write_text : ProbeResult F → String
  unfolding line_head error_part
  write_text r =
      if str_eq r.probe_type probe_type_http
      then line_head r
        <> " duration="
        <> formats.fixed_2 r.duration_ms
        <> "ms"
        <> error_part r.error_msg
        <> "\n"
      else line_head r
        <> " rtt_mean="
        <> formats.fixed_2 r.rtt_mean_ms
        <> "ms rtt_min="
        <> formats.fixed_2 r.rtt_min_ms
        <> "ms rtt_max="
        <> formats.fixed_2 r.rtt_max_ms
        <> "ms"
        <> error_part r.error_msg
        <> "\n"

  -- What is written: the fields of a record, or a line.
  pub data Output : Type 0 where
    json : List (String × Json F) → Output
    line : String → Output

  unfoldable pub export : String → ProbeResult F → Output
  unfolding json_record encode write_text
  export format r =
      if str_eq format "json" then json (encode (json_record r)) else line (write_text r)
