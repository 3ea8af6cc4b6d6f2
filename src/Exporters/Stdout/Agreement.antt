-- ===== src/Exporters/Stdout/Agreement.antt =====
-- The stdout exporter and the gauges of the OTLP exporter on one result.
use trimon.Base.{
  ◌≡◌, refl, sym, ap, ◌∙◌, String, Option, none, some, List, [], ◌∷◌, ◌++◌, str_eq, All, arith,
  if◌then◌else◌,
}
use trimon.Types.{ProbeResult, Rtt, measured}
use trimon.Types.Floats.{FloatOps}
use trimon.Exporters.Otlp.{
  FloatGauge, rtt_min, rtt_mean, rtt_max, rtt_stddev, packet_loss, http_duration, port_open_gauge,
  port_open_value, count_packets, record_gauges, rtt_values, or_nan,
}
use trimon.Exporters.Otlp
use trimon.Exporters.Otlp.Readings.{float_values}
use trimon.Exporters.Stdout.{
  Json, Formats, JsonRecord, text, number, object, encode, encode_error, encode_numbers, rtt_field,
  unless_empty, unless_nil, json_record,
}

module _ {F : Type 0} where
  -- The number under a key, if there is one.
  abbrev pub number_at : String → List (String × Json F) → Option F
  number_at k [] = none
  number_at k ((k', number x) ∷ fields) = if str_eq k' k then some x else number_at k fields
  number_at k ((k', text s) ∷ fields) = number_at k fields
  number_at k ((k', object m) ∷ fields) = number_at k fields

  abbrev or_else : Option F → Option F → Option F
  or_else (some x) other = some x
  or_else none other = other

  or_else-none : (o : Option F) → or_else o none ≡ o
  or_else-none none = refl
  or_else-none (some x) = refl

  -- The number at a key, where a field of this key and value comes first.
  abbrev first : String → String → Option F → Option F → Option F
  first k k' o rest = if str_eq k' k then or_else o rest else rest

  at_text :
      (k k' v : String) (rest : List (String × Json F))
      → number_at k (unless_empty k' v ++ rest) ≡ number_at k rest
  at_text k k' v rest = ground arith

  at_number :
      (k k' : String) (o : Option F) (rest : List (String × Json F)) {value : Option F}
      → number_at k rest ≡ value
      → number_at k (unless_nil k' o ++ rest) ≡ first k k' o value
  at_number k k' none rest h = ground (arith, h)
  at_number k k' (some x) rest h = ground (arith, h)

  encode_error-number_at : (k : String) (rec : JsonRecord F) → number_at k (encode_error rec) ≡ none
  encode_error-number_at k rec =
      at_text k "error_msg" rec.error_msg
        (unless_empty "error_type" rec.error_type ++ ("labels", object rec.labels) ∷ [])
      ∙ at_text k "error_type" rec.error_type (("labels", object rec.labels) ∷ [])

  abbrev numbers_of : String → JsonRecord F → Option F
  numbers_of k rec = first k "duration_ms" rec.duration_ms (
      first k "rtt_mean_ms" rec.rtt_mean_ms (
        first k "rtt_min_ms" rec.rtt_min_ms (
          first k "rtt_max_ms" rec.rtt_max_ms (
            first k "rtt_stddev_ms" rec.rtt_stddev_ms
              (first k "packet_loss" rec.packet_loss none)))))

  encode_numbers-number_at :
      (k : String) (rec : JsonRecord F) → number_at k (encode_numbers rec) ≡ numbers_of k rec
  encode_numbers-number_at k rec = at_number k "duration_ms" rec.duration_ms _ (
      at_number k "rtt_mean_ms" rec.rtt_mean_ms _ (
        at_number k "rtt_min_ms" rec.rtt_min_ms _ (
          at_number k "rtt_max_ms" rec.rtt_max_ms _ (
            at_number k "rtt_stddev_ms" rec.rtt_stddev_ms _ (
              at_number k "packet_loss" rec.packet_loss (encode_error rec)
                (encode_error-number_at k rec))))))

  -- The numbers of an encoded record.
  encode-number_at : (k : String) (rec : JsonRecord F) → number_at k (encode rec) ≡ numbers_of k rec
  unfolding encode
  encode-number_at k rec =
      at_text k "fqdn" rec.fqdn
        (("source_ip", text rec.source_ip) ∷ ("status", text rec.status) ∷ encode_numbers rec)
      ∙ encode_numbers-number_at k rec

-- The gauges that have a field, with its key.
abbrev pub shared : List (FloatGauge × String)
shared =
    (rtt_min, "rtt_min_ms")
    ∷ (rtt_mean, "rtt_mean_ms")
    ∷ (rtt_max, "rtt_max_ms")
    ∷ (rtt_stddev, "rtt_stddev_ms")
    ∷ (packet_loss, "packet_loss")
    ∷ (http_duration, "duration_ms")
    ∷ []

module _ {F : Type 0} (fl : FloatOps F) where
  -- What the gauges of floats record for a result.
  abbrev shown : ProbeResult F → FloatGauge → F
  shown r g =
      let m = measured fl r in
      let (lowest, mean, highest, stddev) = rtt_values fl m.rtt in
      elim g [
        | rtt_min ↦ lowest
        | rtt_mean ↦ mean
        | rtt_max ↦ highest
        | rtt_stddev ↦ stddev
        | packet_loss ↦ or_nan fl m.loss
        | http_duration ↦ or_nan fl m.duration
        | port_open_gauge ↦ port_open_value fl m.port_open
      ]

  export-shown :
      (r : ProbeResult F) (g : FloatGauge) → float_values g (Otlp.export fl r) ≡ shown r g ∷ []
  unfolding Otlp.export count_packets record_gauges
  export-shown r rtt_min = ground arith
  export-shown r rtt_mean = ground arith
  export-shown r rtt_max = ground arith
  export-shown r rtt_stddev = ground arith
  export-shown r packet_loss = ground arith
  export-shown r http_duration = ground arith
  export-shown r port_open_gauge = ground arith

  rtt_values-field :
      (o : Option (Rtt F))
      → let (lowest, mean, highest, stddev) = rtt_values fl o in
        (lowest ≡ or_nan fl (rtt_field {F = F} (λ t. t.min_ms) o))
        × (mean ≡ or_nan fl (rtt_field {F = F} (λ t. t.mean_ms) o))
        × (highest ≡ or_nan fl (rtt_field {F = F} (λ t. t.max_ms) o))
        × (stddev ≡ or_nan fl (rtt_field {F = F} (λ t. t.stddev_ms) o))
  unfolding rtt_values or_nan
  rtt_values-field none = (refl, refl, refl, refl)
  rtt_values-field (some t) = (refl, refl, refl, refl)

  agree :
      (x : F) (o p : Option F) → x ≡ or_nan fl o → p ≡ or_else o none → x ∷ [] ≡ or_nan fl p ∷ []
  agree x o p e f = ap (λ y. y ∷ []) (e ∙ ap (or_nan fl) (sym (f ∙ or_else-none o)))

  module _ (formats : Formats F) where
    -- For every result, each of these gauges of the OTLP exporter records the number that the JSON
    -- record has under the key of the gauge, and NaN where the record has no such key.
    pub json-agrees :
        (r : ProbeResult F)
        → All
            (λ (g, k).
              float_values g (Otlp.export fl r)
              ≡ or_nan fl (number_at k (encode (json_record fl formats r))) ∷ [])
            shared
    unfolding json_record
    json-agrees r =
        let rec = json_record fl formats r in
        let at = λ (k : String). encode-number_at k rec in
        let (a, b, c, d) = rtt_values-field (measured fl r).rtt in
        (
          export-shown r rtt_min ∙ agree _ _ _ a (at "rtt_min_ms"),
          (
            export-shown r rtt_mean ∙ agree _ _ _ b (at "rtt_mean_ms"),
            (
              export-shown r rtt_max ∙ agree _ _ _ c (at "rtt_max_ms"),
              (
                export-shown r rtt_stddev ∙ agree _ _ _ d (at "rtt_stddev_ms"),
                (
                  export-shown r packet_loss ∙ agree _ _ _ refl (at "packet_loss"),
                  (export-shown r http_duration ∙ agree _ _ _ refl (at "duration_ms"), tt),
                ),
              ),
            ),
          ),
        )
