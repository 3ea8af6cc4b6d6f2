-- ===== src/Exporters/Otlp/Rendering.antt =====
-- What the instruments show of one TCP or UDP probe, in terms of each other (docs/metrics.md).
use trimon.Base.{
  ltb→lt, ap, sym, Bool-cases, Option-cases, refl, ◌∙◌, ℕ, ◌≤◌, ◌<◌, String, ◌≡◌, ◌⊎◌, inl, inr,
  Bool, true, false, none, some, List, [], ◌∷◌, ltb, ◌==◌, if◌then◌else◌, arith,
}
use trimon.Base.Int.{pos}
use trimon.Types.{ProbeConfig, ProbeResult, error, is_error, is_up, is_success, measured}
use trimon.Probe.Run.StatusOf.{status_of}
use trimon.Types.Floats.{FloatOps, FloatLaws, of_ℕ, max_exact}
use trimon.Probe.Targets.{WorkItem}
use trimon.Probe.Run.Outcome.{IsMeasured}
use trimon.Probe.Ports.{Answer, port_probe}
use trimon.Probe.Ports.PortOpen.{Encoding, port_probe-Encoding}
use trimon.Probe.Ports.Counted.{IsCounted, port_probe-IsCounted}
use trimon.Exporters.Otlp.{
  Attrs, Reading, FloatGauge, probe_runs, probe_errors, pkt_sent, pkt_received, rtt_min, rtt_mean,
  rtt_max, rtt_stddev, packet_loss, port_open_gauge, success_gauge, probe_up, count_packets,
  record_gauges, status_values, rtt_values, or_nan, port_open_value, export,
}
use trimon.Exporters.Otlp.Readings.{total, float_values, int_values}

abbrev any_attrs : Attrs → Bool
any_attrs attrs = true

module _ {F : Type 0} (fl : FloatOps F) where
  -- A run that was made: the counters and the gauges agree.
  pub record ShowsRun (count : ℕ) (rs : List (Reading F)) : Type 0 where
    pub runs : total probe_runs any_attrs rs ≡ 1
    pub errors : total probe_errors any_attrs rs ≡ 0
    pub some_sent : 0 < total pkt_sent any_attrs rs
    pub at_most : total pkt_sent any_attrs rs ≤ count
    pub received : total pkt_received any_attrs rs ≤ total pkt_sent any_attrs rs
    pub up :
        int_values probe_up rs ≡ (if ltb 0 (total pkt_received any_attrs rs) then 1 else 0) ∷ []
    pub success :
        int_values success_gauge rs
        ≡ (if total pkt_received any_attrs rs == total pkt_sent any_attrs rs then 1 else 0) ∷ []
    pub port :
        (float_values port_open_gauge rs ≡ of_ℕ fl 0 ∷ [])
        ⊎ ((float_values port_open_gauge rs ≡ of_ℕ fl 1 ∷ [])
            × (0 < total pkt_received any_attrs rs))

  abbrev IsNanOn : List (Reading F) → FloatGauge → Type 0
  IsNanOn rs g = float_values g rs ≡ fl.nan ∷ []

  -- A run that could not be made: one more error, and nothing measured.
  pub record ShowsError (rs : List (Reading F)) : Type 0 where
    pub runs : total probe_runs any_attrs rs ≡ 1
    pub errors : total probe_errors any_attrs rs ≡ 1
    pub sent : total pkt_sent any_attrs rs ≡ 0
    pub received : total pkt_received any_attrs rs ≡ 0
    pub up : int_values probe_up rs ≡ 0 ∷ []
    pub success : int_values success_gauge rs ≡ 0 ∷ []
    pub rtt : IsNanOn rs rtt_min × IsNanOn rs rtt_mean × IsNanOn rs rtt_max × IsNanOn rs rtt_stddev
    pub loss : IsNanOn rs packet_loss
    pub port : IsNanOn rs port_open_gauge

  module _ (r : ProbeResult F) where
    runs_of : total probe_runs any_attrs (export fl r) ≡ 1
    unfolding export count_packets record_gauges
    runs_of = ground arith

    errors_of : total probe_errors any_attrs (export fl r) ≡ (if is_error r.status then 1 else 0)
    unfolding export count_packets record_gauges
    errors_of = ground arith

    sent_of :
        total pkt_sent any_attrs (export fl r) ≡ (if is_error r.status then 0 else r.packets_sent)
    unfolding export count_packets record_gauges
    sent_of = ground arith

    received_of :
        total pkt_received any_attrs (export fl r)
        ≡ (if is_error r.status then 0 else r.packets_received)
    unfolding export count_packets record_gauges
    received_of = ground arith

    up_of : int_values probe_up (export fl r) ≡ (if is_up r.status then 1 else 0) ∷ []
    unfolding export count_packets record_gauges status_values
    up_of = ground arith

    success_of :
        int_values success_gauge (export fl r) ≡ (if is_success r.status then 1 else 0) ∷ []
    unfolding export count_packets record_gauges status_values
    success_of = ground arith

    port_of : float_values port_open_gauge (export fl r) ≡ port_open_value fl r.port_open ∷ []
    unfolding export count_packets record_gauges measured
    port_of = ground arith

  status_of-values :
      (received sent : ℕ)
      → 0 < sent
      → received ≤ sent
      → let s = status_of received sent in
        (is_error s ≡ false) × (is_up s ≡ ltb 0 received) × (is_success s ≡ (received == sent))
  status_of-values received sent h k = ground arith

  made-ShowsRun :
      (count : ℕ) (r : ProbeResult F) (got : Bool)
      → IsMeasured count r
      → r.port_open ≡ some got
      → (got ≡ true → 0 < r.packets_received)
      → ShowsRun count (export fl r)
  unfolding port_open_value
  made-ShowsRun count r got m p h =
      let (e, u, s) = status_of-values r.packets_received r.packets_sent m.some_sent m.received in
      let live : is_error r.status ≡ false = rw m.status e in
      let sent : total pkt_sent any_attrs (export fl r) ≡ r.packets_sent =
        sent_of r ∙ rw live refl in
      let received : total pkt_received any_attrs (export fl r) ≡ r.packets_received =
        received_of r ∙ rw live refl in
      record {
        runs = runs_of r;
        errors = errors_of r ∙ rw live refl;
        some_sent = rw sent m.some_sent;
        at_most = rw sent m.at_most;
        received = rw (sent, received) m.received;
        up = rw received (up_of r ∙ rw (m.status, u) refl);
        success = rw (sent, received) (success_of r ∙ rw (m.status, s) refl);
        port = elim (Bool-cases got) [
          | inl g ↦ inr (port_of r ∙ rw (p, g) refl, rw received (h g))
          | inr g ↦ inl (port_of r ∙ rw (p, g) refl)
        ];
      }

  lost-ShowsError :
      (r : ProbeResult F)
      → r.status ≡ error
      → r.packets_received ≡ 0
      → r.port_open ≡ none
      → ShowsError (export fl r)
  unfolding port_open_value export count_packets record_gauges rtt_values or_nan measured
  lost-ShowsError r e z p = record {
    runs = runs_of r;
    errors = errors_of r ∙ rw e refl;
    sent = sent_of r ∙ rw e refl;
    received = received_of r ∙ rw e refl;
    up = up_of r ∙ rw e refl;
    success = success_of r ∙ rw e refl;
    rtt = (ground arith, ground arith, ground arith, ground arith);
    loss = ground arith;
    port = port_of r ∙ rw p refl;
  }

  counted_shows :
      (count : ℕ) (r : ProbeResult F)
      → Encoding r
      → IsCounted count r
      → ShowsRun count (export fl r) ⊎ ShowsError (export fl r)
  counted_shows count r en (inr (x, z)) = inr (lost-ShowsError r x z (en.defined.1 x))
  counted_shows count r en (inl m) =
      let (e, u, s) = status_of-values r.packets_received r.packets_sent m.some_sent m.received in
      elim (Option-cases r.port_open) [
        | inl unset ↦
            let x = en.defined.0 unset in
            let st = m.status in absurd (let f : true ≡ false = ap is_error (sym x ∙ st) ∙ e in cc)
        | inr (got, g) ↦ inl (
            made-ShowsRun count r got m g (λ y.
              let up = en.open_is_up (g ∙ ap some y) in
              ltb→lt 0 r.packets_received (sym u ∙ ap is_up (sym m.status) ∙ up)))
      ]

  -- For a TCP or UDP probe with a count from 1 to 2^53, Export counts one run and shows one of two
  -- pictures. Either no error is counted, the packets sent are between 1 and `count` and not fewer
  -- than those received, `up` is 1 exactly with a packet received, `success` is 1 exactly with all
  -- of them received, and `port_open` is 0, or 1 with a packet received. Or one error is counted and
  -- no packet, `up` and `success` are 0, and the port state, the loss and the round-trip times are NaN.
  pub export-port_probe :
      (laws : FloatLaws fl) (is_done : ℕ → Bool) (answer : ℕ → Answer) (probe_type : String)
      (now : ℕ) (cfg : ProbeConfig) (wi : WorkItem) (count : ℕ)
      → cfg.count ≡ pos count
      → 0 < count
      → count ≤ max_exact
      → let rs = export fl (port_probe fl probe_type now cfg is_done answer wi) in
        ShowsRun count rs ⊎ ShowsError rs
  export-port_probe laws is_done answer probe_type now cfg wi count e h b =
      counted_shows count (port_probe fl probe_type now cfg is_done answer wi)
        (port_probe-Encoding fl is_done answer laws probe_type now cfg wi count e h b)
        (port_probe-IsCounted fl is_done answer laws probe_type now cfg wi count e h b)
