-- ===== src/Exporters/Otlp/Readings.antt =====
-- What a backend sees of the calls of the instruments: the total of a counter and the values of a gauge.
use trimon.Base.{
  ℕ, ◌+◌, String, Bool, false, ◌&&◌, List, [], ◌∷◌, ◌++◌, str_eq, ◌==◌, if◌then◌else◌, ◌≡◌, arith,
}
use trimon.Exporters.Otlp.{
  Counter, FloatGauge, IntGauge, Reading, Attrs, pkt_sent, pkt_received, probe_runs, probe_errors,
  results_dropped, exporter_errors, config_reloads, rtt_min, rtt_mean, rtt_max, rtt_stddev,
  packet_loss, http_duration, port_open_gauge, success_gauge, probe_up, added, recorded,
  recorded_int,
}

abbrev counter_number : Counter → ℕ
counter_number pkt_sent = 0
counter_number pkt_received = 1
counter_number probe_runs = 2
counter_number probe_errors = 3
counter_number results_dropped = 4
counter_number exporter_errors = 5
counter_number config_reloads = 6

abbrev gauge_number : FloatGauge → ℕ
gauge_number rtt_min = 0
gauge_number rtt_mean = 1
gauge_number rtt_max = 2
gauge_number rtt_stddev = 3
gauge_number packet_loss = 4
gauge_number http_duration = 5
gauge_number port_open_gauge = 6

abbrev int_gauge_number : IntGauge → ℕ
int_gauge_number success_gauge = 0
int_gauge_number probe_up = 1

-- Whether the first attribute under a key has this value.
abbrev pub has_attr : String → String → Attrs → Bool
has_attr k v [] = false
has_attr k v ((k', v') ∷ attrs) = if str_eq k' k then str_eq v' v else has_attr k v attrs

module _ {F : Type 0} where
  -- The sum of a counter over the calls whose attributes pass a test.
  abbrev pub total : Counter → (Attrs → Bool) → List (Reading F) → ℕ
  total c p [] = 0
  total c p (added c' n attrs ∷ rs) =
      (if counter_number c' == counter_number c && p attrs then n else 0) + total c p rs
  total c p (recorded g x attrs ∷ rs) = total c p rs
  total c p (recorded_int g x attrs ∷ rs) = total c p rs

  abbrev pub float_values : FloatGauge → List (Reading F) → List F
  float_values g [] = []
  float_values g (added c n attrs ∷ rs) = float_values g rs
  float_values g (recorded g' x attrs ∷ rs) =
      let rest = float_values g rs in if gauge_number g' == gauge_number g then x ∷ rest else rest
  float_values g (recorded_int g' x attrs ∷ rs) = float_values g rs

  abbrev pub int_values : IntGauge → List (Reading F) → List ℕ
  int_values g [] = []
  int_values g (added c n attrs ∷ rs) = int_values g rs
  int_values g (recorded g' x attrs ∷ rs) = int_values g rs
  int_values g (recorded_int g' x attrs ∷ rs) =
      let rest = int_values g rs in
      if int_gauge_number g' == int_gauge_number g then x ∷ rest else rest

  pub total-append :
      (c : Counter) (p : Attrs → Bool) (rs ss : List (Reading F))
      → total c p (rs ++ ss) ≡ total c p rs + total c p ss
  total-append c p [] ss = omega arith
  total-append c p (added c' n attrs ∷ rs) ss = omega (arith, total-append c p rs ss)
  total-append c p (recorded g x attrs ∷ rs) ss = total-append c p rs ss
  total-append c p (recorded_int g x attrs ∷ rs) ss = total-append c p rs ss
