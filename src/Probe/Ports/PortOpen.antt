-- ===== src/Probe/Ports/PortOpen.antt =====
-- docs/adr/0006-port-open-encoding.md: what `port_open` says together with the status.
use trimon.Probe.Run.StatusOf.{status_of}
use trimon.Base.{
  ◌≢◌, ◌↔◌, ℕ, ◌≤◌, ◌<◌, String, ◌≡◌, refl, sym, subst, ◌∙◌, inl, inr, Bool, true, false, Option,
  none, some, List, [], arith,
}
use trimon.Base.Int.{ℤ, pos, pos_part}
use trimon.Types.{ProbeConfig, ProbeResult, error, is_up}
use trimon.Types.Floats.{FloatOps, FloatLaws, max_exact}
use trimon.Probe.Targets.{WorkItem}
use trimon.Probe.Run.{
  Attempt, Loop, measure, conclude, summarise, after_attempt, round, rounds, run_loop, blank,
}
use trimon.Probe.Run.Outcome.{
  Outcome, IsFresh, IsMeasured, IsBroken, run_loop-Outcome, new_result-cases,
}
use trimon.Probe.Run.Counters.{NextHolds, rounds_inv}
use trimon.Probe.Ports.{Answer, port_attempt, set_port_open, port_probe}

module _ {F : Type 0} (fl : FloatOps F) (is_done : ℕ → Bool) (answer : ℕ → Answer) where
  abbrev attempt : ℕ → Bool → Attempt × Bool
  attempt i got = port_attempt (answer i) got

  -- An open port was seen in a reply.
  abbrev Answered : Loop fl Bool → Type 0
  Answered l = l.user ≡ true → 0 < l.result.packets_received

  summarise-received :
      (r : ProbeResult F) (samples : List ℤ) (last_err : Option String)
      → (summarise fl r samples last_err).0.packets_received ≡ r.packets_received
  unfolding summarise conclude measure
  summarise-received r samples none = ground arith
  summarise-received r samples (some e) = ground arith

  round-Answered :
      (i : ℕ) (l : Loop fl Bool)
      → Answered l
      → NextHolds fl is_done attempt Answered (round fl is_done attempt i l)
  unfolding round after_attempt port_attempt
  round-Answered i l h = ground arith

  open-Answered :
      (result : ProbeResult F) (count : ℤ)
      → let out = run_loop fl is_done attempt result count false in
        out.2 ≡ true → 0 < out.0.packets_received
  unfolding run_loop
  open-Answered result count h =
      let start : Loop fl Bool = record {
        result = result;
        samples = [];
        last_err = none;
        user = false;
      } in
      let l = rounds fl is_done attempt (pos_part count) 0 start in
      rw (summarise-received l.result l.samples l.last_err)
        (rounds_inv fl is_done attempt Answered round-Answered (pos_part count) 0 start (λ e. cc) h)

-- What the pair of gauges may show.
pub record Encoding {F : Type 0} (r : ProbeResult F) : Type 0 where
  pub defined : (r.port_open ≡ none) ↔ (r.status ≡ error)
  pub open_is_up : r.port_open ≡ some true → is_up r.status ≡ true

status_of-up : (received sent : ℕ) → 0 < received → is_up (status_of received sent) ≡ true
status_of-up received sent h = ground arith

status_of-ne-error : (received sent : ℕ) → status_of received sent ≢ error
status_of-ne-error received sent h = ground arith

measured-Encoding :
    {F : Type 0} (count : ℕ) (r : ProbeResult F) (got : Bool)
    → IsMeasured count r
    → (got ≡ true → 0 < r.packets_received)
    → Encoding (record r { port_open = some got })
measured-Encoding count r got m h = record {
  defined = (
    λ e. cc,
    λ e. absurd (status_of-ne-error r.packets_received r.packets_sent (sym m.status ∙ e)),
  );
  open_is_up = λ e.
      rw m.status
        (status_of-up r.packets_received r.packets_sent (h (let g : got ≡ true = cc in g)));
}

broken-Encoding :
    {F : Type 0} (count : ℕ) (r : ProbeResult F)
    → IsBroken count r
    → r.port_open ≡ none
    → Encoding r
broken-Encoding count r b e = record {
  defined = (λ x. b.status, λ x. e);
  open_is_up = λ x. ground arith;
}

module _ {F : Type 0} (fl : FloatOps F) (is_done : ℕ → Bool) (answer : ℕ → Answer) where
  abbrev Unset : Loop fl Bool → Type 0
  Unset l = l.result.port_open ≡ none

  round-Unset :
      (i : ℕ) (l : Loop fl Bool)
      → Unset l
      → NextHolds fl is_done
          (attempt fl is_done answer)
          Unset
          (round fl is_done (attempt fl is_done answer) i l)
  unfolding round after_attempt
  round-Unset i l h = ground arith

  summarise-port_open :
      (r : ProbeResult F) (samples : List ℤ) (last_err : Option String)
      → (summarise fl r samples last_err).0.port_open ≡ r.port_open
  unfolding summarise conclude measure
  summarise-port_open r samples none = ground arith
  summarise-port_open r samples (some e) = ground arith

  run_loop-Unset :
      (result : ProbeResult F) (count : ℤ)
      → result.port_open ≡ none
      → (run_loop fl is_done (attempt fl is_done answer) result count false).0.port_open ≡ none
  unfolding run_loop
  run_loop-Unset result count h =
      let start : Loop fl Bool = record {
        result = result;
        samples = [];
        last_err = none;
        user = false;
      } in
      let l = rounds fl is_done (attempt fl is_done answer) (pos_part count) 0 start in
      summarise-port_open l.result l.samples l.last_err
      ∙ rounds_inv fl is_done (attempt fl is_done answer) Unset round-Unset (pos_part count) 0 start
          h

  live-Encoding :
      (count : ℕ) (out : ProbeResult F × Bool × Bool)
      → Outcome count out.0 out.1
      → (out.2 ≡ true → 0 < out.0.packets_received)
      → out.0.port_open ≡ none
      → Encoding (set_port_open fl out)
  unfolding set_port_open
  live-Encoding count (r, true, got) m h e = measured-Encoding count r got m h
  live-Encoding count (r, false, got) b h e = broken-Encoding count r b e

  -- A TCP or UDP probe with a count from 1 to 2^53 reports no port state exactly if its status is error, and an
  -- open port only together with an up status, so that "down but open" does not occur.
  pub port_probe-Encoding :
      (laws : FloatLaws fl) (probe_type : String) (now : ℕ) (cfg : ProbeConfig) (wi : WorkItem)
      (count : ℕ)
      → cfg.count ≡ pos count
      → 0 < count
      → count ≤ max_exact
      → Encoding (port_probe fl probe_type now cfg is_done answer wi)
  unfolding port_probe
  port_probe-Encoding laws probe_type now cfg wi count e h b =
      elim (new_result-cases fl now cfg wi probe_type) [
        | inl lost ↦ rw lost (record { defined = (λ x. refl, λ x. refl); open_is_up = λ x. cc })
        | inr fresh ↦
            rw fresh (live_at (blank fl now cfg wi probe_type) (refl, refl) refl cfg.count e)
      ]
    where
      live_at :
          (result : ProbeResult F)
          → IsFresh result
          → result.port_open ≡ none
          → (c : ℤ) → c ≡ pos count
          → Encoding
              (set_port_open fl (run_loop fl is_done (attempt fl is_done answer) result c false))
      live_at result fresh unset c e' =
          live-Encoding count (run_loop fl is_done (attempt fl is_done answer) result c false)
            (subst
              (λ x.
                let out = run_loop fl is_done (attempt fl is_done answer) result x false in
                Outcome count out.0 out.1)
              (sym e')
              (run_loop-Outcome fl laws is_done (attempt fl is_done answer) result count false fresh
                h b))
            (open-Answered fl is_done answer result c) (run_loop-Unset result c unset)
