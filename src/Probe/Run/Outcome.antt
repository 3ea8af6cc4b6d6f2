-- ===== src/Probe/Run/Outcome.antt =====
-- What a result of `RunLoop` says, for the callers and the exporters.
use trimon.Probe.Targets.{WorkItem}
use trimon.Base.{
  not, ◌&&◌, str_eq, ℕ, ◌≤◌, ◌<◌, String, ◌≡◌, refl, ◌⊎◌, inl, inr, Bool, true, false, Option, none,
  some, List, [], arith, Bool-cases, ◌==◌,
}
use trimon.Base.Int.{ℤ, pos}
use trimon.Types.{ProbeConfig, ProbeResult, error}
use trimon.Types.Floats.{FloatOps, FloatLaws, max_exact}
use trimon.Probe.Run.{
  Attempt, Loop, measure, conclude, summarise, rounds, run_loop, blank, unresolved_result,
  new_result,
}
use trimon.Probe.Run.StatusOf.{status_of, status_from_loss-status_of}
use trimon.Probe.Run.Counters.{rounds-Ended, NextHolds, rounds_inv}
use trimon.Probe.Run.{round, after_attempt}

-- The result before the first attempt.
abbrev pub IsFresh : {F : Type 0} → ProbeResult F → Type 0
IsFresh r = (r.packets_sent ≡ 0) × (r.packets_received ≡ 0)

-- A run that produced a measurement: at least one attempt was sent, at most `count`, and the status
-- tells whether all, none or some were answered.
pub record IsMeasured {F : Type 0} (count : ℕ) (r : ProbeResult F) : Type 0 where
  pub some_sent : 0 < r.packets_sent
  pub at_most : r.packets_sent ≤ count
  pub received : r.packets_received ≤ r.packets_sent
  pub status : r.status ≡ status_of r.packets_received r.packets_sent

-- The result of a run that was broken off: some attempts were sent, at most `count`, none was
-- answered, and the error is probe_error.
pub record IsBroken {F : Type 0} (count : ℕ) (r : ProbeResult F) : Type 0 where
  pub some_sent : 0 < r.packets_sent
  pub at_most : r.packets_sent ≤ count
  pub received : r.packets_received ≡ 0
  pub status : r.status ≡ error
  pub error_type : r.error_type ≡ "probe_error"

abbrev pub Outcome : {F : Type 0} → ℕ → ProbeResult F → Bool → Type 0
Outcome count r true = IsMeasured count r
Outcome count r false = IsBroken count r

module _ {F : Type 0} (fl : FloatOps F) (laws : FloatLaws fl) where
  module _ (count : ℕ) (r : ProbeResult F) (samples : List ℤ) (bound : count ≤ max_exact)
      (p : 0 < r.packets_sent) (q : r.packets_sent ≤ count)
      (h : r.packets_received ≤ r.packets_sent) where
    measure-IsMeasured : IsMeasured count (measure fl r samples)
    unfolding measure
    measure-IsMeasured = record {
      some_sent = ground arith;
      at_most = ground arith;
      received = ground arith;
      status = ground (
        arith,
        status_from_loss-status_of fl laws r.packets_received r.packets_sent p h (omega arith),
      );
    }

    conclude-Outcome : Outcome count (conclude fl r samples).0 (conclude fl r samples).1
    unfolding conclude
    conclude-Outcome =
        let e : conclude fl r samples ≡ (measure fl r samples, true) = ground arith in
        rw e measure-IsMeasured

    summarise-Outcome :
        (last_err : Option String)
        → let s = summarise fl r samples last_err in Outcome count s.0 s.1
    unfolding summarise
    summarise-Outcome none = conclude-Outcome
    summarise-Outcome (some e) = elim (Bool-cases (r.packets_received == 0)) [
      | inl z ↦ rw z (record {
        some_sent = p;
        at_most = q;
        received = ground arith;
        status = refl;
        error_type = refl;
      })
      | inr z ↦ rw z conclude-Outcome
    ]

module _ {F : Type 0} (fl : FloatOps F) (laws : FloatLaws fl) {S : Type 0} (is_done : ℕ → Bool)
    (attempt : ℕ → S → Attempt × S) where
  -- The two kinds of result of a run of 1 to 2^53 attempts, told by `ok`.
  pub run_loop-Outcome :
      (result : ProbeResult F) (count : ℕ) (user : S)
      → IsFresh result
      → 0 < count
      → count ≤ max_exact
      → let out = run_loop fl is_done attempt result (pos count) user in Outcome count out.0 out.1
  unfolding run_loop
  run_loop-Outcome result count user fresh h b =
      let start : Loop fl S = record {
        result = result;
        samples = [];
        last_err = none;
        user = user;
      } in
      let (e, p) =
        rounds-Ended fl is_done attempt count 0 start
          (record {
            sent = fresh.0;
            received = omega arith;
            sampled = omega arith;
            no_error = refl;
          })
          (omega arith) in
      let l = rounds fl is_done attempt count 0 start in
      summarise-Outcome fl laws count l.result l.samples b p (omega (arith, e.sent)) e.received
        l.last_err

pub new_result-cases :
    {F : Type 0} (fl : FloatOps F) (now : ℕ) (cfg : ProbeConfig) (wi : WorkItem)
    (probe_type : String)
    → (new_result fl now cfg wi probe_type ≡ (unresolved_result fl now cfg wi probe_type, false))
      ⊎ (new_result fl now cfg wi probe_type ≡ (blank fl now cfg wi probe_type, true))
unfolding new_result
new_result-cases fl now cfg wi probe_type =
    elim (Bool-cases (not (str_eq wi.fqdn "") && str_eq wi.ip wi.fqdn)) [
      | inl e ↦ inl (rw e refl)
      | inr e ↦ inr (rw e refl)
    ]

module _ {F : Type 0} (fl : FloatOps F) (laws : FloatLaws fl) {S : Type 0} (is_done : ℕ → Bool)
    (attempt : ℕ → S → Attempt × S) where
  abbrev NoError : Loop fl S → Type 0
  NoError l = l.last_err ≡ none

  round-NoError :
      ((i : ℕ) (s : S) → (attempt i s).0.err ≡ none)
      → (i : ℕ) (l : Loop fl S) → NoError l
      → NextHolds fl is_done attempt NoError (round fl is_done attempt i l)
  unfolding round after_attempt
  round-NoError h i l k = let e = h i l.user in ground (arith, e)

  -- With attempts that never fail, a run always measures.
  pub run_loop-IsMeasured :
      (result : ProbeResult F) (count : ℕ) (user : S)
      → ((i : ℕ) (s : S) → (attempt i s).0.err ≡ none)
      → IsFresh result
      → 0 < count
      → count ≤ max_exact
      → IsMeasured count (run_loop fl is_done attempt result (pos count) user).0
  unfolding run_loop summarise conclude
  run_loop-IsMeasured result count user never fresh h b =
      let start : Loop fl S = record {
        result = result;
        samples = [];
        last_err = none;
        user = user;
      } in
      let (e, p) =
        rounds-Ended fl is_done attempt count 0 start
          (record {
            sent = fresh.0;
            received = omega arith;
            sampled = omega arith;
            no_error = refl;
          })
          (omega arith) in
      let l : Loop fl S = rounds fl is_done attempt count 0 start in
      let q : l.last_err ≡ none =
        rounds_inv fl is_done attempt NoError (round-NoError never) count 0 start refl in
      let s : (summarise fl l.result l.samples l.last_err).0 ≡ measure fl l.result l.samples =
        rw q (ground (arith, p)) in
      rw s
        (measure-IsMeasured fl laws count l.result l.samples b p (omega (arith, e.sent)) e.received)
