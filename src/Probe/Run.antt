-- ===== src/Probe/Run.antt =====
-- internal/probe/run.go: the base of a result, and the loop of attempts against one target.
-- An attempt is a closure over variables of its caller: `attempt i s` is the i-th call with those
-- variables at s. `is_done i` is whether the context is done when the wait before attempt i ends.
pub mod StatusOf
pub mod Counters
pub mod Outcome
pub mod Failed
pub mod Times
pub mod Identity
use trimon.Base.{
  ℕ, zero, suc, ◌+◌, String, Bool, true, false, not, ◌&&◌, Option, none, some, List, [], ◌∷◌, ◌++◌,
  str_eq, ltb, ◌==◌, if◌then◌else◌,
}
use trimon.Base.Int.{ℤ, pos_part}
use trimon.Types.{ProbeConfig, ProbeResult, Status, unset, success, partial, failure, error}
use trimon.Types.Floats.{FloatOps, of_ℕ}
use trimon.Probe.Targets.{WorkItem}
use trimon.Probe.Stats.{rtt_stats}

pub record Attempt : Type 0 where
  pub rtt : ℤ
  pub received : Bool
  pub err : Option String

-- What an attempt with no reply returns: `Attempt{}`.
abbrev pub no_reply : Attempt
no_reply = record { rtt = ℤ.pos 0; received = false; err = none }

module _ {F : Type 0} (fl : FloatOps F) where
  -- A result with the identifying fields only.
  abbrev pub blank : ℕ → ProbeConfig → WorkItem → String → ProbeResult F
  blank now cfg wi probe_type = record {
    timestamp = now;
    probe_name = cfg.name;
    target = wi.ip;
    fqdn = wi.fqdn;
    source_ip = cfg.source_ip;
    probe_type = probe_type;
    packets_sent = 0;
    packets_received = 0;
    rtt_min_ms = of_ℕ fl 0;
    rtt_mean_ms = of_ℕ fl 0;
    rtt_max_ms = of_ℕ fl 0;
    rtt_stddev_ms = of_ℕ fl 0;
    duration_ms = of_ℕ fl 0;
    packet_loss_ratio = of_ℕ fl 0;
    port_open = none;
    status = unset;
    error_msg = "";
    error_type = "";
    labels = cfg.labels;
  }

  -- The result of a name that did not resolve.
  abbrev pub unresolved_result : ℕ → ProbeConfig → WorkItem → String → ProbeResult F
  unresolved_result now cfg wi probe_type = record (blank now cfg wi probe_type) {
    status = error;
    error_type = "resolve_error";
    error_msg = "resolve target: lookup failed";
  }

  unfoldable pub new_result : ℕ → ProbeConfig → WorkItem → String → ProbeResult F × Bool
  new_result now cfg wi probe_type =
      if not (str_eq wi.fqdn "") && str_eq wi.ip wi.fqdn
      then (unresolved_result now cfg wi probe_type, false)
      else (blank now cfg wi probe_type, true)

  unfoldable pub status_from_loss : F → Status
  status_from_loss loss_ratio =
      if fl.eq loss_ratio (of_ℕ fl 0)
      then success
      else if fl.le (of_ℕ fl 1) loss_ratio
      then failure
      else partial

  -- The local variables of `RunLoop`, with those of the attempts.
  pub record Loop (S : Type 0) : Type 0 where
    pub result : ProbeResult F
    pub samples : List ℤ
    pub last_err : Option String
    pub user : S

  -- How a round ends: by `break`, or going on.
  pub data Next (S : Type 0) : Type 0 where
    stop : Loop S → Next S
    continue : Loop S → Next S

  -- The loss, the status and, after a reply, the round-trip times of a run that sent something.
  unfoldable pub measure : ProbeResult F → List ℤ → ProbeResult F
  measure r samples =
      let loss =
        fl.sub (of_ℕ fl 1) (fl.div (of_ℕ fl r.packets_received) (of_ℕ fl r.packets_sent)) in
      let measured = record r { packet_loss_ratio = loss; status = status_from_loss loss } in
      let s = rtt_stats fl samples in
      if ltb 0 r.packets_received
      then record measured {
        rtt_min_ms = s.min_ms;
        rtt_mean_ms = s.mean_ms;
        rtt_max_ms = s.max_ms;
        rtt_stddev_ms = s.stddev_ms;
      }
      else measured

  unfoldable pub conclude : ProbeResult F → List ℤ → ProbeResult F × Bool
  conclude r samples =
      if r.packets_sent == 0
      then (
        record r {
          status = error;
          error_type = "cancelled";
          error_msg = "no attempts made before context cancellation";
        },
        false,
      )
      else (measure r samples, true)

  -- What follows the loop; the flag is `ok`.
  unfoldable pub summarise : ProbeResult F → List ℤ → Option String → ProbeResult F × Bool
  summarise r samples none = conclude r samples
  summarise r samples (some e) =
      if r.packets_received == 0
      then (record r { status = error; error_type = "probe_error"; error_msg = e }, false)
      else conclude r samples

  module _ {S : Type 0} (is_done : ℕ → Bool) (attempt : ℕ → S → Attempt × S) where
    unfoldable pub after_attempt : Loop S → Attempt × S → Next S
    after_attempt l (a, user) =
        let result = record l.result { packets_sent = l.result.packets_sent + 1 } in
        let counted = record l { result = result; user = user } in
        elim a.err [
          | some e ↦ stop (record counted { last_err = some e })
          | none ↦
              if not a.received
              then continue counted
              else continue (record counted {
                result = record result { packets_received = result.packets_received + 1 };
                samples = l.samples ++ a.rtt ∷ [];
              })
        ]

    unfoldable pub round : ℕ → Loop S → Next S
    round i l = if ltb 0 i && is_done i then stop l else after_attempt l (attempt i l.user)

    -- The rounds left, from round i on.
    unfoldable pub rounds : ℕ → ℕ → Loop S → Loop S
    rounds zero i l = l
    rounds (suc n) i l = elim (round i l) [ stop l' ↦ l' | continue l' ↦ rounds n (suc i) l' ]

    unfoldable pub run_loop : ProbeResult F → ℤ → S → ProbeResult F × Bool × S
    run_loop result count user =
        let start : Loop S = record {
          result = result;
          samples = [];
          last_err = none;
          user = user;
        } in
        let l = rounds (pos_part count) 0 start in
        let (final, live) = summarise l.result l.samples l.last_err in (final, live, l.user)
