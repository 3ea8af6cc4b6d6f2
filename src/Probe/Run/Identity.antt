-- ===== src/Probe/Run/Identity.antt =====
-- What a result says of its probe and its item: the fields that NewResult fills in, and nothing changes.
use trimon.Base.{ℕ, ◌≡◌, ◌∙◌, String, Bool, Option, none, some, List, [], arith}
use trimon.Base.Int.{ℤ, pos_part}
use trimon.Types.{ProbeConfig, ProbeResult, Labels}
use trimon.Types.Floats.{FloatOps}
use trimon.Probe.Targets.{WorkItem}
use trimon.Probe.Run.{
  Attempt, Loop, measure, conclude, summarise, after_attempt, round, rounds, run_loop, new_result,
}
use trimon.Probe.Run.Counters.{NextHolds, rounds_inv}

pub record Identity : Type 0 where
  pub probe_name : String
  pub probe_type : String
  pub target : String
  pub fqdn : String
  pub source_ip : String
  pub labels : Labels

abbrev pub identity : {F : Type 0} → ProbeResult F → Identity
identity r = record {
  probe_name = r.probe_name;
  probe_type = r.probe_type;
  target = r.target;
  fqdn = r.fqdn;
  source_ip = r.source_ip;
  labels = r.labels;
}

-- That of the results of a probe for an item.
abbrev pub identity_of : String → ProbeConfig → WorkItem → Identity
identity_of probe_type cfg wi = record {
  probe_name = cfg.name;
  probe_type = probe_type;
  target = wi.ip;
  fqdn = wi.fqdn;
  source_ip = cfg.source_ip;
  labels = cfg.labels;
}

module _ {F : Type 0} (fl : FloatOps F) where
  pub new_result-identity :
      (now : ℕ) (cfg : ProbeConfig) (wi : WorkItem) (probe_type : String)
      → identity (new_result fl now cfg wi probe_type).0 ≡ identity_of probe_type cfg wi
  unfolding new_result
  new_result-identity now cfg wi probe_type = ground arith

  summarise-identity :
      (r : ProbeResult F) (samples : List ℤ) (last_err : Option String)
      → identity (summarise fl r samples last_err).0 ≡ identity r
  unfolding summarise conclude measure
  summarise-identity r samples none = ground arith
  summarise-identity r samples (some e) = ground arith

  module _ {S : Type 0} (is_done : ℕ → Bool) (attempt : ℕ → S → Attempt × S) (of : Identity) where
    abbrev Keeps : Loop fl S → Type 0
    Keeps l = identity l.result ≡ of

    round-Keeps :
        (i : ℕ) (l : Loop fl S)
        → Keeps l
        → NextHolds fl is_done attempt Keeps (round fl is_done attempt i l)
    unfolding round after_attempt
    round-Keeps i l h = ground arith

    -- The loop of attempts leaves it alone.
    pub run_loop-identity :
        (result : ProbeResult F) (count : ℤ) (user : S)
        → identity result ≡ of
        → identity (run_loop fl is_done attempt result count user).0 ≡ of
    unfolding run_loop
    run_loop-identity result count user h =
        let start : Loop fl S = record {
          result = result;
          samples = [];
          last_err = none;
          user = user;
        } in
        let l = rounds fl is_done attempt (pos_part count) 0 start in
        summarise-identity l.result l.samples l.last_err
        ∙ rounds_inv fl is_done attempt Keeps round-Keeps (pos_part count) 0 start h
