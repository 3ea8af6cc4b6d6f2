-- ===== src/Probe/Dns/Identified.antt =====
-- The results of a run over the names of a DNS probe, slot by slot.
use trimon.Base.{
  ℕ, ◌<◌, ◌≡◌, refl, ap, ◌∙◌, sym, subst, String, Bool, Option, Result, ok, err, List, [], ◌∷◌, map,
  length, All, arith,
}
use trimon.Types.{ProbeConfig, DnsConfig, ProbeResult}
use trimon.Types.Floats.{FloatOps}
use trimon.Probe.Targets.{literal, enumerate}
use trimon.Probe.Targets.Slots.{IsComplete, length-enumerate, map-enumerate}
use trimon.Probe.Targets.Order.{run_items-map}
use trimon.Probe.Run.{blank}
use trimon.Probe.Run.Identity.{Identity, identity, identity_of, run_loop-identity}
use trimon.Probe.Dns.{
  RecordTypes, Texts, Response, resolve_server, dns_attempt, qtype_for, answered, probe_one,
  run_names, run,
}

module _ {F : Type 0} (fl : FloatOps F) where
  pub run_names-map :
      (probe_slot : ℕ × String → ProbeResult F) (zero_result : ProbeResult F) (names : List String)
      (order : List ℕ)
      → IsComplete (length names) order
      → run_names fl (λ i qname. probe_slot (i, qname)) zero_result names order
        ≡ map probe_slot (enumerate 0 names)
  unfolding run_names
  run_names-map probe_slot zero_result [] order c = refl
  run_names-map probe_slot zero_result (n ∷ ns) order (inside, all) =
      let l = length-enumerate 0 (n ∷ ns) in
      run_items-map zero_result probe_slot (enumerate 0 (n ∷ ns)) order
        (subst (λ k. All (λ i. i < k) order) (sym l) inside) (λ j h. all j (omega (arith, h, l)))

  module _ (types : RecordTypes) (texts : Texts) (cfg : ProbeConfig) (dns : DnsConfig) (now : ℕ → ℕ)
      (is_done : ℕ → ℕ → Bool) (exchanges : ℕ → ℕ → Option Response) where
    abbrev slot : Result String String → ℕ × String → ProbeResult F
    slot found (i, qname) =
        probe_one fl types texts (now i) cfg dns (is_done i) (exchanges i) found qname

    abbrev named : String → Identity
    named qname = identity_of "dns" cfg (literal qname)

    slot-identity :
        (found : Result String String) (i : ℕ) (qname : String)
        → identity (slot found (i, qname)) ≡ named qname
    unfolding probe_one
    slot-identity (err e) i qname = refl
    slot-identity (ok server) i qname =
        run_loop-identity fl (is_done i)
          (λ j u.
            answered fl
              (dns_attempt types texts (exchanges i j) (qtype_for types dns.record_type)
                dns.expected_answer)
              u)
          (named qname) (blank fl (now i) cfg (literal qname) "dns") cfg.count tt refl

    pub run-identity :
        (zero_result : ProbeResult F) (system : Result String String) (order : List ℕ)
        → IsComplete (length cfg.targets) order
        → map identity (run fl types texts zero_result now cfg dns is_done exchanges system order)
          ≡ map (λ n. identity_of "dns" cfg (literal n)) cfg.targets
    unfolding run
    run-identity zero_result system order c =
        let found = resolve_server dns.resolver system in
        ap (map identity) (run_names-map (slot found) zero_result cfg.targets order c)
        ∙ map-enumerate (slot found) identity named (slot-identity found) 0 cfg.targets
