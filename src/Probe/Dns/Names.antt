-- ===== src/Probe/Dns/Names.antt =====
-- A run over all names of a DNS probe.
use trimon.Base.{
  ℕ, ◌≤◌, ◌<◌, ◌≡◌, ap, ◌∙◌, sym, subst, String, Bool, Option, Result, ok, List, map, length, All,
}
use trimon.Base.Int.{pos}
use trimon.Types.{ProbeConfig, DnsConfig, ProbeResult}
use trimon.Types.Floats.{FloatOps, FloatLaws, max_exact}
use trimon.Probe.Targets.{literal, enumerate}
use trimon.Probe.Targets.Slots.{IsComplete, All-enumerate}
use trimon.Probe.Run.Outcome.{IsMeasured}
use trimon.Probe.Run.Identity.{identity, identity_of}
use trimon.Probe.Dns.Identified.{run_names-map, run-identity}
use trimon.Probe.Dns.{RecordTypes, Texts, Response, resolve_server, probe_one, run_names, run}
use trimon.Probe.Dns.Accept.{probe_one-IsMeasured}

module _ {F : Type 0} (fl : FloatOps F) (types : RecordTypes) (texts : Texts) (cfg : ProbeConfig)
    (dns : DnsConfig) (now : ℕ → ℕ) (is_done : ℕ → ℕ → Bool) (exchanges : ℕ → ℕ → Option Response)
    (server : String) where
  abbrev probe_slot : ℕ × String → ProbeResult F
  probe_slot (i, qname) =
      probe_one fl types texts (now i) cfg dns (is_done i) (exchanges i) (ok server) qname

  slots-IsMeasured :
      (laws : FloatLaws fl) (count : ℕ)
      → cfg.count ≡ pos count
      → 0 < count
      → count ≤ max_exact
      → (names : List String) → All (IsMeasured count) (map probe_slot (enumerate 0 names))
  slots-IsMeasured laws count e h b names =
      All-enumerate probe_slot (IsMeasured count)
        (λ i n.
          probe_one-IsMeasured fl laws types texts (now i) cfg dns (is_done i) (exchanges i) server
            n count e h b)
        0 names

  -- A DNS probe with a count from 1 to 2^53 for which a nameserver is found gives, in whatever order its
  -- goroutines end, provided each slot's does and no other, one result for each target, in the
  -- order of the targets, under the probe's name and labels and the target's name, and each is a measurement: its status is
  -- success, partial or failure by the share of its queries answered, and never error.
  pub run-IsMeasured :
      (laws : FloatLaws fl) (zero_result : ProbeResult F) (system : Result String String)
      (order : List ℕ) (count : ℕ)
      → resolve_server dns.resolver system ≡ ok server
      → IsComplete (length cfg.targets) order
      → cfg.count ≡ pos count
      → 0 < count
      → count ≤ max_exact
      → let out = run fl types texts zero_result now cfg dns is_done exchanges system order in
        (map identity out ≡ map (λ n. identity_of "dns" cfg (literal n)) cfg.targets)
        × All (IsMeasured count) out
  unfolding run
  run-IsMeasured laws zero_result system order count s c e h b =
      let same =
        ap
          (λ found.
            run_names fl
              (λ i qname.
                probe_one fl types texts (now i) cfg dns (is_done i) (exchanges i) found qname)
              zero_result cfg.targets order)
          s
        ∙ run_names-map fl probe_slot zero_result cfg.targets order c in
      (
        run-identity fl types texts cfg dns now is_done exchanges zero_result system order c,
        subst (All (IsMeasured count)) (sym same) (slots-IsMeasured laws count e h b cfg.targets),
      )
