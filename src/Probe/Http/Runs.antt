-- ===== src/Probe/Http/Runs.antt =====
-- internal/probe/http/http.go: what a run reports.
use trimon.Base.{
  Option, none, [], ◌∷◌, ℕ, ◌≡◌, refl, ap, sym, ◌∙◌, String, Bool, true, false, not, ◌&&◌, none,
  some, [], ◌∷◌, str_eq, List, map, length, Bool-cases, inl, inr, arith,
}
use trimon.Base.Int.{ℤ}
use trimon.Net.{Host}
use trimon.Types.{ProbeConfig, HttpConfig, ProbeResult, is_up}
use trimon.Types.Floats.{FloatOps}
use trimon.Probe.Targets.{WorkItem, is_unresolved, enumerate, expand_targets}
use trimon.Probe.Targets.Slots.{IsComplete, map-enumerate, map-slots, run_work_items-map}
use trimon.Probe.Run.{new_result}
use trimon.Probe.Run.Identity.{identity, identity_of, new_result-identity}
use trimon.Probe.Http.{
  Certificate, Exchange, not_built, not_done, replied, Reply, status_match, check_certificate,
  check_expiry, judge, fail, probe_one,
}
use trimon.Probe.Http.Verdict.{has_expired, probe_one-Verdict}
use trimon.Probe.Http.Clients.{Clients, Request, request, new, run}

-- A reply with a matching code, and over https with a certificate that has not expired.
abbrev pub is_good : HttpConfig → Exchange → Bool
is_good hcfg (replied reply) =
    status_match hcfg.expected_status reply.status_code
    && not (str_eq hcfg.scheme "https" && has_expired reply.tls)
is_good hcfg _ = false

module _ {F : Type 0} (fl : FloatOps F) (now : ℕ) (cfg : ProbeConfig) (hcfg : HttpConfig)
    (wi : WorkItem) where
  new_result-fresh : is_unresolved wi ≡ false → (new_result fl now cfg wi "http").1 ≡ true
  unfolding new_result
  new_result-fresh e = rw e refl

  probe_one-unresolved :
      (exchange : Exchange)
      → is_unresolved wi ≡ true
      → is_up (probe_one fl now cfg hcfg wi exchange).status ≡ false
  unfolding probe_one new_result
  probe_one-unresolved exchange e = rw e refl

  probe_one-up :
      (exchange : Exchange)
      → is_unresolved wi ≡ false
      → is_up (probe_one fl now cfg hcfg wi exchange).status ≡ is_good hcfg exchange
  unfolding probe_one fail
  probe_one-up (not_built message) e = rw (new_result-fresh e) refl
  probe_one-up (not_done message true) e = rw (new_result-fresh e) refl
  probe_one-up (not_done message false) e = rw (new_result-fresh e) refl
  probe_one-up (replied reply) e =
      (probe_one-Verdict fl now cfg hcfg wi reply (new_result-fresh e)).1.up

  check_expiry-identity :
      (tls : Option (List Certificate)) (result : ProbeResult F)
      → identity (check_expiry fl hcfg tls result) ≡ identity result
  unfolding check_expiry check_certificate
  check_expiry-identity none result = refl
  check_expiry-identity (some []) result = refl
  check_expiry-identity (some (c ∷ cs)) result = ground arith

  judge-identity :
      (reply : Reply) (result : ProbeResult F)
      → identity (judge fl hcfg reply result) ≡ identity result
  unfolding judge
  judge-identity reply result = check_expiry-identity reply.tls _ ∙ ground arith

  probe_one-identity :
      (exchange : Exchange)
      → identity (probe_one fl now cfg hcfg wi exchange) ≡ identity_of "http" cfg wi
  unfolding probe_one fail
  probe_one-identity (not_built message) =
      let new = new_result-identity fl now cfg wi "http" in ground (arith, new)
  probe_one-identity (not_done message ctx_done) =
      let new = new_result-identity fl now cfg wi "http" in ground (arith, new)
  probe_one-identity (replied reply) =
      let new = new_result-identity fl now cfg wi "http" in
      elim (Bool-cases (new_result fl now cfg wi "http").1) [
        | inl e ↦ rw e (judge-identity reply _ ∙ new)
        | inr e ↦ rw e new
      ]

module _ {F : Type 0} (fl : FloatOps F) (host : Host) (itoa : ℤ → String) (cfg : ProbeConfig)
    (hcfg : HttpConfig) where
  -- What a slot shows, for the request that it makes.
  abbrev pub up_at : Clients → (ℕ → Request → Exchange) → ℕ × WorkItem → Bool
  up_at clients perform (i, wi) =
      not (is_unresolved wi) && is_good hcfg (perform i (request itoa hcfg clients wi))

  slot-up :
      (now : ℕ) (clients : Clients) (perform : ℕ → Request → Exchange) (i : ℕ) (wi : WorkItem)
      → is_up (probe_one fl now cfg hcfg wi (perform i (request itoa hcfg clients wi))).status
        ≡ up_at clients perform (i, wi)
  slot-up now clients perform i wi =
      let exchange = perform i (request itoa hcfg clients wi) in
      let at : Bool → Bool = λ b. not b && is_good hcfg exchange in
      elim (Bool-cases (is_unresolved wi)) [
        | inl e ↦ probe_one-unresolved fl now cfg hcfg wi exchange e ∙ sym (ap at e)
        | inr e ↦ probe_one-up fl now cfg hcfg wi exchange e ∙ sym (ap at e)
      ]

  pub run-slots :
      (zero_result : ProbeResult F) (now : ℕ → ℕ) (perform : ℕ → Request → Exchange)
      (order : List ℕ) (clients : Clients)
      → IsComplete (length (expand_targets host cfg.targets cfg.max_resolved_ips)) order
      → let items = expand_targets host cfg.targets cfg.max_resolved_ips in
        let out = run itoa fl zero_result now cfg hcfg clients perform host order in
        (map identity out ≡ map (identity_of "http" cfg) items)
        × (map (λ r. is_up r.status) out ≡ map (up_at clients perform) (enumerate 0 items))
  unfolding run
  run-slots zero_result now perform order clients c =
      let one : ℕ → WorkItem → ProbeResult F =
        λ i w. probe_one fl (now i) cfg hcfg w (perform i (request itoa hcfg clients w)) in
      let items = expand_targets host cfg.targets cfg.max_resolved_ips in
      let same = run_work_items-map host zero_result one order cfg.targets cfg.max_resolved_ips c in
      (
        ap (map identity) same
            ∙ map-enumerate (λ (i, w). one i w) identity (identity_of "http" cfg)
                (λ i w.
                  probe_one-identity fl (now i) cfg hcfg w
                    (perform i (request itoa hcfg clients w)))
                0 items,
        ap (map (λ r. is_up r.status)) same
            ∙ map-slots (λ (i, w). one i w) (λ r. is_up r.status) (up_at clients perform)
                (λ i w. slot-up (now i) clients perform i w) 0 items,
      )
