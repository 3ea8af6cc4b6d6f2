-- ===== src/Probe/Http/Verdict.antt =====
-- What the result of an HTTP probe says of the reply.
use trimon.Base.{
  ℕ, ◌≡◌, ◌≢◌, Bool, true, false, ◌&&◌, not, Option, none, some, List, [], ◌∷◌, str_eq, arith,
}
use trimon.Base.Int.{ℤ, pos, ltb_ℤ}
use trimon.Types.{ProbeConfig, HttpConfig, ProbeResult, error, is_up}
use trimon.Types.Floats.{FloatOps, of_ℕ}
use trimon.Probe.Targets.{WorkItem}
use trimon.Probe.Run.{new_result}
use trimon.Probe.Http.{
  replied, probe_one, Certificate, Reply, status_match, check_certificate, check_expiry, judge,
}

-- The first certificate is past its end.
abbrev pub has_expired : Option (List Certificate) → Bool
has_expired none = false
has_expired (some []) = false
has_expired (some (cert ∷ certs)) = ltb_ℤ cert.until (pos 0)

module _ {F : Type 0} (fl : FloatOps F) (hcfg : HttpConfig) where
  -- What a result says of a reply.
  pub record Verdict (reply : Reply) (r : ProbeResult F) : Type 0 where
    pub received :
        r.packets_received
        ≡ (elim (status_match hcfg.expected_status reply.status_code) [ true ↦ 1 | false ↦ 0 ])
    pub loss : r.packet_loss_ratio ≡ (elim (status_match hcfg.expected_status reply.status_code) [
      | true ↦ of_ℕ fl 0
      | false ↦ of_ℕ fl 1
    ])
    pub up : is_up r.status ≡ (
        status_match hcfg.expected_status reply.status_code
        && not (str_eq hcfg.scheme "https" && has_expired reply.tls))
    pub no_error : r.status ≢ error

  judge-Verdict :
      (code elapsed : ℤ) (tls : Option (List Certificate)) (result : ProbeResult F)
      → let reply : Reply = record { status_code = code; elapsed = elapsed; tls = tls } in
        Verdict reply (judge fl hcfg reply result)
  unfolding judge check_expiry check_certificate
  judge-Verdict code elapsed none result = record {
    received = ground arith;
    loss = ground arith;
    up = ground arith;
    no_error = ground arith;
  }
  judge-Verdict code elapsed (some []) result = record {
    received = ground arith;
    loss = ground arith;
    up = ground arith;
    no_error = ground arith;
  }
  judge-Verdict code elapsed (some (c ∷ cs)) result = record {
    received = ground arith;
    loss = ground arith;
    up = ground arith;
    no_error = ground arith;
  }

  judge-sent :
      (code elapsed : ℤ) (tls : Option (List Certificate)) (result : ProbeResult F)
      → (judge fl hcfg
          (record { status_code = code; elapsed = elapsed; tls = tls })
          result).packets_sent
        ≡ result.packets_sent
  unfolding judge check_expiry check_certificate
  judge-sent code elapsed none result = ground arith
  judge-sent code elapsed (some []) result = ground arith
  judge-sent code elapsed (some (c ∷ cs)) result = ground arith

module _ {F : Type 0} (fl : FloatOps F) (now : ℕ) (cfg : ProbeConfig) (hcfg : HttpConfig)
    (wi : WorkItem) where
  -- A probe that gets a reply from a resolved address sends one request and reports: received exactly
  -- if the status code matches, with loss 0 then and 1 otherwise; up exactly if the code matches and
  -- the certificate of an https reply has not expired; and never an error.
  pub probe_one-Verdict :
      (reply : Reply)
      → (new_result fl now cfg wi "http").1 ≡ true
      → (probe_one fl now cfg hcfg wi (replied reply)).packets_sent ≡ 1
        × Verdict fl hcfg reply (probe_one fl now cfg hcfg wi (replied reply))
  unfolding probe_one
  probe_one-Verdict reply h = rw h (
    judge-sent fl hcfg reply.status_code reply.elapsed reply.tls _,
    judge-Verdict fl hcfg reply.status_code reply.elapsed reply.tls _,
  )
