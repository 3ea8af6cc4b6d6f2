-- ===== src/Probe/Http.antt =====
-- internal/probe/http/http.go: the probe of one address. What its request comes to is given.
pub mod Verdict
pub mod Clients
pub mod Runs
use trimon.Base.{
  ℕ, String, Bool, true, false, not, ◌&&◌, Option, none, some, List, [], ◌∷◌, if◌then◌else◌, str_eq,
  ltb, ◌==◌,
}
use trimon.Base.Int.{ℤ, pos, negsuc, ltb_ℤ, leb_ℤ, eqb_ℤ}
use trimon.Types.{ProbeConfig, HttpConfig, ProbeResult, success, partial, failure, error}
use trimon.Types.Floats.{FloatOps, of_ℕ}
use trimon.Probe.Targets.{WorkItem}
use trimon.Probe.Run.{new_result}

-- A peer certificate: what `time.Until(NotAfter)` gives when the expiry is tested, and when the days
-- are counted.
pub record Certificate : Type 0 where
  pub until : ℤ
  pub until_later : ℤ

-- `tls` is `resp.TLS` with its peer certificates.
pub record Reply : Type 0 where
  pub status_code : ℤ
  pub elapsed : ℤ
  pub tls : Option (List Certificate)

-- What the request comes to: it cannot be built, the client fails, with whether the context is done,
-- or a reply.
pub data Exchange : Type 0 where
  not_built : String → Exchange
  not_done : String → Bool → Exchange
  replied : Reply → Exchange

unfoldable pub status_match : ℤ → ℤ → Bool
status_match expected actual =
    if eqb_ℤ expected (pos 0)
    then leb_ℤ (pos 200) actual && ltb_ℤ actual (pos 300)
    else eqb_ℤ actual expected

module _ {F : Type 0} (fl : FloatOps F) where
  -- `int(d.Hours() / 24)`.
  unfoldable pub days : ℤ → ℤ
  days d = fl.trunc (fl.div (fl.div (fl.of_ℤ d) (of_ℕ fl 3_600_000_000_000)) (of_ℕ fl 24))

  unfoldable pub check_certificate : HttpConfig → Certificate → ProbeResult F → ProbeResult F
  check_certificate hcfg cert result =
      if ltb_ℤ cert.until (pos 0)
      then record result { status = failure }
      else if ltb_ℤ (pos 0) hcfg.tls_expiry_warning_days
          && leb_ℤ (days cert.until_later) hcfg.tls_expiry_warning_days
      then record result { status = partial }
      else result

  unfoldable pub check_expiry :
      HttpConfig → Option (List Certificate) → ProbeResult F → ProbeResult F
  check_expiry hcfg none result = result
  check_expiry hcfg (some []) result = result
  check_expiry hcfg (some (cert ∷ certs)) result =
      if str_eq hcfg.scheme "https" && result.packets_received == 1
      then check_certificate hcfg cert result
      else result

  unfoldable pub judge : HttpConfig → Reply → ProbeResult F → ProbeResult F
  judge hcfg reply result =
      let timed = record result {
        duration_ms = fl.div (fl.of_ℤ reply.elapsed) (of_ℕ fl 1_000_000);
      } in
      let matched =
        if status_match hcfg.expected_status reply.status_code
        then record timed { packets_received = 1; packet_loss_ratio = of_ℕ fl 0; status = success }
        else record timed {
          packets_received = 0;
          packet_loss_ratio = of_ℕ fl 1;
          status = failure;
        } in
      check_expiry hcfg reply.tls matched

  -- `ctx.Err() != nil` tells a cancelled request from a failed one.
  unfoldable pub fail : String → Bool → ProbeResult F → ProbeResult F
  fail message ctx_done result =
      let lost = record result {
        packets_received = 0;
        packet_loss_ratio = of_ℕ fl 1;
        error_msg = message;
      } in
      if ctx_done
      then record lost { status = error; error_type = "cancelled" }
      else record lost { status = failure; error_type = "network_error" }

  unfoldable pub probe_one : ℕ → ProbeConfig → HttpConfig → WorkItem → Exchange → ProbeResult F
  probe_one now cfg hcfg wi exchange =
      let (result, fresh) = new_result fl now cfg wi "http" in
      if not fresh then result else elim exchange [
        | not_built message ↦ record result {
          status = error;
          error_type = "init_error";
          error_msg = message;
        }
        | not_done message ctx_done ↦ fail message ctx_done (record result { packets_sent = 1 })
        | replied reply ↦ judge hcfg reply (record result { packets_sent = 1 })
      ]
