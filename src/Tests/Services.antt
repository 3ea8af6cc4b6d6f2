-- ===== src/Tests/Services.antt =====
-- Tests of internal/probe/dns and internal/probe/http.
use trimon.Base.{
  ℕ, ◌%◌, ◌==◌, map, All, ◌≡◌, refl, true, false, Option, none, some, [], ◌∷◌, ok, arith, str_eq,
  if◌then◌else◌,
}
use trimon.Base.Int.{pos, negsuc}
use trimon.Types.{DnsConfig, HttpConfig}
use trimon.Types.Floats.{exact, exact-FloatLaws}
use trimon.Probe.Targets.{literal}
use trimon.Probe.Run.{new_result, blank}
use trimon.Probe.Run.Outcome.{IsMeasured}
use trimon.Probe.Dns.{RecordTypes, Texts, Response, success_code, a, cname, resolve_server, run}
use trimon.Probe.Run.Identity.{identity, identity_of}
use trimon.Probe.Dns.Names.{run-IsMeasured}
use trimon.Probe.Dns.Accept.{AnswerOutcome, dns_attempt-AnswerOutcome}
use trimon.Probe.Http.{Reply, replied, probe_one as http_probe_one}
use trimon.Probe.Http.Verdict.{Verdict, probe_one-Verdict}
use trimon.Tests.Config.{icmp_probe}

abbrev types : RecordTypes
types = record { type_a = 1; type_aaaa = 28; type_cname = 5; type_mx = 15; type_txt = 16 }

abbrev texts : Texts
texts = record {
  trim_dot = λ s. s;
  equal_fold = λ s t. str_eq s t;
  join = λ chunks. elim chunks [ [] ↦ "" | first ∷ _ ↦ first ];
}

abbrev response : Response
response = record {
  rcode = success_code;
  answer = cname "web.example" ∷ a "192.0.2.7" ∷ [];
  rtt = pos 4_000_000;
}

dns_attempt-AnswerOutcome_example : AnswerOutcome types texts 1 ("192.0.2.7" ∷ []) response
dns_attempt-AnswerOutcome_example =
    dns_attempt-AnswerOutcome types texts 1 ("192.0.2.7" ∷ []) response

abbrev dns_config : DnsConfig
dns_config = record { record_type = "A"; resolver = ""; expected_answer = "192.0.2.7" ∷ [] }

-- Every other query times out.
abbrev exchanges : ℕ → Option Response
exchanges i = if i % 2 == 0 then some response else none

resolver_found : resolve_server dns_config.resolver (ok "192.0.2.53:53") ≡ ok "192.0.2.53:53"
unfolding resolve_server
resolver_found = refl

-- The query for the second name ends first.
run-IsMeasured_example :
    let out =
      run exact types texts
        (blank exact 0 icmp_probe (literal "") "dns")
        (λ i. 0)
        icmp_probe
        dns_config
        (λ i j. false)
        (λ i j. exchanges j)
        (ok "192.0.2.53:53")
        (1 ∷ 0 ∷ []) in
    (map identity out
      ≡ identity_of "dns" icmp_probe (literal "10.0.0.1")
        ∷ identity_of "dns" icmp_probe (literal "gw.example")
        ∷ [])
    × All (IsMeasured 4) out
run-IsMeasured_example =
    run-IsMeasured exact types texts icmp_probe dns_config (λ i. 0) (λ i j. false)
      (λ i j. exchanges j) "192.0.2.53:53" exact-FloatLaws
      (blank exact 0 icmp_probe (literal "") "dns") (ok "192.0.2.53:53") (1 ∷ 0 ∷ []) 4
      resolver_found ((omega arith, (omega arith, tt)), λ j h. ground arith) refl (omega arith)
      (omega arith)

abbrev http_config : HttpConfig
http_config = record {
  scheme = "https";
  port = pos 443;
  path = "/";
  method = "GET";
  expected_status = pos 200;
  follow_redirects = true;
  tls_expiry_warning_days = pos 14;
}

-- A certificate that expired an hour ago.
abbrev expired_reply : Reply
expired_reply = record {
  status_code = pos 200;
  elapsed = pos 90_000_000;
  tls =
      some
        (record { until = negsuc 3_600_000_000_000; until_later = negsuc 3_600_000_000_001 } ∷ []);
}

resolved_here : (new_result exact 0 icmp_probe (literal "10.0.0.1") "http").1 ≡ true
unfolding new_result
resolved_here = refl

probe_one-Verdict_example :
    ((http_probe_one exact 0 icmp_probe http_config
        (literal "10.0.0.1")
        (replied expired_reply)).packets_sent
      ≡ 1)
    × Verdict exact http_config expired_reply
        (http_probe_one exact 0 icmp_probe http_config (literal "10.0.0.1") (replied expired_reply))
probe_one-Verdict_example =
    probe_one-Verdict exact 0 icmp_probe http_config (literal "10.0.0.1") expired_reply
      resolved_here
