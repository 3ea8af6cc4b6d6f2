-- ===== src/Probe/Dns.antt =====
-- internal/probe/dns/dns.go. The resolver's exchanges are given by the number of the attempt; the
-- fields of a record that is an address are its text.
pub mod Accept
pub mod Names
pub mod Identified
use trimon.Base.{
  ℕ, suc, String, Bool, true, false, not, ◌&&◌, ◌++◌, Option, none, some, List, [], ◌∷◌, any, map,
  length, ◌==◌, str_eq, if◌then◌else◌, Result, ok, err,
}
use trimon.Base.Int.{ℤ, pos}
use trimon.Types.{ProbeConfig, DnsConfig, ProbeResult, error}
use trimon.Types.Floats.{FloatOps}
use trimon.Probe.Targets.{literal, run_items, enumerate}
use trimon.Probe.Run.{Attempt, blank, run_loop}

-- The constants of miekg/dns for the types of records.
pub record RecordTypes : Type 0 where
  pub type_a : ℕ
  pub type_aaaa : ℕ
  pub type_cname : ℕ
  pub type_mx : ℕ
  pub type_txt : ℕ

-- `dns.RR`, by its dynamic type.
pub data Record : Type 0 where
  a aaaa cname mx : String → Record
  txt : List String → Record
  other_record : Record

-- `resp.Rcode`: success, NXDOMAIN, or another.
pub data Rcode : Type 0 where
  success_code name_error other_code : Rcode

pub record Response : Type 0 where
  pub rcode : Rcode
  pub answer : List Record
  pub rtt : ℤ

-- What the strings package does with texts.
pub record Texts : Type 0 where
  pub trim_dot : String → String
  pub equal_fold : String → String → Bool
  pub join : List String → String

module _ (types : RecordTypes) where
  unfoldable pub qtype_for : String → ℕ
  qtype_for record_type =
      if str_eq record_type "AAAA"
      then types.type_aaaa
      else if str_eq record_type "CNAME"
      then types.type_cname
      else if str_eq record_type "MX"
      then types.type_mx
      else if str_eq record_type "TXT"
      then types.type_txt
      else types.type_a

  module _ (texts : Texts) where
    abbrev when : Bool → String → List String
    when c s = if c then s ∷ [] else []

    -- What one record adds to the answers.
    unfoldable pub answers_of : ℕ → Record → List String
    answers_of qtype (a ip) = when (qtype == types.type_a) ip
    answers_of qtype (aaaa ip) = when (qtype == types.type_aaaa) ip
    answers_of qtype (cname target) = when (qtype == types.type_cname) (texts.trim_dot target)
    answers_of qtype (mx host) = when (qtype == types.type_mx) (texts.trim_dot host)
    answers_of qtype (txt chunks) = when (qtype == types.type_txt) (texts.join chunks)
    answers_of qtype other_record = []

    unfoldable pub extract_answers : List Record → ℕ → List String
    extract_answers [] qtype = []
    extract_answers (rr ∷ rrs) qtype = answers_of qtype rr ++ extract_answers rrs qtype

    unfoldable pub match_answer : List Record → ℕ → List String → Bool
    match_answer answer qtype expected =
        any (λ got. any (λ want. texts.equal_fold got want) expected) (extract_answers answer qtype)

    -- `none` is a timeout or a network error.
    unfoldable pub dns_attempt : Option Response → ℕ → List String → ℤ × Bool
    dns_attempt none qtype expected = (pos 0, false)
    dns_attempt (some resp) qtype expected = elim resp.rcode [
      | success_code ↦
          if length expected == 0
          then (resp.rtt, true)
          else if match_answer resp.answer qtype expected
          then (resp.rtt, true)
          else (pos 0, false)
      | name_error ↦ if length expected == 0 then (resp.rtt, true) else (pos 0, false)
      | other_code ↦ (pos 0, false)
    ]

-- `resolveServer`: `system` is the first nameserver of /etc/resolv.conf, if there is one.
unfoldable pub resolve_server : String → Result String String → Result String String
resolve_server resolver system = if not (str_eq resolver "") then ok resolver else system

module _ {F : Type 0} (fl : FloatOps F) where
  -- The loop's closure has no variables of its own.
  abbrev pub answered : ℤ × Bool → Unit {0} → Attempt × Unit {0}
  answered (rtt, received) u = (record { rtt = rtt; received = received; err = none }, tt)

  -- `exchanges i` is the outcome of the i-th query.
  unfoldable pub probe_one :
      RecordTypes
      → Texts
      → ℕ
      → ProbeConfig
      → DnsConfig
      → (ℕ → Bool)
      → (ℕ → Option Response)
      → Result String String
      → String
      → ProbeResult F
  probe_one types texts now cfg dns is_done exchanges (err e) qname =
      record (blank fl now cfg (literal qname) "dns") {
        status = error;
        error_type = "init_error";
        error_msg = e;
      }
  probe_one types texts now cfg dns is_done exchanges (ok server) qname =
      (run_loop fl is_done
        (λ i u.
          answered
            (dns_attempt types texts (exchanges i) (qtype_for types dns.record_type)
              dns.expected_answer)
            u)
        (blank fl now cfg (literal qname) "dns") cfg.count tt).0

  -- The results for the names, with a goroutine for each.
  unfoldable pub run_names :
      (ℕ → String → ProbeResult F) → ProbeResult F → List String → List ℕ → List (ProbeResult F)
  run_names probe_slot zero_result [] order = []
  run_names probe_slot zero_result (name ∷ names) order =
      run_items zero_result (λ (i, qname). probe_slot i qname) (enumerate 0 (name ∷ names)) order

  -- Each target has its own queries; the nameserver is found once.
  unfoldable pub run :
      RecordTypes
      → Texts
      → ProbeResult F
      → (ℕ → ℕ)
      → ProbeConfig
      → DnsConfig
      → (ℕ → ℕ → Bool)
      → (ℕ → ℕ → Option Response)
      → Result String String
      → List ℕ
      → List (ProbeResult F)
  unfolding probe_one run_names
  run types texts zero_result now cfg dns is_done exchanges system order =
      let server = resolve_server dns.resolver system in
      run_names
        (λ i qname. probe_one types texts (now i) cfg dns (is_done i) (exchanges i) server qname)
        zero_result cfg.targets order
