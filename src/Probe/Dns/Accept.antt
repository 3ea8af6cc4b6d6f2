-- ===== src/Probe/Dns/Accept.antt =====
-- Which answers a DNS probe takes for a reply, and what its result can be.
use trimon.Base.{
  ℕ, ◌<◌, ◌≤◌, ◌≡◌, ◌≢◌, ◌↔◌, ◌⊎◌, inl, inr, refl, sym, subst, String, Bool, true, false, Option,
  some, List, [], ◌∷◌, ◌++◌, any, Any, any-Any, arith, Bool-cases, ok, ◌==◌,
}
use trimon.Base.Int.{ℤ, pos}
use trimon.Types.{ProbeConfig, DnsConfig}
use trimon.Types.Floats.{FloatOps, FloatLaws, max_exact}
use trimon.Probe.Targets.{literal}
use trimon.Probe.Run.{Attempt, blank, run_loop}
use trimon.Probe.Run.Outcome.{IsMeasured, run_loop-IsMeasured}
use trimon.Probe.Dns.{
  RecordTypes, Texts, Record, Response, Rcode, success_code, name_error, other_code, probe_one, a,
  aaaa, cname, mx, txt, other_record, when, qtype_for, answered, answers_of, extract_answers,
  match_answer, dns_attempt,
}

module _ (types : RecordTypes) (texts : Texts) where
  -- The text that a record of the type asked for carries.
  abbrev pub Carries : ℕ → Record → String → Type 0
  Carries qtype (a ip) got = (qtype ≡ types.type_a) × (got ≡ ip)
  Carries qtype (aaaa ip) got = (qtype ≡ types.type_aaaa) × (got ≡ ip)
  Carries qtype (cname target) got = (qtype ≡ types.type_cname) × (got ≡ texts.trim_dot target)
  Carries qtype (mx host) got = (qtype ≡ types.type_mx) × (got ≡ texts.trim_dot host)
  Carries qtype (txt chunks) got = (qtype ≡ types.type_txt) × (got ≡ texts.join chunks)
  Carries qtype other_record got = ⊥

  -- A record of the type asked for shows one of the expected answers.
  abbrev pub Shows : ℕ → List String → Record → Type 0
  Shows qtype expected rr =
      (got : String) × Carries qtype rr got
      × Any (λ want. texts.equal_fold got want ≡ true) expected

  -- The response is a reply: the server served the query, and, if answers are expected, one of the
  -- records shows one of them, ignoring case.
  abbrev pub IsReply : ℕ → List String → Response → Type 0
  IsReply qtype expected resp =
      ((expected ≡ []) × (resp.rcode ≢ other_code))
      ⊎ ((resp.rcode ≡ success_code) × (expected ≢ []) × Any (Shows qtype expected) resp.answer)

  Any-append :
      (P : String → Type 0) (xs ys : List String) → Any P (xs ++ ys) ↔ (Any P xs ⊎ Any P ys)
  Any-append P [] ys = (λ h. inr h, λ h. elim h [ inl x ↦ absurd x | inr y ↦ y ])
  Any-append P (x ∷ xs) ys = let h = Any-append P xs ys in ground (arith, h)

  extract_answers-Any :
      (P : String → Type 0) (rrs : List Record) (qtype : ℕ)
      → Any P (extract_answers types texts rrs qtype)
        ↔ Any (λ rr. Any P (answers_of types texts qtype rr)) rrs
  unfolding extract_answers
  extract_answers-Any P [] qtype = (λ h. h, λ h. h)
  extract_answers-Any P (rr ∷ rrs) qtype =
      let h =
        Any-append P (answers_of types texts qtype rr) (extract_answers types texts rrs qtype) in
      let k = extract_answers-Any P rrs qtype in
      (
        λ x. elim (h.0 x) [ inl y ↦ inl y | inr y ↦ inr (k.0 y) ],
        λ o. h.1 (elim o [ inl y ↦ inl y | inr y ↦ inr (k.1 y) ]),
      )

  when_iff :
      (P : String → Type 0) (q t : ℕ) (x : String)
      → Any P (when types texts (q == t) x) ↔ ((got : String) × ((q ≡ t) × (got ≡ x)) × P got)
  when_iff P q t x = elim (Bool-cases (q == t)) [
    | inl e ↦ rw e (
      λ h. elim h [ inl p ↦ (x, (ground (arith, e), refl), p) | inr z ↦ absurd z ],
      λ (got, c, p). inl (subst P c.1 p),
    )
    | inr e ↦ rw e (λ h. absurd h, λ (got, c, p). absurd (ground (arith, e, c.0)))
  ]

  answers_of-Carries :
      (P : String → Type 0) (qtype : ℕ) (rr : Record)
      → Any P (answers_of types texts qtype rr) ↔ ((got : String) × Carries qtype rr got × P got)
  unfolding answers_of
  answers_of-Carries P qtype (a ip) = when_iff P qtype types.type_a ip
  answers_of-Carries P qtype (aaaa ip) = when_iff P qtype types.type_aaaa ip
  answers_of-Carries P qtype (cname target) =
      when_iff P qtype types.type_cname (texts.trim_dot target)
  answers_of-Carries P qtype (mx host) = when_iff P qtype types.type_mx (texts.trim_dot host)
  answers_of-Carries P qtype (txt chunks) = when_iff P qtype types.type_txt (texts.join chunks)
  answers_of-Carries P qtype other_record = (λ h. absurd h, λ (got, c, p). absurd c)

  Any-iff :
      (P Q : Record → Type 0)
      → ((rr : Record) → P rr ↔ Q rr)
      → (rrs : List Record) → Any P rrs ↔ Any Q rrs
  Any-iff P Q f [] = (λ h. h, λ h. h)
  Any-iff P Q f (rr ∷ rrs) =
      let h = f rr in
      let k = Any-iff P Q f rrs in
      (
        λ o. elim o [ inl x ↦ inl (h.0 x) | inr x ↦ inr (k.0 x) ],
        λ o. elim o [ inl x ↦ inl (h.1 x) | inr x ↦ inr (k.1 x) ],
      )

  match_answer_iff :
      (rrs : List Record) (qtype : ℕ) (expected : List String)
      → (match_answer types texts rrs qtype expected ≡ true) ↔ Any (Shows qtype expected) rrs
  unfolding match_answer
  match_answer_iff rrs qtype expected =
      let found =
        any-Any (λ got. Any (λ want. texts.equal_fold got want ≡ true) expected)
          (λ got. any (λ want. texts.equal_fold got want) expected)
          (λ got.
            any-Any (λ want. texts.equal_fold got want ≡ true) (λ want. texts.equal_fold got want)
              (λ want. (λ e. e, λ e. e)) expected)
          (extract_answers types texts rrs qtype) in
      let b =
        extract_answers-Any (λ got. Any (λ want. texts.equal_fold got want ≡ true) expected) rrs
          qtype in
      let c =
        Any-iff _ (Shows qtype expected)
          (answers_of-Carries (λ got. Any (λ want. texts.equal_fold got want ≡ true) expected)
            qtype)
          rrs in
      (λ e. c.0 (b.0 (found.0 e)), λ s. found.1 (b.1 (c.1 s)))

  abbrev pub AnswerOutcome : ℕ → List String → Response → Type 0
  AnswerOutcome qtype expected resp =
      ((dns_attempt types texts (some resp) qtype expected ≡ (resp.rtt, true))
        × IsReply qtype expected resp)
      ⊎ ((dns_attempt types texts (some resp) qtype expected ≡ (pos 0, false))
          × ¬ IsReply qtype expected resp)

  matched :
      (qtype : ℕ) (want : String) (wants : List String) (answer : List Record) (rtt : ℤ)
      → AnswerOutcome qtype
          (want ∷ wants)
          (record { rcode = success_code; answer = answer; rtt = rtt })
  unfolding dns_attempt
  matched qtype want wants answer rtt =
      let m = match_answer_iff answer qtype (want ∷ wants) in
      elim (Bool-cases (match_answer types texts answer qtype (want ∷ wants))) [
        | inl e ↦ inl (ground (arith, e), inr (refl, (λ x. cc), m.0 e))
        | inr e ↦ inr (
          ground (arith, e),
          λ r. elim r [
            | inl l ↦ let x : want ∷ wants ≡ [] = l.0 in cc
            | inr o ↦ let y = m.1 o.2 in cc
          ],
        )
      ]

  judge :
      (qtype : ℕ) (expected : List String) (rcode : Rcode) (answer : List Record) (rtt : ℤ)
      → AnswerOutcome qtype expected (record { rcode = rcode; answer = answer; rtt = rtt })
  unfolding dns_attempt
  judge qtype [] success_code answer rtt = inl (refl, inl (refl, (λ e. cc)))
  judge qtype [] name_error answer rtt = inl (refl, inl (refl, (λ e. cc)))
  judge qtype [] other_code answer rtt = inr (
    refl,
    λ r. elim r [ inl l ↦ l.1 refl | inr o ↦ let x : other_code ≡ success_code = o.0 in cc ],
  )
  judge qtype (want ∷ wants) success_code answer rtt = matched qtype want wants answer rtt
  judge qtype (want ∷ wants) name_error answer rtt = inr (
    ground arith,
    λ r. elim r [
      | inl l ↦ let x : want ∷ wants ≡ [] = l.0 in cc
      | inr o ↦ let x : name_error ≡ success_code = o.0 in cc
    ],
  )
  judge qtype (want ∷ wants) other_code answer rtt = inr (
    refl,
    λ r. elim r [
      | inl l ↦ let x : want ∷ wants ≡ [] = l.0 in cc
      | inr o ↦ let x : other_code ≡ success_code = o.0 in cc
    ],
  )

  -- A query that gets a response is received, with its time, exactly if the response is a reply, which
  -- is: the server served the query (NXDOMAIN included) and no answer is expected, or it succeeded and
  -- a record of the type asked for shows one of the expected answers. Any other response is lost.
  pub dns_attempt-AnswerOutcome :
      (qtype : ℕ) (expected : List String) (resp : Response) → AnswerOutcome qtype expected resp
  dns_attempt-AnswerOutcome qtype expected resp =
      judge qtype expected resp.rcode resp.answer resp.rtt

module _ {F : Type 0} (fl : FloatOps F) (laws : FloatLaws fl) where
  -- Once a nameserver is known, a DNS probe with a count from 1 to 2^53 always measures: whatever the
  -- queries come to, its status is success, partial or failure by the share of them answered, and
  -- never error.
  pub probe_one-IsMeasured :
      (types : RecordTypes) (texts : Texts) (now : ℕ) (cfg : ProbeConfig) (dns : DnsConfig)
      (is_done : ℕ → Bool) (exchanges : ℕ → Option Response) (server qname : String) (count : ℕ)
      → cfg.count ≡ pos count
      → 0 < count
      → count ≤ max_exact
      → IsMeasured count (probe_one fl types texts now cfg dns is_done exchanges (ok server) qname)
  unfolding probe_one
  probe_one-IsMeasured types texts now cfg dns is_done exchanges server qname count e h b =
      let qtype = qtype_for types dns.record_type in
      let attempt : ℕ → Unit {0} → Attempt × Unit {0} =
        λ i u. answered fl (dns_attempt types texts (exchanges i) qtype dns.expected_answer) u in
      subst
        (λ c.
          IsMeasured count
            (run_loop fl is_done attempt (blank fl now cfg (literal qname) "dns") c tt).0)
        (sym e)
        (run_loop-IsMeasured fl laws is_done attempt (blank fl now cfg (literal qname) "dns") count
          tt (λ i s. refl) (refl, refl) h b)
