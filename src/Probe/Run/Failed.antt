-- ===== src/Probe/Run/Failed.antt =====
-- What `ok` of `RunLoop` says: the run was measured, or an attempt failed.
use trimon.Base.{
  ℕ, zero, suc, ◌+◌, ◌≤◌, ◌<◌, String, ◌≡◌, refl, sym, ap, ◌∙◌, subst, ◌⊎◌, inl, inr, Bool, true,
  false, none, some, List, [], Option-cases, Bool-cases, ltb, ◌==◌, ◌&&◌, arith,
}
use trimon.Base.Int.{ℤ, pos}
use trimon.Types.{ProbeResult, error}
use trimon.Types.Floats.{FloatOps, FloatLaws, max_exact}
use trimon.Probe.Run.{
  Attempt, Loop, Next, stop, continue, measure, conclude, summarise, round, after_attempt, rounds,
  run_loop,
}
use trimon.Probe.Run.Counters.{rounds-Ended}
use trimon.Probe.Run.Outcome.{IsFresh, IsMeasured, IsBroken, Outcome, run_loop-Outcome}

module _ {S : Type 0} (attempt : ℕ → S → Attempt × S) (user : S) where
  -- The variables of the attempts before call i, and what that call returns.
  abbrev pub state_at : ℕ → S
  state_at zero = user
  state_at (suc i) = (attempt i (state_at i)).1

  abbrev pub call : ℕ → Attempt
  call i = (attempt i (state_at i)).0

  -- None of the first n calls returns an error.
  abbrev pub HasNoError : ℕ → Type 0
  HasNoError n = (i : ℕ) → i < n → (call i).err ≡ none

  -- Of the first n calls, the last one fails with this error, and no other.
  abbrev pub FailsLast : ℕ → String → Type 0
  FailsLast n message = (k : ℕ) × (n ≡ suc k) × HasNoError k × ((call k).err ≡ some message)

  -- The result with the flag `ok`, and the one without.
  abbrev pub Ends : {F : Type 0} → ℕ → ProbeResult F → Bool → Type 0
  Ends count r true = IsMeasured count r × ((0 < r.packets_received) ⊎ HasNoError r.packets_sent)
  Ends count r false = IsBroken count r × FailsLast r.packets_sent r.error_msg

  HasNoError-suc : (n : ℕ) → HasNoError n → (call n).err ≡ none → HasNoError (suc n)
  HasNoError-suc n h e i lt = elim (Bool-cases (i == n)) [
    | inl x ↦ let q : i ≡ n = ground (arith, x) in subst (λ j. (call j).err ≡ none) (sym q) e
    | inr x ↦ h i (ground (arith, x, lt))
  ]

module _ {F : Type 0} (fl : FloatOps F) {S : Type 0} (is_done : ℕ → Bool)
    (attempt : ℕ → S → Attempt × S) (user : S) where
  -- Before round i of a loop that goes on.
  record Going (i : ℕ) (l : Loop fl S) : Type 0 where
    sent : l.result.packets_sent ≡ i
    state : l.user ≡ state_at attempt user i
    no_error : l.last_err ≡ none
    fine : HasNoError attempt user i

  -- After the loop.
  abbrev Made : Loop fl S → Type 0
  Made l =
      ((l.last_err ≡ none) × HasNoError attempt user l.result.packets_sent)
      ⊎ ((message : String) × (l.last_err ≡ some message)
          × FailsLast attempt user l.result.packets_sent message)

  abbrev NextMade : ℕ → Next fl S → Type 0
  NextMade i (stop l) = Made l
  NextMade i (continue l) = Going (suc i) l

  stopped-Made : (i : ℕ) (l : Loop fl S) → Going i l → Made l
  stopped-Made i l g = inl (g.no_error, subst (HasNoError attempt user) (sym g.sent) g.fine)

  round-NextMade : (i : ℕ) (l : Loop fl S) → Going i l → NextMade i (round fl is_done attempt i l)
  unfolding round after_attempt
  round-NextMade i l g = elim (Bool-cases (ltb 0 i && is_done i)) [
    | inl e ↦ rw e (stopped-Made i l g)
    | inr e ↦
        let a = (attempt i l.user).0 in
        let same : a ≡ call attempt user i = ap (λ s. (attempt i s).0) g.state in
        let sent : l.result.packets_sent + 1 ≡ suc i = omega (arith, g.sent) in
        elim (Option-cases a.err) [
          | inr (m, x) ↦
              rw (e, x) (inr (m, refl, (i, sent, g.fine, ap (λ b. b.err) (sym same) ∙ x)))
          | inl x ↦
              let fine = HasNoError-suc attempt user i g.fine (ap (λ b. b.err) (sym same) ∙ x) in
              let state = ap (λ s. (attempt i s).1) g.state in
              elim (Bool-cases a.received) [
                | inl r ↦
                    rw (e, x, r)
                      (record { sent = sent; state = state; no_error = g.no_error; fine = fine })
                | inr r ↦
                    rw (e, x, r)
                      (record { sent = sent; state = state; no_error = g.no_error; fine = fine })
              ]
        ]
  ]

  NextMade-end :
      (n i : ℕ) (next : Next fl S)
      → NextMade i next
      → ((l : Loop fl S) → Going (suc i) l → Made (rounds fl is_done attempt n (suc i) l))
      → let l : Loop fl S = elim next [
        | stop l' ↦ l'
        | continue l' ↦ rounds fl is_done attempt n (suc i) l'
      ] in
        Made l
  NextMade-end n i (stop l) h rest = h
  NextMade-end n i (continue l) h rest = rest l h

  rounds-Made : (n i : ℕ) (l : Loop fl S) → Going i l → Made (rounds fl is_done attempt n i l)
  unfolding rounds
  rounds-Made zero i l g = stopped-Made i l g
  rounds-Made (suc n) i l g =
      NextMade-end n i (round fl is_done attempt i l) (round-NextMade i l g)
        λ l' g'. rounds-Made n (suc i) l' g'

  measure-sent :
      (r : ProbeResult F) (samples : List ℤ)
      → ((measure fl r samples).packets_sent ≡ r.packets_sent)
        × ((measure fl r samples).packets_received ≡ r.packets_received)
  unfolding measure
  measure-sent r samples = (ground arith, ground arith)

  -- A result that `conclude` gives.
  measured-Ends :
      (count : ℕ) (r : ProbeResult F) (samples : List ℤ) (out : ProbeResult F × Bool)
      → out ≡ (measure fl r samples, true)
      → Outcome count out.0 out.1
      → (0 < r.packets_received) ⊎ HasNoError attempt user r.packets_sent
      → Ends attempt user count out.0 out.1
  measured-Ends count r samples out e outcome made =
      let (sent, received) = measure-sent r samples in
      subst (λ s. Ends attempt user count s.0 s.1) (sym e)
        (
          subst (λ s. Outcome count s.0 s.1) e outcome,
          elim made [
            | inl x ↦ inl (omega (arith, x, received))
            | inr x ↦ inr (subst (HasNoError attempt user) (sym sent) x)
          ],
        )

  summarise-Ends :
      (count : ℕ) (l : Loop fl S)
      → let out = summarise fl l.result l.samples l.last_err in
        Made l
        → 0 < l.result.packets_sent
        → Outcome count out.0 out.1
        → Ends attempt user count out.0 out.1
  unfolding summarise conclude
  summarise-Ends count l made sent outcome = elim made [
    | inl (x, fine) ↦
        measured-Ends count l.result l.samples (summarise fl l.result l.samples l.last_err)
          (rw x (ground (arith, sent))) outcome (inr fine)
    | inr (m, x, last) ↦ elim (Bool-cases (l.result.packets_received == 0)) [
      | inl z ↦
          let failed = record l.result {
            status = error;
            error_type = "probe_error";
            error_msg = m;
          } in
          let e : summarise fl l.result l.samples l.last_err ≡ (failed, false) = rw (x, z) refl in
          subst (λ s. Ends attempt user count s.0 s.1) (sym e)
            (subst (λ s. Outcome count s.0 s.1) e outcome, last)
      | inr z ↦
          measured-Ends count l.result l.samples (summarise fl l.result l.samples l.last_err)
            (rw (x, z) (ground (arith, sent))) outcome (inl (ground (arith, z)))
    ]
  ]

module _ {F : Type 0} (fl : FloatOps F) (laws : FloatLaws fl) {S : Type 0} (is_done : ℕ → Bool)
    (attempt : ℕ → S → Attempt × S) where
  -- For a count from 1 to 2^53 and a result without packets: with `ok`, at least one and at most `count`
  -- attempts were sent, the status is success, failure or partial as all, none or some of them were
  -- answered, and if none was, none of those sent failed; without, at least one and at most `count`
  -- were sent, none was answered, the last one failed and none before it, the status is error with
  -- the type probe_error, and the message is the error of that attempt. The error "cancelled" is
  -- never given, whatever the context does.
  pub run_loop-Ends :
      (result : ProbeResult F) (count : ℕ) (user : S)
      → IsFresh result
      → 0 < count
      → count ≤ max_exact
      → let out = run_loop fl is_done attempt result (pos count) user in
        Ends attempt user count out.0 out.1
  unfolding run_loop
  run_loop-Ends result count user fresh h b =
      let start : Loop fl S = record {
        result = result;
        samples = [];
        last_err = none;
        user = user;
      } in
      let ended =
        rounds-Ended fl is_done attempt count 0 start
          (record {
            sent = fresh.0;
            received = omega arith;
            sampled = omega arith;
            no_error = refl;
          })
          (omega arith) in
      let made = rounds-Made fl is_done attempt user count 0 start (record {
        sent = fresh.0;
        state = refl;
        no_error = refl;
        fine = λ i lt. absurd (omega (arith, lt));
      }) in
      summarise-Ends fl is_done attempt user count (rounds fl is_done attempt count 0 start) made
        ended.1 (run_loop-Outcome fl laws is_done attempt result count user fresh h b)
