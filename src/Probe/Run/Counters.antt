-- ===== src/Probe/Run/Counters.antt =====
-- The counters of `RunLoop`, and what its result says of them.
use trimon.Base.{
  ℕ, zero, suc, ◌+◌, ◌≤◌, ◌<◌, ◌≡◌, ◌⊎◌, inl, Bool, none, [], ◌∷◌, length, length-append, arith,
}
use trimon.Types.Floats.{FloatOps}
use trimon.Probe.Run.{Attempt, Loop, Next, stop, continue, after_attempt, round, rounds}

module _ {F : Type 0} (fl : FloatOps F) {S : Type 0} (is_done : ℕ → Bool)
    (attempt : ℕ → S → Attempt × S) where
  -- Before round i of a loop that goes on.
  pub record Counted (i : ℕ) (l : Loop fl S) : Type 0 where
    pub sent : l.result.packets_sent ≡ i
    pub received : l.result.packets_received ≤ i
    pub sampled : length l.samples ≡ l.result.packets_received
    pub no_error : l.last_err ≡ none

  -- After the loop: at most `most` attempts, each counted as sent, and one sample for each reply. An
  -- attempt that failed was sent and not received.
  pub record Ended (most : ℕ) (l : Loop fl S) : Type 0 where
    pub sent : l.result.packets_sent ≤ most
    pub received : l.result.packets_received ≤ l.result.packets_sent
    pub sampled : length l.samples ≡ l.result.packets_received
    pub failed : (l.last_err ≡ none) ⊎ (l.result.packets_received < l.result.packets_sent)

  abbrev RoundOk : ℕ → Next fl S → Type 0
  RoundOk i (stop l) = Ended (i + 1) l × (0 < l.result.packets_sent)
  RoundOk i (continue l) = Counted (i + 1) l

  round-RoundOk : (i : ℕ) (l : Loop fl S) → Counted i l → RoundOk i (round fl is_done attempt i l)
  unfolding round after_attempt
  round-RoundOk i l c = ground (arith, length-append l.samples ((attempt i l.user).0.rtt ∷ []))

  -- One round, then the rest of the loop by its lemma.
  after_round :
      (n i : ℕ) (next : Next fl S)
      → RoundOk i next
      → ((l : Loop fl S)
          → Counted (suc i) l
          → Ended (suc i + n) (rounds fl is_done attempt n (suc i) l)
            × (0 < (rounds fl is_done attempt n (suc i) l).result.packets_sent))
      → let l : Loop fl S = elim next [
        | stop l' ↦ l'
        | continue l' ↦ rounds fl is_done attempt n (suc i) l'
      ] in
        Ended (suc i + n) l × (0 < l.result.packets_sent)
  after_round n i (stop l) (e, h) rest = (
    record {
      sent = omega (arith, e.sent);
      received = e.received;
      sampled = e.sampled;
      failed = e.failed;
    },
    h,
  )
  after_round n i (continue l) c rest = rest l (record {
    sent = omega (arith, c.sent);
    received = omega (arith, c.received);
    sampled = c.sampled;
    no_error = c.no_error;
  })

  -- The loop, with at least one attempt made or to be made.
  pub rounds-Ended :
      (n i : ℕ) (l : Loop fl S)
      → Counted i l
      → 0 < i + n
      → Ended (i + n) (rounds fl is_done attempt n i l)
        × (0 < (rounds fl is_done attempt n i l).result.packets_sent)
  unfolding rounds
  rounds-Ended zero i l c h = (
    record {
      sent = omega (arith, c.sent);
      received = omega (arith, c.sent, c.received);
      sampled = c.sampled;
      failed = inl c.no_error;
    },
    omega (arith, c.sent),
  )
  rounds-Ended (suc n) i l c h =
      let (e, p) =
        after_round n i (round fl is_done attempt i l) (round-RoundOk i l c)
          λ l' c'. rounds-Ended n (suc i) l' c' (omega arith) in
      (
        record {
          sent = omega (arith, e.sent);
          received = e.received;
          sampled = e.sampled;
          failed = e.failed;
        },
        p,
      )

-- An invariant of the loop, kept by each round.
module _ {F : Type 0} (fl : FloatOps F) {S : Type 0} (is_done : ℕ → Bool)
    (attempt : ℕ → S → Attempt × S) (P : Loop fl S → Type 0) where
  abbrev pub NextHolds : Next fl S → Type 0
  NextHolds (stop l) = P l
  NextHolds (continue l) = P l

  NextHolds-end :
      (n i : ℕ) (next : Next fl S)
      → NextHolds next
      → ((l : Loop fl S) → P l → P (rounds fl is_done attempt n (suc i) l))
      → let l : Loop fl S = elim next [
        | stop l' ↦ l'
        | continue l' ↦ rounds fl is_done attempt n (suc i) l'
      ] in
        P l
  NextHolds-end n i (stop l) h rest = h
  NextHolds-end n i (continue l) h rest = rest l h

  pub rounds_inv :
      ((i : ℕ) (l : Loop fl S) → P l → NextHolds (round fl is_done attempt i l))
      → (n i : ℕ) (l : Loop fl S) → P l
      → P (rounds fl is_done attempt n i l)
  unfolding rounds
  rounds_inv keep zero i l h = h
  rounds_inv keep (suc n) i l h =
      NextHolds-end n i (round fl is_done attempt i l) (keep i l h)
        λ l' h'. rounds_inv keep n (suc i) l' h'
