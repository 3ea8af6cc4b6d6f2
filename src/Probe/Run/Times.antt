-- ===== src/Probe/Run/Times.antt =====
-- The round-trip times of a run, which `RunLoop` of internal/probe/run.go takes from `RTTStats`.
use mathlib.Core.List.{map-append}
use native.Mathlib.Nat.{le_of_mul-le-mul_left}
use trimon.Base.{
  ℕ, suc, ◌+◌, ◌*◌, ◌≤◌, ◌<◌, ◌≡◌, refl, sym, ap, ap₂, ◌∙◌, subst, ◌⊎◌, inl, inr, Bool, true,
  String, Option, none, some, List, [], ◌∷◌, ◌++◌, map, length, length-append, All, All-append,
  arith, Bool-cases, Option-cases, ltb, ◌==◌, ◌&&◌,
}
use trimon.Base.Int.{ℤ, pos}
use trimon.Types.{ProbeResult, Rtt}
use trimon.Types.Floats.{FloatOps, FloatLaws, max_exact}
use trimon.Types.Floats.Order.{OrderLaws}
use trimon.Probe.Stats.{rtt_stats}
use trimon.Probe.Stats.Summary.{sum, Summarises, rtt_stats-Summarises}
use trimon.Probe.Run.{
  Attempt, Loop, measure, conclude, summarise, round, after_attempt, rounds, run_loop,
}
use trimon.Probe.Run.Counters.{rounds-Ended, NextHolds, rounds_inv}
use trimon.Probe.Run.Outcome.{IsFresh}

sum-append : (xs ys : List ℕ) → sum (xs ++ ys) ≡ sum xs + sum ys
sum-append [] ys = omega arith
sum-append (x ∷ xs) ys = omega (arith, sum-append xs ys)

length-numbers : (ns : List ℕ) → length (map pos ns) ≡ length ns
length-numbers [] = refl
length-numbers (n ∷ ns) = ap suc (length-numbers ns)

-- The times that a result publishes.
abbrev pub times_of : {F : Type 0} → ProbeResult F → Rtt F
times_of r = record {
  min_ms = r.rtt_min_ms;
  mean_ms = r.rtt_mean_ms;
  max_ms = r.rtt_max_ms;
  stddev_ms = r.rtt_stddev_ms;
}

module _ {F : Type 0} (fl : FloatOps F) {S : Type 0} (is_done : ℕ → Bool)
    (attempt : ℕ → S → Attempt × S) (time : ℕ → S → ℕ) (count : ℕ) where
  -- The time of an attempt that got a reply.
  abbrev pub IsReplyTime : ℕ → Type 0
  IsReplyTime n = (i : ℕ) × (s : S) × ((attempt i s).0.received ≡ true) × (n ≡ time i s)

  -- Nothing was received, or the times published sum up those of the replies, one for each.
  abbrev pub Timed : ProbeResult F → Type 0
  Timed out =
      (out.packets_received ≡ 0)
      ⊎ ((ns : List ℕ) × (length ns ≡ out.packets_received)
          × All IsReplyTime ns
          × Summarises fl ns (times_of out))

  record Sampled (l : Loop fl S) : Type 0 where
    times : List ℕ
    samples : l.samples ≡ map pos times
    small : sum times * count ≤ length times * max_exact
    replies : All IsReplyTime times

  module _ (timed : (i : ℕ) (s : S) → (attempt i s).0.rtt ≡ pos (time i s))
      (short : (i : ℕ) (s : S) → time i s * count ≤ max_exact) where
    round-Sampled :
        (i : ℕ) (l : Loop fl S)
        → Sampled l
        → NextHolds fl is_done attempt Sampled (round fl is_done attempt i l)
    unfolding round after_attempt
    round-Sampled i l h =
        let a = (attempt i l.user).0 in
        elim (Bool-cases (ltb 0 i && is_done i)) [
          | inl e ↦ rw e h
          | inr e ↦ elim (Option-cases a.err) [
            | inr (m, x) ↦
                rw (e, x)
                  (record {
                    times = h.times;
                    samples = h.samples;
                    small = h.small;
                    replies = h.replies;
                  })
            | inl x ↦ elim (Bool-cases a.received) [
              | inr r ↦
                  rw (e, x, r)
                    (record {
                      times = h.times;
                      samples = h.samples;
                      small = h.small;
                      replies = h.replies;
                    })
              | inl r ↦
                  rw (e, x, r)
                    (let t = time i l.user in
                      record {
                        times = h.times ++ t ∷ [];
                        samples =
                            ap₂ (λ ss x. ss ++ x ∷ []) h.samples (timed i l.user)
                            ∙ sym (map-append _ _ _);
                        small = omega (
                          arith,
                          h.small,
                          short i l.user,
                          ap (λ n. n * count) (sum-append h.times (t ∷ [])),
                          length-append h.times (t ∷ []),
                        );
                        replies =
                            All-append IsReplyTime h.times (t ∷ []) h.replies
                              ((i, l.user, r, refl), tt);
                      })
            ]
          ]
        ]

    times_of-measure :
        (r : ProbeResult F) (ns : List ℕ)
        → 0 < r.packets_received
        → times_of (measure fl r (map pos ns)) ≡ rtt_stats fl (map pos ns)
    unfolding measure
    times_of-measure r ns h =
        let e : ltb 0 r.packets_received ≡ true = ground (arith, h) in rw e refl

    measure-received :
        (r : ProbeResult F) (samples : List ℤ)
        → (measure fl r samples).packets_received ≡ r.packets_received
    unfolding measure
    measure-received r samples = ground arith

    summarise-cases :
        (r : ProbeResult F) (samples : List ℤ) (last_err : Option String)
        → 0 < r.packets_sent
        → ((summarise fl r samples last_err).0.packets_received ≡ 0)
          ⊎ ((summarise fl r samples last_err).0 ≡ measure fl r samples)
    unfolding summarise conclude
    summarise-cases r samples none p = inr (ground (arith, p))
    summarise-cases r samples (some e) p = elim (Bool-cases (r.packets_received == 0)) [
      | inl z ↦ inl (rw z (ground (arith, z)))
      | inr z ↦ inr (rw z (ground (arith, p)))
    ]

    sum_small :
        (total n : ℕ) → total * count ≤ n * max_exact → n ≤ count → 0 < count → total ≤ max_exact
    sum_small total n h k p = le_of_mul-le-mul_left {k = count} (omega (arith, h, k)) p

    module _ (laws : FloatLaws fl) (order : OrderLaws fl) (b : count ≤ max_exact) where
      measure-Timed :
          (r : ProbeResult F) (ns : List ℕ)
          → length ns ≡ r.packets_received
          → sum ns * count ≤ length ns * max_exact
          → All IsReplyTime ns
          → r.packets_received ≤ count
          → Timed (measure fl r (map pos ns))
      measure-Timed r [] n small replies h = inl (measure-received r [] ∙ sym n)
      measure-Timed r (t ∷ ts) n small replies h =
          let samples = t ∷ ts in
          inr (
            samples,
            n ∙ sym (measure-received r (map pos samples)),
            replies,
            subst (Summarises fl samples) (sym (times_of-measure r samples (omega (arith, n)))) (
                rtt_stats-Summarises fl laws order t ts (omega (arith, n, h, b)) (
                  sum_small (sum samples) (length samples) small (omega (arith, n, h))
                    (omega (arith, n, h)))),
          )

      summarise-Timed :
          (l : Loop fl S)
          → Sampled l
          → length l.samples ≡ l.result.packets_received
          → l.result.packets_received ≤ count
          → 0 < l.result.packets_sent
          → Timed (summarise fl l.result l.samples l.last_err).0
      summarise-Timed l s n h p =
          let m : Timed (measure fl l.result l.samples) =
            subst (λ x. Timed (measure fl l.result x)) (sym s.samples)
              (measure-Timed l.result s.times
                (sym (length-numbers s.times) ∙ ap length (sym s.samples) ∙ n) s.small s.replies
                h) in
          elim (summarise-cases l.result l.samples l.last_err p) [
            | inl z ↦ inl z
            | inr e ↦ subst Timed (sym e) m
          ]

      -- A run with a count from 1 to 2^53, begun with no packet counted, over attempts whose round-trip
      -- times are not negative and short enough that `count` of each fit in 2^53 nanoseconds,
      -- receives nothing, or has one time for each packet received, that of an attempt with a reply,
      -- and publishes a minimum and a maximum that are those of some of them, each time and the
      -- mean being between the two.
      pub run_loop-Timed :
          (result : ProbeResult F) (user : S)
          → IsFresh result
          → 0 < count
          → Timed (run_loop fl is_done attempt result (pos count) user).0
      unfolding run_loop
      run_loop-Timed result user fresh h =
          let start : Loop fl S = record {
            result = result;
            samples = [];
            last_err = none;
            user = user;
          } in
          let (e, p) =
            rounds-Ended fl is_done attempt count 0 start
              (record {
                sent = fresh.0;
                received = omega arith;
                sampled = omega arith;
                no_error = refl;
              })
              (omega arith) in
          let s =
            rounds_inv fl is_done attempt Sampled round-Sampled count 0 start
              (record { times = []; samples = refl; small = omega arith; replies = tt }) in
          summarise-Timed (rounds fl is_done attempt count 0 start) s e.sampled
            (omega (arith, e.received, e.sent)) p
