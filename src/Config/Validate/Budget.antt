-- ===== src/Config/Validate/Budget.antt =====
-- What `validateTimings` accepts, against the intended budget over the true integers.
use trimon.Base.{ℕ, ◌*◌, ◌^◌, ◌<◌, ◌≡◌, ◌↔◌, arith, ok}
use trimon.Base.Int.{ℤ, pos, negsuc, ◌*ℤ◌, ◌≤ℤ◌, ◌<ℤ◌, wrap64, IsInt64, wrap64_self}
use trimon.Config.Validate.{validate_timings, millisecond}

-- All packets fit into the timeout, and the timeout into the cadence.
pub record FitsBudget (interval packet_interval timeout count : ℤ) : Type 0 where
  pub paced : millisecond ≤ℤ packet_interval
  pub counted : pos 0 <ℤ count
  pub packets_fit : packet_interval *ℤ count <ℤ timeout
  pub run_fits : timeout <ℤ interval

mul_pos : (a b : ℕ) → 0 < a → 0 < b → 0 < a * b
mul_pos a b h k = grind arith

*ℤ-pos : (a b : ℤ) → pos 0 <ℤ a → pos 0 <ℤ b → pos 0 <ℤ a *ℤ b
unfolding ◌*ℤ◌
*ℤ-pos (pos a) (pos b) h k = ground (arith, mul_pos a b)
*ℤ-pos (pos a) (negsuc b) h k = elim k [ ]
*ℤ-pos (negsuc a) b h k = elim h [ ]

-- As long as packet_interval * count does not overflow an int64, the timings are accepted exactly
-- if the packets are at least a millisecond apart, count is positive, packet_interval * count is
-- less than the timeout and the timeout is less than the interval.
pub validate_timings_iff :
    (interval packet_interval timeout count : ℤ)
    → IsInt64 (packet_interval *ℤ count)
    → (validate_timings interval packet_interval timeout count ≡ ok tt)
      ↔ FitsBudget interval packet_interval timeout count
unfolding validate_timings
validate_timings_iff i p t c h = rw (wrap64_self (p *ℤ c) h) (ground (arith, *ℤ-pos p c))

-- packet_interval * count may wrap: at a packet interval of 2^20 ns and a count of k * 2^44 the
-- product is 0 as an int64, so the timings are accepted although the packets of one run take longer
-- than the timeout.
pub validate_timings_overflow :
    (interval timeout : ℤ) (k : ℕ)
    → IsInt64 timeout
    → 0 < k
    → pos 0 <ℤ timeout
    → timeout <ℤ interval
    → (validate_timings interval (pos (2 ^ 20)) timeout (pos (k * 2 ^ 44)) ≡ ok tt)
      × (timeout <ℤ pos (2 ^ 20) *ℤ pos (k * 2 ^ 44))
unfolding validate_timings wrap64 ◌*ℤ◌
validate_timings_overflow i t k h a b c = ground arith
