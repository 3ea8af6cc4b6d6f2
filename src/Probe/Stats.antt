-- ===== src/Probe/Stats.antt =====
-- internal/probe/stats.go: the summary of the round-trip times.
pub mod Bounds
pub mod Summary
use trimon.Base.{List, [], ◌∷◌, length, if◌then◌else◌}
use trimon.Base.Int.{ℤ, pos, ltb_ℤ, wrap64, ◌+ℤ◌}
use trimon.Types.{Rtt}
use trimon.Types.Floats.{FloatOps, of_ℕ}

-- The loop for the extremes and the sum, which wraps.
pub record Extremes : Type 0 where
  pub min_rtt : ℤ
  pub max_rtt : ℤ
  pub sum : ℤ

unfoldable pub extremes_from : Extremes → List ℤ → Extremes
extremes_from e [] = e
extremes_from e (s ∷ samples) =
    extremes_from
      (record {
        min_rtt = if ltb_ℤ s e.min_rtt then s else e.min_rtt;
        max_rtt = if ltb_ℤ e.max_rtt s then s else e.max_rtt;
        sum = wrap64 (e.sum +ℤ s);
      })
      samples

-- `samples[0]` and the loop over all samples.
unfoldable pub extremes : ℤ → List ℤ → Extremes
unfolding extremes_from
extremes first rest =
    extremes_from (record { min_rtt = first; max_rtt = first; sum = pos 0 }) (first ∷ rest)

module _ {F : Type 0} (fl : FloatOps F) where
  unfoldable pub sum_squares : F → F → List ℤ → F
  sum_squares mean variance [] = variance
  sum_squares mean variance (s ∷ samples) =
      let d = fl.sub (fl.of_ℤ s) mean in sum_squares mean (fl.add variance (fl.mul d d)) samples

  unfoldable pub rtt_stats : List ℤ → Rtt F
  rtt_stats [] = record {
    min_ms = of_ℕ fl 0;
    mean_ms = of_ℕ fl 0;
    max_ms = of_ℕ fl 0;
    stddev_ms = of_ℕ fl 0;
  }
  rtt_stats (first ∷ rest) =
      let e = extremes first rest in
      let n = of_ℕ fl (length (first ∷ rest)) in
      let mean = fl.div (fl.of_ℤ e.sum) n in
      let variance = fl.div (sum_squares mean (of_ℕ fl 0) (first ∷ rest)) n in
      let ms_per_nano = fl.div (of_ℕ fl 1) (of_ℕ fl 1_000_000) in
      record {
        min_ms = fl.mul (fl.of_ℤ e.min_rtt) ms_per_nano;
        mean_ms = fl.mul mean ms_per_nano;
        max_ms = fl.mul (fl.of_ℤ e.max_rtt) ms_per_nano;
        stddev_ms = fl.mul (fl.sqrt variance) ms_per_nano;
      }
