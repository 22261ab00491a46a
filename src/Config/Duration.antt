-- ===== src/Config/Duration.antt =====
-- config.go: `EstimateDuration` and `CheckDurationLimit`. Durations are 64-bit integers, so both
-- products wrap. The floating-point step, `time.Duration(float64(d) * 1.1)`, is the parameter
-- `scale`; what the theorems need of it is a hypothesis.
use native.Mathlib.Nat.{zero-mul}
use udp_measure.Prelude.{
  ℕ, ◌*◌, ◌≤◌, arith, Option, none, some, List, length, if◌then◌else◌, ◌≡◌, refl,
}
use udp_measure.Prelude.Int.{ℤ, pos, ◌*ℤ◌, ◌<ℤ◌, ltb_ℤ, wrap64, IsInt64, wrap64_of_IsInt64}
use udp_measure.Config.Sweep.{ClientConfig, SweepPlan}

-- The error of `CheckDurationLimit`: the estimate and the limit.
pub data DurationError : Type 0 where
  exceeds : ℤ → ℤ → DurationError

module _ (scale : ℤ → ℤ) where
  unfoldable pub estimate_duration : ClientConfig → List SweepPlan → ℤ
  estimate_duration c plans =
      let per_test_duration = wrap64 (c.interval *ℤ c.count) in
      wrap64 (scale per_test_duration *ℤ pos (length plans))

  unfoldable pub check_duration_limit : ClientConfig → List SweepPlan → Option DurationError
  unfolding estimate_duration
  check_duration_limit c plans =
      let estimated = estimate_duration c plans in
      if ltb_ℤ c.max_estimated_duration estimated
      then some (exceeds estimated c.max_estimated_duration)
      else none

mul_pos : (a b : ℕ) → pos a *ℤ pos b ≡ pos (a * b)
unfolding ◌*ℤ◌
mul_pos a b = ground arith

mul_mono : (a b n l : ℕ) → a ≤ b → b * n ≤ l → a * n ≤ l
mul_mono a b n l h k = grind arith

-- Without wrap-around the estimate is the scaled time of one test, times the number of tests.
pub estimate_exact :
    (scale : ℤ → ℤ) (c : ClientConfig) (plans : List SweepPlan) (interval count scaled : ℕ)
    → c.interval ≡ pos interval
    → c.count ≡ pos count
    → IsInt64 (pos (interval * count))
    → scale (pos (interval * count)) ≡ pos scaled
    → IsInt64 (pos (scaled * length plans))
    → estimate_duration scale c plans ≡ pos (scaled * length plans)
unfolding estimate_duration
estimate_exact scale c plans interval count scaled ei ec fits es fits' = rw (
  ei,
  ec,
  mul_pos interval count,
  wrap64_of_IsInt64 (pos (interval * count)) fits,
  es,
  mul_pos scaled (length plans),
  wrap64_of_IsInt64 (pos (scaled * length plans)) fits',
)

zero_times : (n : ℕ) → wrap64 (pos 0 *ℤ pos n) ≡ pos 0
zero_times n = rw (mul_pos, zero-mul) (wrap64_of_IsInt64 (pos 0) (omega arith))

-- If neither product leaves 64 bits and scaling does not shrink a duration, a sweep that passes the
-- check spends at most the limit on sending: interval times count times the number of tests.
pub check_duration_limit_sound :
    (scale : ℤ → ℤ) (c : ClientConfig) (plans : List SweepPlan) (interval count scaled limit : ℕ)
    → c.interval ≡ pos interval
    → c.count ≡ pos count
    → c.max_estimated_duration ≡ pos limit
    → IsInt64 (pos (interval * count))
    → scale (pos (interval * count)) ≡ pos scaled
    → interval * count ≤ scaled
    → IsInt64 (pos (scaled * length plans))
    → check_duration_limit scale c plans ≡ none
    → interval * count * length plans ≤ limit
unfolding check_duration_limit
check_duration_limit_sound scale c plans interval count scaled limit ei ec el fits es up fits' h =
    mul_mono (interval * count) scaled (length plans) limit up
      (ground (arith, estimate_exact scale c plans interval count scaled ei ec fits es fits'))

-- If interval times count is a multiple of 2 ^ 64 nanoseconds, and scaling keeps zero, the estimate is
-- zero, and every limit that `Validate` allows is kept, whatever the plans are.
pub check_duration_limit_wraps :
    (scale : ℤ → ℤ) (c : ClientConfig) (plans : List SweepPlan)
    → scale (pos 0) ≡ pos 0
    → pos 0 <ℤ c.max_estimated_duration
    → wrap64 (c.interval *ℤ c.count) ≡ pos 0
    → (estimate_duration scale c plans ≡ pos 0) × (check_duration_limit scale c plans ≡ none)
unfolding check_duration_limit estimate_duration
check_duration_limit_wraps scale c plans zero limit wraps =
    rw (wraps, zero, zero_times (length plans)) (refl, ground arith)
