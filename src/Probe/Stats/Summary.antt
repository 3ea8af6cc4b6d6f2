-- ===== src/Probe/Stats/Summary.antt =====
-- The round-trip times that are published, in milliseconds: what `RTTStats` gives for durations
-- that are not negative.
use trimon.Base.{
  ℕ, suc, ◌+◌, ◌*◌, ◌^◌, ◌≤◌, ◌<◌, ◌≡◌, refl, sym, ap, ap₂, ◌∙◌, true, inl, inr, List, [], ◌∷◌, map,
  length, Any, All, All-imp, arith,
}
use trimon.Base.Int.{ℤ, pos, pos_part, neg_part, ◌+ℤ◌, wrap64, wrap64_self}
use trimon.Types.{Rtt}
use trimon.Types.Floats.{FloatOps, FloatLaws, of_ℕ, max_exact}
use trimon.Types.Floats.Order.{OrderLaws}
use trimon.Probe.Stats.{Extremes, extremes_from, extremes, rtt_stats}
use trimon.Probe.Stats.Bounds.{IsWithin, turn, extremes-IsWithin}

abbrev pub sum : List ℕ → ℕ
sum [] = 0
sum (x ∷ xs) = x + sum xs

add_pos : (a b : ℕ) → pos a +ℤ pos b ≡ pos (a + b)
unfolding ◌+ℤ◌
add_pos a b = ground arith

wrap_pos : (n : ℕ) → n < 2 ^ 63 → wrap64 (pos n) ≡ pos n
wrap_pos n h = wrap64_self (pos n) (h, omega arith)

-- The sum does not wrap as long as the durations fit together in an int64.
extremes_from-sum :
    (e : Extremes) (a : ℕ) (xs : List ℕ)
    → e.sum ≡ pos a
    → a + sum xs < 2 ^ 63
    → (extremes_from e (map pos xs)).sum ≡ pos (a + sum xs)
unfolding extremes_from
extremes_from-sum e a [] h k = h ∙ ap pos (omega arith)
extremes_from-sum e a (x ∷ xs) h k =
    extremes_from-sum (turn e (pos x)) (a + x) xs
      (ap (λ s. wrap64 (s +ℤ pos x)) h
        ∙ ap wrap64 (add_pos a x)
        ∙ wrap_pos (a + x) (omega (arith, k)))
      (omega (arith, k))
    ∙ ap pos (omega arith)

extremes-sum :
    (first : ℕ) (rest : List ℕ)
    → sum (first ∷ rest) < 2 ^ 63
    → (extremes (pos first) (map pos rest)).sum ≡ pos (sum (first ∷ rest))
unfolding extremes
extremes-sum first rest h =
    extremes_from-sum (record { min_rtt = pos first; max_rtt = pos first; sum = pos 0 }) 0
      (first ∷ rest) refl (omega (arith, h))
    ∙ ap pos (omega arith)

length-map : (xs : List ℕ) → length (map pos xs) ≡ length xs
length-map [] = refl
length-map (x ∷ xs) = ap suc (length-map xs)

Any-numbers : (x : ℤ) (xs : List ℕ) → Any (λ s. x ≡ s) (map pos xs) → Any (λ n. x ≡ pos n) xs
Any-numbers x [] h = elim h [ ]
Any-numbers x (n ∷ ns) (inl e) = inl e
Any-numbers x (n ∷ ns) (inr h) = inr (Any-numbers x ns h)

Any-number : (x : ℤ) (xs : List ℕ) → Any (λ n. x ≡ pos n) xs → x ≡ pos (pos_part x)
Any-number x [] h = elim h [ ]
Any-number x (n ∷ ns) (inl e) = e ∙ ap (λ i. pos (pos_part i)) (sym e)
Any-number x (n ∷ ns) (inr h) = Any-number x ns h

Any-ap :
    {A : Type 0} (f : ℤ → A) (x : ℤ) (xs : List ℕ)
    → Any (λ n. x ≡ pos n) xs
    → Any (λ n. f x ≡ f (pos n)) xs
Any-ap f x [] h = elim h [ ]
Any-ap f x (n ∷ ns) (inl e) = inl (ap f e)
Any-ap f x (n ∷ ns) (inr h) = inr (Any-ap f x ns h)

Any-sum : (x : ℤ) (xs : List ℕ) → Any (λ n. x ≡ pos n) xs → pos_part x ≤ sum xs
Any-sum x [] h = elim h [ ]
Any-sum x (n ∷ ns) (inl e) = omega (arith, ap pos_part e)
Any-sum x (n ∷ ns) (inr h) = omega (arith, Any-sum x ns h)

abbrev IsBetween : ℕ → ℕ → ℕ → Type 0
IsBetween low high n = (low ≤ n) × (n ≤ high)

All-numbers :
    (e : Extremes) (low high : ℕ) (xs : List ℕ)
    → e.min_rtt ≡ pos low
    → e.max_rtt ≡ pos high
    → All (IsWithin e) (map pos xs)
    → All (IsBetween low high) xs
All-numbers e low high [] h k a = tt
All-numbers e low high (x ∷ xs) h k a = (
  (
    omega (arith, a.0.0, ap pos_part h, ap neg_part h),
    omega (arith, a.0.1, ap pos_part k, ap neg_part k),
  ),
  All-numbers e low high xs h k a.1,
)

sum-IsBetween :
    (low high : ℕ) (xs : List ℕ)
    → All (IsBetween low high) xs
    → IsBetween (low * length xs) (high * length xs) (sum xs)
sum-IsBetween low high [] h = (omega arith, omega arith)
sum-IsBetween low high (x ∷ xs) h =
    let rest = sum-IsBetween low high xs h.1 in (omega (arith, rest, h.0), omega (arith, rest, h.0))

module _ {F : Type 0} (fl : FloatOps F) where
  abbrev pub per_nano : F
  per_nano = fl.div (of_ℕ fl 1) (of_ℕ fl 1_000_000)

  abbrev pub in_ms : ℕ → F
  in_ms s = fl.mul (of_ℕ fl s) per_nano

  abbrev exact_mean : List ℕ → F
  exact_mean samples = fl.div (of_ℕ fl (sum samples)) (of_ℕ fl (length samples))

  -- The minimum and the maximum are those of samples, every sample is between them, and so is the mean.
  pub record Summarises (samples : List ℕ) (t : Rtt F) : Type 0 where
    pub lowest : Any (λ s. t.min_ms ≡ in_ms s) samples
    pub highest : Any (λ s. t.max_ms ≡ in_ms s) samples
    pub between :
        All (λ s. (fl.le t.min_ms (in_ms s) ≡ true) × (fl.le (in_ms s) t.max_ms ≡ true)) samples
    pub mean : (fl.le t.min_ms t.mean_ms ≡ true) × (fl.le t.mean_ms t.max_ms ≡ true)

  module _ (laws : FloatLaws fl) (order : OrderLaws fl) where
    in_ms-le : (a b : ℕ) → a ≤ b → b ≤ max_exact → fl.le (in_ms a) (in_ms b) ≡ true
    in_ms-le a b h k =
        order.scale (of_ℕ fl a) (of_ℕ fl b) 1_000_000 (omega arith) (omega arith)
          (laws.le_int a b (omega (arith, h, k)) k ∙ ground (arith, h))

    mean_between :
        (low high : ℕ) (samples : List ℕ)
        → 0 < length samples
        → length samples ≤ max_exact
        → sum samples ≤ max_exact
        → IsBetween (low * length samples) (high * length samples) (sum samples)
        → high ≤ sum samples
        → (fl.le (in_ms low) (fl.mul (exact_mean samples) per_nano) ≡ true)
          × (fl.le (fl.mul (exact_mean samples) per_nano) (in_ms high) ≡ true)
    mean_between low high samples some count small h top =
        let n = length samples in
        let total = sum samples in
        (
          order.scale (of_ℕ fl low) (exact_mean samples) 1_000_000 (omega arith) (omega arith)
              (order.quotient_ge low n total some count small h.0),
          order.scale (exact_mean samples) (of_ℕ fl high) 1_000_000 (omega arith) (omega arith)
              (order.quotient_le high n total some count (omega (arith, top, small)) h.1),
        )

    -- For at most 2^53 durations that are not negative and whose sum is at most 2^53 nanoseconds, the
    -- minimum and the maximum published are those of durations measured, and each duration measured
    -- and the mean are between them, however the mean is rounded.
    pub rtt_stats-Summarises :
        (first : ℕ) (rest : List ℕ)
        → length (first ∷ rest) ≤ max_exact
        → sum (first ∷ rest) ≤ max_exact
        → Summarises (first ∷ rest) (rtt_stats fl (map pos (first ∷ rest)))
    unfolding rtt_stats
    rtt_stats-Summarises first rest count small =
        let samples = first ∷ rest in
        let e = extremes (pos first) (map pos rest) in
        let (within, least, most) = extremes-IsWithin (pos first) (map pos rest) in
        let least = Any-numbers e.min_rtt samples least in
        let most = Any-numbers e.max_rtt samples most in
        let low = pos_part e.min_rtt in
        let high = pos_part e.max_rtt in
        let low_eq : e.min_rtt ≡ pos low = Any-number e.min_rtt samples least in
        let high_eq : e.max_rtt ≡ pos high = Any-number e.max_rtt samples most in
        let numbers = All-numbers e low high samples low_eq high_eq within in
        let top = Any-sum e.max_rtt samples most in
        let means =
          mean_between low high samples (omega arith) count small
            (sum-IsBetween low high samples numbers) top in
        let mean_eq : fl.div (fl.of_ℤ e.sum) (of_ℕ fl (suc (length (map pos rest))))
            ≡ exact_mean samples =
          ap₂ (λ t n. fl.div (fl.of_ℤ t) (of_ℕ fl n))
            (extremes-sum first rest (omega (arith, small))) (length-map samples) in
        record {
          lowest = Any-ap (λ x. fl.mul (fl.of_ℤ x) per_nano) e.min_rtt samples least;
          highest = Any-ap (λ x. fl.mul (fl.of_ℤ x) per_nano) e.max_rtt samples most;
          between =
              All-imp (IsBetween low high) _
                (λ s h. (
                  rw low_eq (in_ms-le low s h.0 (omega (arith, h, top, small))),
                  rw high_eq (in_ms-le s high h.1 (omega (arith, top, small))),
                ))
                samples numbers;
          mean = (rw (low_eq, mean_eq) means.0, rw (high_eq, mean_eq) means.1);
        }
