-- ===== src/Probe/Stats/Bounds.antt =====
-- The extremes of the round-trip times.
use trimon.Base.{
  ◌≡◌, refl, ◌∙◌, ◌⊎◌, inl, inr, List, [], ◌∷◌, Any, All, arith, Bool-cases, if◌then◌else◌,
}
use trimon.Base.Int.{ℤ, ◌≤ℤ◌, ltb_ℤ, wrap64, ◌+ℤ◌}
use trimon.Probe.Stats.{Extremes, extremes_from, extremes}

-- A time between the two extremes.
abbrev pub IsWithin : Extremes → ℤ → Type 0
IsWithin e s = (e.min_rtt ≤ℤ s) × (s ≤ℤ e.max_rtt)

-- One turn of the loop.
abbrev pub turn : Extremes → ℤ → Extremes
turn e s = record {
  min_rtt = if ltb_ℤ s e.min_rtt then s else e.min_rtt;
  max_rtt = if ltb_ℤ e.max_rtt s then s else e.max_rtt;
  sum = wrap64 (e.sum +ℤ s);
}

-- The extremes only move apart, and take in each sample.
extremes_from-IsWithin :
    (e : Extremes) (samples : List ℤ)
    → ((x : ℤ) → IsWithin e x → IsWithin (extremes_from e samples) x)
      × (e.min_rtt ≤ℤ e.max_rtt → All (IsWithin (extremes_from e samples)) samples)
unfolding extremes_from
extremes_from-IsWithin e [] = (λ x h. h, λ h. tt)
extremes_from-IsWithin e (s ∷ samples) =
    let (wide, all) = extremes_from-IsWithin (turn e s) samples in
    (
      λ x h. wide x (let a = h.0 in let b = h.1 in (ground (arith, a, b), ground (arith, a, b))),
      λ h. (wide s (ground (arith, h), ground (arith, h)), all (ground (arith, h))),
    )

-- The extremes are samples, or those from before.
extremes_from-Any :
    (e : Extremes) (samples : List ℤ)
    → let f = extremes_from e samples in
      ((f.min_rtt ≡ e.min_rtt) ⊎ Any (λ s. f.min_rtt ≡ s) samples)
      × ((f.max_rtt ≡ e.max_rtt) ⊎ Any (λ s. f.max_rtt ≡ s) samples)
unfolding extremes_from
extremes_from-Any e [] = (inl refl, inl refl)
extremes_from-Any e (s ∷ samples) =
    let (a, b) = extremes_from-Any (turn e s) samples in
    (
      elim a [
        | inr x ↦ inr (inr x)
        | inl x ↦ elim (Bool-cases (ltb_ℤ s e.min_rtt)) [
          | inl c ↦ inr (inl (x ∙ rw c refl))
          | inr c ↦ inl (x ∙ rw c refl)
        ]
      ],
      elim b [
        | inr x ↦ inr (inr x)
        | inl x ↦ elim (Bool-cases (ltb_ℤ e.max_rtt s)) [
          | inl c ↦ inr (inl (x ∙ rw c refl))
          | inr c ↦ inl (x ∙ rw c refl)
        ]
      ],
    )

-- The minimum and the maximum that `RTTStats` finds are samples, and every sample is between them.
pub extremes-IsWithin :
    (first : ℤ) (rest : List ℤ)
    → let e = extremes first rest in
      All (IsWithin e) (first ∷ rest)
      × Any (λ s. e.min_rtt ≡ s) (first ∷ rest)
      × Any (λ s. e.max_rtt ≡ s) (first ∷ rest)
unfolding extremes
extremes-IsWithin first rest =
    let start : Extremes = record { min_rtt = first; max_rtt = first; sum = ℤ.pos 0 } in
    let (wide, all) = extremes_from-IsWithin start (first ∷ rest) in
    let (a, b) = extremes_from-Any start (first ∷ rest) in
    (all (ground arith), elim a [ inl x ↦ inl x | inr x ↦ x ], elim b [ inl x ↦ inl x | inr x ↦ x ])
