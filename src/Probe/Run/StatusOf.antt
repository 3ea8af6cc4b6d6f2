-- ===== src/Probe/Run/StatusOf.antt =====
-- The status of a loss ratio, in terms of the packets counted.
use trimon.Base.{
  ℕ, ◌≤◌, ◌<◌, ◌≡◌, refl, ap, ◌∙◌, inl, inr, arith, ◌==◌, if◌then◌else◌, Bool-cases, ==_iff,
}
use trimon.Types.{Status, success, partial, failure}
use trimon.Types.Floats.{FloatOps, FloatLaws, of_ℕ, one_minus_ratio, max_exact}
use trimon.Probe.Run.{status_from_loss}

-- No loss is success, no reply is failure, and anything between is partial.
abbrev pub status_of : ℕ → ℕ → Status
status_of received sent =
    if received == sent then success else if received == 0 then failure else partial

module _ {F : Type 0} (fl : FloatOps F) (laws : FloatLaws fl) where
  status_at_zero : status_from_loss fl (of_ℕ fl 0) ≡ success
  unfolding status_from_loss
  status_at_zero = rw (laws.eq_int 0 0 (omega arith) (omega arith)) refl

  status_at_one : status_from_loss fl (of_ℕ fl 1) ≡ failure
  unfolding status_from_loss
  status_at_one =
      rw (laws.eq_int 1 0 (omega arith) (omega arith), laws.le_int 1 1 (omega arith) (omega arith))
        refl

  status_none :
      (s : ℕ) → 0 < s → s ≤ max_exact → status_from_loss fl (one_minus_ratio fl s s) ≡ success
  status_none s h k =
      ap (λ q. status_from_loss fl (fl.sub (of_ℕ fl 1) q)) (laws.div_self s h k)
      ∙ ap (status_from_loss fl) (laws.sub_int 1 1 (omega arith) (omega arith))
      ∙ status_at_zero

  status_all :
      (s : ℕ) → 0 < s → s ≤ max_exact → status_from_loss fl (one_minus_ratio fl 0 s) ≡ failure
  status_all s h k =
      ap (λ q. status_from_loss fl (fl.sub (of_ℕ fl 1) q)) (laws.zero_div s h k)
      ∙ ap (status_from_loss fl) (laws.sub_int 1 0 (omega arith) (omega arith))
      ∙ status_at_one

  status_some :
      (r s : ℕ)
      → 0 < r
      → r < s
      → s ≤ max_exact
      → status_from_loss fl (one_minus_ratio fl r s) ≡ partial
  unfolding status_from_loss
  status_some r s h k b = rw (laws.proper_ne_zero r s h k b, laws.proper_lt_one r s h k b) refl

  pub status_from_loss-status_of :
      (r s : ℕ)
      → 0 < s
      → r ≤ s
      → s ≤ max_exact
      → status_from_loss fl (one_minus_ratio fl r s) ≡ status_of r s
  status_from_loss-status_of r s h k b = elim (Bool-cases (r == s)) [
    | inl e ↦ rw ((==_iff r s).0 e) (status_none s h b ∙ ground arith)
    | inr e ↦ elim (Bool-cases (r == 0)) [
      | inl z ↦ rw ((==_iff r 0).0 z) (status_all s h b ∙ ground arith)
      | inr z ↦ status_some r s (ground arith) (ground arith) b ∙ ground arith
    ]
  ]
