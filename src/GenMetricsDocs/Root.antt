-- ===== src/GenMetricsDocs/Root.antt =====
-- The search for go.mod ends, and finds the nearest one.
use trimon.Base.{
  String, ℕ, zero, suc, ◌<◌, ◌≡◌, refl, ◌⊎◌, inl, inr, Bool, true, false, [], ◌∷◌, length, drop, ok,
  err, arith, Bool-cases,
}
use trimon.GenMetricsDocs.{FilePath, path_eq, go_mod_not_found, walk}

path_eq-length : (p q : FilePath) → path_eq p q ≡ true → length p ≡ length q
path_eq-length [] [] h = refl
path_eq-length [] (d ∷ q) h = let f : false ≡ true = h in cc
path_eq-length (d ∷ p) [] h = let f : false ≡ true = h in cc
path_eq-length (d ∷ p) (e ∷ q) h =
    let r = path_eq-length p q (ground (arith, h)) in omega (arith, r)

parent-ne : (d : String) (ds : FilePath) → path_eq ds (d ∷ ds) ≡ false
parent-ne d ds = elim (Bool-cases (path_eq ds (d ∷ ds))) [
  | inl e ↦ let l = path_eq-length ds (d ∷ ds) e in absurd (omega (arith, l))
  | inr e ↦ e
]

module _ (stat : FilePath → Bool) where
  abbrev pub HasGoMod : FilePath → Type 0
  HasGoMod dir = stat ("go.mod" ∷ dir) ≡ true

  abbrev pub NoGoMod : FilePath → Type 0
  NoGoMod dir = stat ("go.mod" ∷ dir) ≡ false

  none_at_root : NoGoMod [] → (j : ℕ) → NoGoMod (drop j [])
  none_at_root e zero = e
  none_at_root e (suc j) = e

  farther :
      (d : String) (ds : FilePath)
      → NoGoMod (d ∷ ds)
      → ((j : ℕ) → NoGoMod (drop j ds))
      → (j : ℕ) → NoGoMod (drop j (d ∷ ds))
  farther d ds e f zero = e
  farther d ds e f (suc j) = f j

  nearer :
      (d : String) (ds : FilePath) (k : ℕ)
      → NoGoMod (d ∷ ds)
      → ((j : ℕ) → j < k → NoGoMod (drop j ds))
      → (j : ℕ) → j < suc k
      → NoGoMod (drop j (d ∷ ds))
  nearer d ds k e f zero h = e
  nearer d ds k e f (suc j) h = f j (omega (arith, h))

  -- The loop of moduleRoot ends for every directory: as many rounds as the path has elements, and one
  -- more, are enough. It gives the nearest directory on the way up that has a go.mod, or the error
  -- that there is none if no directory up to the root has one.
  pub walk-nearest :
      (dir : FilePath) (n : ℕ)
      → length dir < n
      → ((k : ℕ) × (walk stat n dir ≡ ok (drop k dir))
          × HasGoMod (drop k dir)
          × ((j : ℕ) → j < k → NoGoMod (drop j dir)))
        ⊎ ((walk stat n dir ≡ err go_mod_not_found) × ((j : ℕ) → NoGoMod (drop j dir)))
  unfolding walk
  walk-nearest dir zero h = absurd (omega (arith, h))
  walk-nearest [] (suc n) h = elim (Bool-cases (stat ("go.mod" ∷ []))) [
    | inl e ↦ inl (0, rw e refl, e, λ j k. absurd (omega (arith, k)))
    | inr e ↦ inr (rw e refl, λ j. none_at_root e j)
  ]
  walk-nearest (d ∷ ds) (suc n) h = elim (Bool-cases (stat ("go.mod" ∷ d ∷ ds))) [
    | inl e ↦ inl (0, rw e refl, e, λ j k. absurd (omega (arith, k)))
    | inr e ↦ elim (walk-nearest ds n (omega (arith, h))) [
      | inl (k, w, y, f) ↦ inl (suc k, rw (e, parent-ne d ds) w, y, nearer d ds k e f)
      | inr (w, f) ↦ inr (rw (e, parent-ne d ds) w, farther d ds e f)
    ]
  ]
