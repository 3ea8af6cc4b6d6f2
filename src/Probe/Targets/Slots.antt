-- ===== src/Probe/Targets/Slots.antt =====
-- internal/probe/run.go: the results of `RunWorkItems`, slot by slot.
use trimon.Base.{
  ℕ, suc, ◌<◌, ◌≡◌, refl, ap, ap₂, sym, subst, String, true, List, [], ◌∷◌, map, any, length, All,
  ◌==◌, arith,
}
use trimon.Base.Int.{ℤ}
use trimon.Net.{Host}
use trimon.Probe.Targets.{WorkItem, enumerate, expand_targets, run_found, run_work_items}
use trimon.Probe.Targets.Order.{run_items-map}

pub length-enumerate : {A : Type 0} (i : ℕ) (xs : List A) → length (enumerate i xs) ≡ length xs
length-enumerate i [] = refl
length-enumerate i (x ∷ xs) = ap suc (length-enumerate (suc i) xs)

module _ {A R : Type 0} (probe_slot : ℕ × A → R) where
  pub map-enumerate :
      {B : Type 0} (f : R → B) (g : A → B)
      → ((i : ℕ) (x : A) → f (probe_slot (i, x)) ≡ g x)
      → (i : ℕ) (xs : List A) → map f (map probe_slot (enumerate i xs)) ≡ map g xs
  map-enumerate f g h i [] = refl
  map-enumerate f g h i (x ∷ xs) = ap₂ (λ y ys. y ∷ ys) (h i x) (map-enumerate f g h (suc i) xs)

  pub map-slots :
      {B : Type 0} (f : R → B) (g : ℕ × A → B)
      → ((i : ℕ) (x : A) → f (probe_slot (i, x)) ≡ g (i, x))
      → (i : ℕ) (xs : List A) → map f (map probe_slot (enumerate i xs)) ≡ map g (enumerate i xs)
  map-slots f g h i [] = refl
  map-slots f g h i (x ∷ xs) = ap₂ (λ y ys. y ∷ ys) (h i x) (map-slots f g h (suc i) xs)

  pub All-enumerate :
      (P : R → Type 0)
      → ((i : ℕ) (x : A) → P (probe_slot (i, x)))
      → (i : ℕ) (xs : List A) → All P (map probe_slot (enumerate i xs))
  All-enumerate P h i [] = tt
  All-enumerate P h i (x ∷ xs) = (h i x, All-enumerate P h (suc i) xs)

-- Each slot's goroutine ends, and no other.
abbrev pub IsComplete : ℕ → List ℕ → Type 0
IsComplete slots order =
    All (λ i. i < slots) order × ((j : ℕ) → j < slots → any (λ i. i == j) order ≡ true)

module _ {R : Type 0} (host : Host) (zero_result : R) (probe_one : ℕ → WorkItem → R)
    (order : List ℕ) where
  run_found-map :
      (items : List WorkItem)
      → IsComplete (length items) order
      → run_found host zero_result probe_one items order
        ≡ map (λ (i, w). probe_one i w) (enumerate 0 items)
  unfolding run_found
  run_found-map [] c = refl
  run_found-map (wi ∷ items) (inside, all) =
      let l = length-enumerate 0 (wi ∷ items) in
      run_items-map zero_result (λ (i, w). probe_one i w) (enumerate 0 (wi ∷ items)) order
        (subst (λ k. All (λ i. i < k) order) (sym l) inside) (λ j h. all j (omega (arith, h, l)))

  -- The results are those of the items, in their order.
  pub run_work_items-map :
      (targets : List String) (cap : ℤ)
      → IsComplete (length (expand_targets host targets cap)) order
      → run_work_items host targets cap zero_result probe_one order
        ≡ map (λ (i, w). probe_one i w) (enumerate 0 (expand_targets host targets cap))
  unfolding run_work_items
  run_work_items-map targets cap c = run_found-map (expand_targets host targets cap) c
