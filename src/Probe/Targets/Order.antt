-- ===== src/Probe/Targets/Order.antt =====
-- `RunWorkItems`: the goroutines may end in any order.
use trimon.Base.{
  ==_iff, ℕ, zero, suc, ◌<◌, ◌≡◌, ◌≢◌, refl, sym, ap, ◌∙◌, ◌⊎◌, inl, inr, some, List, [], ◌∷◌, ◌==◌,
  All, any, true, false, ◌||◌, Bool-cases, map, arith, length,
}
use native.Mathlib.Decide.{ℕ_discrete}
use trimon.Probe.Targets.{get_elem?, set, replicate, complete, complete_all, run_items}

module _ {A : Type 0} where
  set_self :
      (xs : List A) (i : ℕ) (v w : A) → get_elem? xs i ≡ some w → get_elem? (set xs i v) i ≡ some v
  set_self [] i v w h = cc
  set_self (x ∷ xs) zero v w h = refl
  set_self (x ∷ xs) (suc i) v w h = set_self xs i v w h

  set_other : (xs : List A) (i j : ℕ) (v : A) → i ≢ j → get_elem? (set xs i v) j ≡ get_elem? xs j
  set_other [] i j v h = refl
  set_other (x ∷ xs) zero zero v h = absurd (h refl)
  set_other (x ∷ xs) zero (suc j) v h = refl
  set_other (x ∷ xs) (suc i) zero v h = refl
  set_other (x ∷ xs) (suc i) (suc j) v h = set_other xs i j v (λ e. h (ap suc e))

  length-set : (xs : List A) (i : ℕ) (v : A) → length (set xs i v) ≡ length xs
  length-set [] i v = refl
  length-set (x ∷ xs) zero v = refl
  length-set (x ∷ xs) (suc i) v = ap suc (length-set xs i v)

  length-replicate : (n : ℕ) (v : A) → length (replicate n v) ≡ n
  length-replicate zero v = refl
  length-replicate (suc n) v = ap suc (length-replicate n v)

  get_elem?-in : (xs : List A) (i : ℕ) → i < length xs → (w : A) × (get_elem? xs i ≡ some w)
  get_elem?-in [] i h = absurd (omega (arith, h))
  get_elem?-in (x ∷ xs) zero h = (x, refl)
  get_elem?-in (x ∷ xs) (suc i) h = get_elem?-in xs i (omega (arith, h))

  get_elem?-ext :
      (xs ys : List A)
      → length xs ≡ length ys
      → ((i : ℕ) → i < length xs → get_elem? xs i ≡ get_elem? ys i)
      → xs ≡ ys
  get_elem?-ext [] [] e h = refl
  get_elem?-ext [] (y ∷ ys) e h = absurd (omega (arith, e))
  get_elem?-ext (x ∷ xs) [] e h = absurd (omega (arith, e))
  get_elem?-ext (x ∷ xs) (y ∷ ys) e h =
      let p : some x ≡ some y = h 0 (omega arith) in
      let q = get_elem?-ext xs ys (omega (arith, e)) (λ i k. h (suc i) (omega (arith, k))) in cc

module _ {I R : Type 0} (zero_result : R) (probe_one : I → R) (items : List I) where
  -- Slot i holds the result of item i.
  abbrev IsDone : ℕ → List R → Type 0
  IsDone i rs = (w : I) → get_elem? items i ≡ some w → get_elem? rs i ≡ some (probe_one w)

  complete-some :
      (rs : List R) (i : ℕ) (w : I)
      → get_elem? items i ≡ some w
      → complete zero_result probe_one items rs i ≡ set rs i (probe_one w)
  unfolding complete
  complete-some rs i w h = rw (h, complete) refl

  -- A goroutine fills its own slot, and leaves the others.
  complete-IsDone :
      (rs : List R) (i j : ℕ)
      → length rs ≡ length items
      → i < length items
      → ((i == j) ≡ true) ⊎ IsDone j rs
      → IsDone j (complete zero_result probe_one items rs i)
  complete-IsDone rs i j e h done w k =
      let (v, q) = get_elem?-in items i h in
      let (old, r) = get_elem?-in rs i (omega (arith, e, h)) in
      rw (complete-some rs i v q) (elim (ℕ_discrete i j) [
        | yes p ↦
            let own : get_elem? (set rs i (probe_one v)) i ≡ some (probe_one v) =
              set_self rs i (probe_one v) old r in
            let same : some v ≡ some w = cc in cc
        | no p ↦
            set_other rs i j (probe_one v) p
            ∙ elim done [ inl l ↦ absurd (p (let f = ==_iff i j in f.0 l)) | inr d ↦ d w k ]
      ])

  length-complete :
      (rs : List R) (i : ℕ)
      → length rs ≡ length items
      → i < length items
      → length (complete zero_result probe_one items rs i) ≡ length items
  length-complete rs i e h =
      let (v, q) = get_elem?-in items i h in
      ap length (complete-some rs i v q) ∙ (length-set rs i (probe_one v) ∙ e)

  length-complete_all :
      (rs : List R) (order : List ℕ)
      → length rs ≡ length items
      → All (λ i. i < length items) order
      → length (complete_all zero_result probe_one items rs order) ≡ length items
  unfolding complete_all
  length-complete_all rs [] e h = e
  length-complete_all rs (i ∷ order) e h =
      length-complete_all (complete zero_result probe_one items rs i) order
        (length-complete rs i e h.0) h.1

  complete_all-IsDone :
      (rs : List R) (order : List ℕ) (j : ℕ)
      → length rs ≡ length items
      → All (λ i. i < length items) order
      → (any (λ i. i == j) order ≡ true) ⊎ IsDone j rs
      → IsDone j (complete_all zero_result probe_one items rs order)
  unfolding complete_all
  complete_all-IsDone rs [] j e h done = elim done [
    | inl l ↦ let f : false ≡ true = l in absurd (let g : ¬ (false ≡ true) = λ x. cc in g f)
    | inr d ↦ d
  ]
  complete_all-IsDone rs (i ∷ order) j e h done =
      let len = length-complete rs i e h.0 in
      complete_all-IsDone (complete zero_result probe_one items rs i) order j len h.1
        (elim (Bool-cases (any (λ k. k == j) order)) [
          | inl later ↦ inl later
          | inr never ↦ inr (
              complete-IsDone rs i j e h.0 (elim done [
                | inl l ↦
                    inl (let t : ((i == j) || any (λ k. k == j) order) ≡ true = l in ground arith)
                | inr d ↦ inr d
              ]))
        ])

get_elem?-map :
    {A B : Type 0} (f : A → B) (xs : List A) (i : ℕ) (w : A)
    → get_elem? xs i ≡ some w
    → get_elem? (map f xs) i ≡ some (f w)
get_elem?-map f [] i w h = cc
get_elem?-map f (x ∷ xs) zero w h = let e : some x ≡ some w = h in cc
get_elem?-map f (x ∷ xs) (suc i) w h = get_elem?-map f xs i w h

length-map : {A B : Type 0} (f : A → B) (xs : List A) → length (map f xs) ≡ length xs
length-map f [] = refl
length-map f (x ∷ xs) = ap suc (length-map f xs)

-- In whatever order the goroutines of a run end, provided that each ends, the results are those of
-- the items in their own order, and no slot is lost or overwritten by another's.
pub run_items-map :
    {I R : Type 0} (zero_result : R) (probe_one : I → R) (items : List I) (order : List ℕ)
    → All (λ i. i < length items) order
    → ((j : ℕ) → j < length items → any (λ i. i == j) order ≡ true)
    → run_items zero_result probe_one items order ≡ map probe_one items
unfolding run_items
run_items-map zero_result probe_one items order h all =
    let rs = replicate (length items) zero_result in
    let len = length-replicate (length items) zero_result in
    let out = complete_all zero_result probe_one items rs order in
    let e : length out ≡ length (map probe_one items) =
      length-complete_all zero_result probe_one items rs order len h
      ∙ sym (length-map probe_one items) in
    get_elem?-ext out (map probe_one items) e (λ i k.
      let m : i < length items = omega (arith, k, e, length-map probe_one items) in
      let (w, q) = get_elem?-in items i m in
      (complete_all-IsDone zero_result probe_one items rs order i len h (inl (all i m))) w q
      ∙ sym (get_elem?-map probe_one items i w q))
