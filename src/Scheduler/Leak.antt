-- ===== src/Scheduler/Leak.antt =====
-- A goroutine whose entry in the table is overwritten: nothing stops it any more.
use trimon.Base.{
  ℕ, suc, ◌<◌, ◌≡◌, ◌∙◌, refl, ap, String, Bool, true, false, List, [], ◌∷◌, any, contains,
  contains-append, All, Bool-cases, inl, inr, str_eq, eq_iff, arith, ◌==◌,
}
use trimon.Types.{ProbeConfig}
use trimon.Scheduler.{Scheduler, assign, ids, keys, without, stop, start_locked, start, reload}
use trimon.Scheduler.Tables.{keys-append}
use trimon.Scheduler.Reload.{IsTracked, names, start_locked-new, start_locked-IsTracked}

abbrev pub has_id : ℕ → List ℕ → Bool
has_id i is = any (λ j. j == i) is

abbrev DistinctIds : List ℕ → Type 0
DistinctIds [] = Unit
DistinctIds (i ∷ is) = (has_id i is ≡ false) × DistinctIds is

-- The numbers in the table are different, and given out before.
pub record IsNumbered (s : Scheduler) : Type 0 where
  pub below : All (λ i. i < s.next) (ids s.workers)
  pub distinct : DistinctIds (ids s.workers)

-- It runs, and the table does not have it.
pub record IsLeaked (i : ℕ) (s : Scheduler) : Type 0 where
  pub runs : has_id i s.live ≡ true
  pub lost : has_id i (ids s.workers) ≡ false
  pub old : i < s.next

without-keeps :
    (i : ℕ) (live gone : List ℕ)
    → has_id i live ≡ true
    → has_id i gone ≡ false
    → has_id i (without live gone) ≡ true
unfolding without
without-keeps i [] gone h k = cc
without-keeps i (j ∷ live) gone h k = elim (Bool-cases (j == i)) [
  | inl e ↦ let same : j ≡ i = ground (arith, e) in rw same (rw k (ground arith))
  | inr e ↦ let rest = without-keeps i live gone (ground (arith, h, e)) k in ground (arith, rest, e)
]

assign-lost :
    (i : ℕ) (name : String) (id : ℕ) (ws : List (String × ℕ))
    → i < id
    → has_id i (ids ws) ≡ false
    → has_id i (ids (assign name id ws)) ≡ false
unfolding assign
assign-lost i name id [] h k = ground arith
assign-lost i name id ((n, j) ∷ ws) h k =
    let rest = assign-lost i name id ws h (ground (arith, k)) in ground (arith, rest, k)

All-suc : (n : ℕ) (is : List ℕ) → All (λ i. i < n) is → All (λ i. i < suc n) is
All-suc n [] h = tt
All-suc n (i ∷ is) h = (omega (arith, h.0), All-suc n is h.1)

-- A number given out before is not in a table whose numbers are smaller.
next-lost : (n : ℕ) (is : List ℕ) → All (λ i. i < n) is → has_id n is ≡ false
next-lost n [] h = refl
next-lost n (i ∷ is) h = let rest = next-lost n is h.1 in let a = h.0 in ground (arith, rest, a)

assign-below :
    (name : String) (id : ℕ) (ws : List (String × ℕ))
    → All (λ i. i < id) (ids ws)
    → All (λ i. i < suc id) (ids (assign name id ws))
unfolding assign
assign-below name id [] h = (omega arith, tt)
assign-below name id ((n, j) ∷ ws) h = elim (Bool-cases (str_eq n name)) [
  | inl e ↦ rw e (omega arith, All-suc id (ids ws) h.1)
  | inr e ↦ rw e (omega (arith, h.0), assign-below name id ws h.1)
]

assign-distinct :
    (name : String) (id : ℕ) (ws : List (String × ℕ))
    → All (λ i. i < id) (ids ws)
    → DistinctIds (ids ws)
    → DistinctIds (ids (assign name id ws))
unfolding assign
assign-distinct name id [] h d = (refl, tt)
assign-distinct name id ((n, j) ∷ ws) h d = elim (Bool-cases (str_eq n name)) [
  | inl e ↦ rw e (next-lost id (ids ws) h.1, d.1)
  | inr e ↦ rw e (assign-lost j name id ws h.0 d.0, assign-distinct name id ws h.1 d.1)
]

has_id-ne : (i j : ℕ) (is : List ℕ) → has_id i is ≡ true → has_id j is ≡ false → (j == i) ≡ false
has_id-ne i j is h k = elim (Bool-cases (j == i)) [
  | inl e ↦ let same : j ≡ i = ground (arith, e) in let k' = ap (λ x. has_id x is) same in cc
  | inr e ↦ e
]

-- An assignment under a name in the table takes a number out of it.
assign-loses :
    (name : String) (id : ℕ) (ws : List (String × ℕ))
    → contains (keys ws) name ≡ true
    → All (λ i. i < id) (ids ws)
    → DistinctIds (ids ws)
    → (i : ℕ) × (has_id i (ids ws) ≡ true) × (has_id i (ids (assign name id ws)) ≡ false) × (i < id)
unfolding assign
assign-loses name id [] c h d = cc
assign-loses name id ((n, j) ∷ ws) c h d = elim (Bool-cases (str_eq n name)) [
  | inl e ↦ let a = d.0 in let b = h.0 in (j, ground arith, rw e (ground (arith, a, b)), b)
  | inr e ↦
      let (i, m, l, b) =
        assign-loses name id ws (ground (arith, c, e, eq_iff n name, eq_iff name n)) h.1 d.1 in
      let other = has_id-ne i j (ids ws) m d.0 in
      (i, ground (arith, m), rw e (ground (arith, l, other)), b)
]

pub stop-IsLeaked : (i : ℕ) (s : Scheduler) → IsLeaked i s → IsLeaked i (stop s)
unfolding stop
stop-IsLeaked i s l = record {
  runs = without-keeps i s.live (ids s.workers) l.runs l.lost;
  lost = refl;
  old = l.old;
}

module _ (builds : ProbeConfig → Bool) where
  start_locked-IsLeaked :
      (i : ℕ) (s : Scheduler) (cfg : ProbeConfig)
      → IsLeaked i s
      → IsLeaked i (start_locked builds s cfg)
  unfolding start_locked
  start_locked-IsLeaked i s cfg l = elim (Bool-cases (builds cfg)) [
    | inr b ↦ rw b l
    | inl b ↦
        let a = l.runs in
        rw b (record {
          runs = ground (arith, a);
          lost = assign-lost i cfg.name s.next s.workers l.old l.lost;
          old = omega (arith, l.old);
        })
  ]

  start-IsLeaked :
      (i : ℕ) (cfgs : List ProbeConfig) (s : Scheduler)
      → IsLeaked i s
      → IsLeaked i (start builds s cfgs)
  unfolding start
  start-IsLeaked i [] s l = l
  start-IsLeaked i (cfg ∷ cfgs) s l =
      start-IsLeaked i cfgs (start_locked builds s cfg) (start_locked-IsLeaked i s cfg l)

  -- A reload does not end it.
  pub reload-IsLeaked :
      (i : ℕ) (cfgs : List ProbeConfig) (s : Scheduler)
      → IsLeaked i s
      → IsLeaked i (reload builds s cfgs)
  unfolding reload
  reload-IsLeaked i cfgs s l = start-IsLeaked i cfgs (stop s) (stop-IsLeaked i s l)

  start_locked-IsNumbered :
      (s : Scheduler) (cfg : ProbeConfig) → IsNumbered s → IsNumbered (start_locked builds s cfg)
  unfolding start_locked
  start_locked-IsNumbered s cfg n = elim (Bool-cases (builds cfg)) [
    | inr b ↦ rw b n
    | inl b ↦ rw b (record {
      below = assign-below cfg.name s.next s.workers n.below;
      distinct = assign-distinct cfg.name s.next s.workers n.below n.distinct;
    })
  ]

  start-IsNumbered :
      (cfgs : List ProbeConfig) (s : Scheduler) → IsNumbered s → IsNumbered (start builds s cfgs)
  unfolding start
  start-IsNumbered [] s n = n
  start-IsNumbered (cfg ∷ cfgs) s n =
      start-IsNumbered cfgs (start_locked builds s cfg) (start_locked-IsNumbered s cfg n)

  pub reload-IsNumbered :
      (cfgs : List ProbeConfig) (s : Scheduler) → IsNumbered (reload builds s cfgs)
  unfolding reload stop
  reload-IsNumbered cfgs s = start-IsNumbered cfgs (stop s) (record { below = tt; distinct = tt })

  start_locked-leaks :
      (s : Scheduler) (cfg : ProbeConfig)
      → IsNumbered s
      → IsTracked s
      → builds cfg ≡ true
      → contains (keys s.workers) cfg.name ≡ true
      → (i : ℕ) × IsLeaked i (start_locked builds s cfg)
  unfolding start_locked
  start_locked-leaks s cfg n t b c =
      let (i, m, l, o) = assign-loses cfg.name s.next s.workers c n.below n.distinct in
      let r = t.same i ∙ m in
      (i, rw b (record { runs = ground (arith, r); lost = l; old = omega (arith, o) }))

  start_locked-has :
      (s : Scheduler) (cfg : ProbeConfig) (name : String)
      → builds cfg ≡ true
      → contains (keys s.workers) cfg.name ≡ false
      → contains (keys s.workers) name ≡ true
      → contains (keys (start_locked builds s cfg).workers) name ≡ true
  start_locked-has s cfg name b f c =
      ap (λ ws. contains (keys ws) name) (start_locked-new builds s cfg b f)
      ∙ (ap (λ ks. contains ks name) (keys-append s.workers ((cfg.name, s.next) ∷ []))
          ∙ (contains-append (keys s.workers) (cfg.name ∷ []) name ∙ ground (arith, c)))

  -- A start over a table that has one of the names already leaves a goroutine out of the table.
  pub start-leaks :
      (cfgs : List ProbeConfig) (s : Scheduler) (name : String)
      → IsNumbered s
      → IsTracked s
      → All (λ cfg. builds cfg ≡ true) cfgs
      → contains (keys s.workers) name ≡ true
      → contains (names cfgs) name ≡ true
      → (i : ℕ) × IsLeaked i (start builds s cfgs)
  unfolding start
  start-leaks [] s name n t b c h = cc
  start-leaks (cfg ∷ cfgs) s name n t b c h =
      let one = start_locked builds s cfg in
      elim (Bool-cases (contains (keys s.workers) cfg.name)) [
        | inl known ↦
            let (i, l) = start_locked-leaks s cfg n t b.0 known in (i, start-IsLeaked i cfgs one l)
        | inr new ↦
            let other : str_eq name cfg.name ≡ false = elim (Bool-cases (str_eq name cfg.name)) [
              | inl e ↦
                  let same = (eq_iff name cfg.name).0 e in
                  let c' = ap (contains (keys s.workers)) same in cc
              | inr e ↦ e
            ] in
            start-leaks cfgs one name (start_locked-IsNumbered s cfg n)
              (start_locked-IsTracked builds s cfg t new) b.1
              (start_locked-has s cfg name b.0 new c) (ground (arith, h, other))
      ]
