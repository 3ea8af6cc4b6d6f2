-- ===== src/Probe/Targets/Expand.antt =====
-- `ExpandTargets`: what one run probes.
use trimon.Base.{
  ◌||◌, Fresh, Fresh-Distinct, All-imp, ℕ, ◌+◌, ◌<◌, ◌≤◌, String, true, false, ◌≡◌, refl, ◌⊎◌, inl,
  inr, Option, none, some, List, [], ◌∷◌, ◌++◌, map, arith, length, contains, Distinct, All, eq_iff,
  Bool-cases,
}
use trimon.Base.Int.{ℤ, pos, ltb_ℤ}
use trimon.Net.{Host, is_some}
use trimon.Probe.Targets.{
  WorkItem, is_full, expand_addrs, expand_name, expand_entry, expand_targets,
}

-- The addresses of a list of items.
abbrev pub ips : List WorkItem → List String
ips items = map (λ wi. wi.ip) items

expand_addrs-Fresh :
    (entry : String) (cap : ℤ) (seen addrs : List String)
    → Fresh seen (ips (expand_addrs entry cap seen addrs))
unfolding expand_addrs
expand_addrs-Fresh entry cap seen [] = tt
expand_addrs-Fresh entry cap seen (addr ∷ addrs) = elim (Bool-cases (contains seen addr)) [
  | inl e ↦ rw e (expand_addrs-Fresh entry cap seen addrs)
  | inr e ↦ rw e (elim (Bool-cases (is_full cap (addr ∷ seen))) [
    | inl f ↦ rw f (e, tt)
    | inr f ↦ rw f (e, expand_addrs-Fresh entry cap (addr ∷ seen) addrs)
  ])
]

-- An item of a name that answered: the name as FQDN, and an address of the answer.
abbrev pub IsAnswer : String → List String → WorkItem → Type 0
IsAnswer entry addrs wi = (wi.fqdn ≡ entry) × (contains addrs wi.ip ≡ true)

IsAnswer-widen :
    (entry addr : String) (addrs : List String) (items : List WorkItem)
    → All (IsAnswer entry addrs) items
    → All (IsAnswer entry (addr ∷ addrs)) items
IsAnswer-widen entry addr addrs items h =
    All-imp (IsAnswer entry addrs) (IsAnswer entry (addr ∷ addrs))
      (λ wi k. (k.0, let l = k.1 in ground (arith, l))) items h

expand_addrs-IsAnswer :
    (entry : String) (cap : ℤ) (seen addrs : List String)
    → All (IsAnswer entry addrs) (expand_addrs entry cap seen addrs)
unfolding expand_addrs
expand_addrs-IsAnswer entry cap seen [] = tt
expand_addrs-IsAnswer entry cap seen (addr ∷ addrs) =
    let own : contains (addr ∷ addrs) addr ≡ true = ground (arith, eq_iff addr addr) in
    let rest : (s : List String)
        → All (IsAnswer entry (addr ∷ addrs)) (expand_addrs entry cap s addrs) =
      λ s.
        IsAnswer-widen entry addr addrs (expand_addrs entry cap s addrs)
          (expand_addrs-IsAnswer entry cap s addrs) in
    elim (Bool-cases (contains seen addr)) [
      | inl e ↦ rw e (rest seen)
      | inr e ↦ rw e (elim (Bool-cases (is_full cap (addr ∷ seen))) [
        | inl f ↦ rw f ((refl, own), tt)
        | inr f ↦ rw f ((refl, own), rest (addr ∷ seen))
      ])
    ]

expand_addrs-cap :
    (entry : String) (n : ℕ) (seen addrs : List String)
    → length seen < n
    → length seen + length (expand_addrs entry (pos n) seen addrs) ≤ n
unfolding expand_addrs
expand_addrs-cap entry n seen [] h = omega (arith, h)
expand_addrs-cap entry n seen (addr ∷ addrs) h =
    let a = expand_addrs-cap entry n seen addrs h in
    let b = expand_addrs-cap entry n (addr ∷ seen) addrs in ground arith

-- Without a cap every address of the answer is probed.
expand_addrs-all :
    (entry : String) (cap : ℤ) (seen addrs : List String) (a : String)
    → ltb_ℤ (pos 0) cap ≡ false
    → contains addrs a ≡ true
    → (contains seen a || contains (ips (expand_addrs entry cap seen addrs)) a) ≡ true
unfolding expand_addrs
expand_addrs-all entry cap seen [] a h k = cc
expand_addrs-all entry cap seen (addr ∷ addrs) a h k =
    let p = expand_addrs-all entry cap seen addrs a h in
    let q = expand_addrs-all entry cap (addr ∷ seen) addrs a h in ground (arith, eq_iff a addr)

expand_addrs-some :
    (entry : String) (cap : ℤ) (addr : String) (addrs : List String)
    → 0 < length (expand_addrs entry cap [] (addr ∷ addrs))
unfolding expand_addrs
expand_addrs-some entry cap addr addrs = ground arith

-- The items of one name, for its answer.
pub record Expansion (entry : String) (cap : ℤ) (addrs : List String) (items : List WorkItem)
    : Type 0 where
  pub never_dropped : 0 < length items
  pub distinct : Distinct (ips items)
  pub of_answer : All (IsAnswer entry addrs) items
  pub capped : (n : ℕ) → cap ≡ pos n → 0 < n → length items ≤ n
  pub all :
      (a : String)
      → ltb_ℤ (pos 0) cap ≡ false
      → contains addrs a ≡ true
      → contains (ips items) a ≡ true

-- A name that resolves to at least one address gives at least one item; the items have different
-- addresses, each of the answer; with a positive cap there are at most so many, and without one
-- every address of the answer has its item.
pub expand_name-Expansion :
    (entry : String) (cap : ℤ) (addr : String) (addrs : List String)
    → Expansion entry cap (addr ∷ addrs) (expand_name entry cap (some (addr ∷ addrs)))
unfolding expand_name
expand_name-Expansion entry cap addr addrs = record {
  never_dropped = expand_addrs-some entry cap addr addrs;
  distinct = Fresh-Distinct [] _ (expand_addrs-Fresh entry cap [] (addr ∷ addrs));
  of_answer = expand_addrs-IsAnswer entry cap [] (addr ∷ addrs);
  capped = λ n e h. rw e (let c = expand_addrs-cap entry n [] (addr ∷ addrs) h in omega (arith, c));
  all = λ a h k. expand_addrs-all entry cap [] (addr ∷ addrs) a h k;
}

abbrev pub fqdns : List WorkItem → List String
fqdns items = map (λ wi. wi.fqdn) items

-- An entry has an item, as its address or as its name.
abbrev pub IsCovered : List WorkItem → String → Type 0
IsCovered items entry = (contains (ips items) entry || contains (fqdns items) entry) ≡ true

IsCovered-append :
    (xs ys : List WorkItem) (entry : String)
    → IsCovered xs entry ⊎ IsCovered ys entry
    → IsCovered (xs ++ ys) entry
IsCovered-append [] ys entry (inl h) = let f : false ≡ true = h in cc
IsCovered-append [] ys entry (inr h) = h
IsCovered-append (x ∷ xs) ys entry h = let k = IsCovered-append xs ys entry in ground (arith, h)

answer-IsCovered :
    (entry : String) (addrs : List String) (items : List WorkItem)
    → 0 < length items
    → All (IsAnswer entry addrs) items
    → IsCovered items entry
answer-IsCovered entry addrs [] h k = absurd (omega (arith, h))
answer-IsCovered entry addrs (x ∷ xs) h k = let e = k.0.0 in ground (arith, e, eq_iff entry x.fqdn)

expand_name-IsCovered :
    (entry : String) (cap : ℤ) (answer : Option (List String))
    → IsCovered (expand_name entry cap answer) entry
unfolding expand_name
expand_name-IsCovered entry cap none = ground (arith, eq_iff entry entry)
expand_name-IsCovered entry cap (some []) = ground (arith, eq_iff entry entry)
expand_name-IsCovered entry cap (some (addr ∷ addrs)) =
    let e = expand_name-Expansion entry cap addr addrs in
    answer-IsCovered entry (addr ∷ addrs) _ e.never_dropped e.of_answer

module _ (host : Host) (cap : ℤ) where
  expand_entry-IsCovered : (entry : String) → IsCovered (expand_entry host cap entry) entry
  unfolding expand_entry
  expand_entry-IsCovered entry = elim (Bool-cases (is_some (host.parse_ip entry))) [
    | inl e ↦ rw e (ground (arith, eq_iff entry entry))
    | inr e ↦ rw e (expand_name-IsCovered entry cap (host.lookup_host entry))
  ]

  -- Every entry of a probe has an item, as address or as name, whatever its lookup answers, so that
  -- no target is silently left out of a run.
  pub expand_targets-IsCovered :
      (entries : List String) → All (IsCovered (expand_targets host entries cap)) entries
  unfolding expand_targets
  expand_targets-IsCovered [] = tt
  expand_targets-IsCovered (entry ∷ entries) =
      let own = expand_entry host cap entry in
      let others = expand_targets host entries cap in
      (
        IsCovered-append own others entry (inl (expand_entry-IsCovered entry)),
        All-imp (IsCovered others) (IsCovered (own ++ others))
            (λ e h. IsCovered-append own others e (inr h)) entries
            (expand_targets-IsCovered entries),
      )
