-- ===== src/Probe/Targets.antt =====
-- internal/probe/targets.go and `RunWorkItems` of run.go: the items of one run, and the slots of
-- the result slice that the goroutines fill, each its own, in any order.
pub mod Order
pub mod Expand
pub mod Slots
use trimon.Base.{
  ℕ, zero, suc, String, Bool, not, ◌&&◌, Option, none, some, List, [], ◌∷◌, ◌++◌, contains, length,
  str_eq, if◌then◌else◌,
}
use trimon.Base.Int.{ℤ, pos, ltb_ℤ, leb_ℤ}
use trimon.Net.{Host, is_some}

pub record WorkItem : Type 0 where
  pub ip : String
  pub fqdn : String

abbrev pub literal : String → WorkItem
literal entry = record { ip = entry; fqdn = "" }

-- What stands for a name that does not resolve.
abbrev pub unresolved : String → WorkItem
unresolved entry = record { ip = entry; fqdn = entry }

abbrev pub resolved : String → String → WorkItem
resolved entry addr = record { ip = addr; fqdn = entry }

-- The item of a name whose lookup failed.
abbrev pub is_unresolved : WorkItem → Bool
is_unresolved wi = not (str_eq wi.fqdn "") && str_eq wi.ip wi.fqdn

abbrev pub note_seen : List String → String → List String
note_seen seen addr = if contains seen addr then seen else addr ∷ seen

-- `maxResolvedIPs > 0 && len(seen) >= maxResolvedIPs`.
abbrev pub is_full : ℤ → List String → Bool
is_full cap seen = ltb_ℤ (pos 0) cap && leb_ℤ cap (pos (length seen))

-- The loop over the addresses of one name.
unfoldable pub expand_addrs : String → ℤ → List String → List String → List WorkItem
expand_addrs entry cap seen [] = []
expand_addrs entry cap seen (addr ∷ addrs) =
    let seen' = note_seen seen addr in
    let rest = expand_addrs entry cap seen' addrs in
    if contains seen addr
    then rest
    else if is_full cap seen'
    then resolved entry addr ∷ []
    else resolved entry addr ∷ rest

unfoldable pub expand_name : String → ℤ → Option (List String) → List WorkItem
expand_name entry cap none = unresolved entry ∷ []
expand_name entry cap (some []) = unresolved entry ∷ []
expand_name entry cap (some (addr ∷ addrs)) = expand_addrs entry cap [] (addr ∷ addrs)

module _ (host : Host) where
  unfoldable pub expand_entry : ℤ → String → List WorkItem
  expand_entry cap entry =
      if is_some (host.parse_ip entry)
      then literal entry ∷ []
      else expand_name entry cap (host.lookup_host entry)

  unfoldable pub expand_targets : List String → ℤ → List WorkItem
  expand_targets [] cap = []
  expand_targets (entry ∷ entries) cap = expand_entry cap entry ++ expand_targets entries cap

module _ {ℓ} {A : Type ℓ} where
  abbrev pub get_elem? : List A → ℕ → Option A
  get_elem? [] i = none
  get_elem? (x ∷ xs) zero = some x
  get_elem? (x ∷ xs) (suc i) = get_elem? xs i

  abbrev pub set : List A → ℕ → A → List A
  set [] i v = []
  set (x ∷ xs) zero v = v ∷ xs
  set (x ∷ xs) (suc i) v = x ∷ set xs i v

  abbrev pub replicate : ℕ → A → List A
  replicate zero v = []
  replicate (suc n) v = v ∷ replicate n v

module _ {I R : Type 0} (zero_result : R) (probe_one : I → R) where
  -- One goroutine: it probes its item and writes its own slot.
  unfoldable pub complete : List I → List R → ℕ → List R
  complete items results i = elim (get_elem? items i) [
    | none ↦ results
    | some item ↦ set results i (probe_one item)
  ]

  unfoldable pub complete_all : List I → List R → List ℕ → List R
  complete_all items results [] = results
  complete_all items results (i ∷ order) = complete_all items (complete items results i) order

  -- The results after the goroutines have ended, in the given order of their completion.
  unfoldable pub run_items : List I → List ℕ → List R
  unfolding complete_all
  run_items items order = complete_all items (replicate (length items) zero_result) order

-- The items with their slots.
abbrev pub enumerate {ℓ} : {A : Type ℓ} → ℕ → List A → List (ℕ × A)
enumerate i [] = []
enumerate i (x ∷ xs) = (i, x) ∷ enumerate (suc i) xs

module _ (host : Host) {R : Type 0} where
  unfoldable pub run_found : R → (ℕ → WorkItem → R) → List WorkItem → List ℕ → List R
  run_found zero_result probe_one [] order = []
  run_found zero_result probe_one (wi ∷ items) order =
      run_items zero_result (λ (i, w). probe_one i w) (enumerate 0 (wi ∷ items)) order

  -- A goroutine is told its slot, since what it meets is its own.
  unfoldable pub run_work_items : List String → ℤ → R → (ℕ → WorkItem → R) → List ℕ → List R
  unfolding run_found
  run_work_items targets cap zero_result probe_one order =
      run_found zero_result probe_one (expand_targets host targets cap) order
