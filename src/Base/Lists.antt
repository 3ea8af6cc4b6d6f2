-- ===== src/Base/Lists.antt =====
-- Lists measured by native numbers, searched by Boolean tests, and predicates over them.
use Prim.Native.Nat.{ℕ, zero, suc, ◌+◌}
use Prim.Native.String.{String}
use mathlib.Core.Path.{◌≡◌, refl}
use mathlib.Core.Bool.{Bool, true, false, ◌||◌}
use mathlib.Core.List.{List, [], ◌∷◌, ◌++◌, map}
use mathlib.Core.Logic.{◌↔◌, ◌⊎◌, inl, inr}
use trimon.Base.Tests.{Bool-cases, if◌then◌else◌}
use native.Mathlib.Omega.{arith}
use text.Mathlib.Text.{◌==◌ as str_eq}
use text.Mathlib.TextEquality.{eq_iff}

module _ {ℓ} {A : Type ℓ} where
  abbrev pub length : List A → ℕ
  length [] = 0
  length (x ∷ xs) = suc (length xs)

  abbrev pub any : (A → Bool) → List A → Bool
  any p [] = false
  any p (x ∷ xs) = p x || any p xs

  abbrev pub take : ℕ → List A → List A
  take zero xs = []
  take (suc n) [] = []
  take (suc n) (x ∷ xs) = x ∷ take n xs

  abbrev pub drop : ℕ → List A → List A
  drop zero xs = xs
  drop (suc n) [] = []
  drop (suc n) (x ∷ xs) = drop n xs

  pub length-append : (xs ys : List A) → length (xs ++ ys) ≡ length xs + length ys
  length-append [] ys = omega arith
  length-append (x ∷ xs) ys = omega (arith, length-append xs ys)

module _ {ℓ κ} {A : Type ℓ} (P : A → Type κ) where
  abbrev pub All : List A → Type κ
  All [] = Unit
  All (x ∷ xs) = P x × All xs

  pub All-append : (xs ys : List A) → All xs → All ys → All (xs ++ ys)
  All-append [] ys h k = k
  All-append (x ∷ xs) ys h k = (h.0, All-append xs ys h.1 k)

module _ {ℓ} {A B : Type ℓ} where
  -- A function that keeps a property keeps it of all.
  pub All-map :
      (P : A → Type 0) (Q : B → Type 0) (f : A → B)
      → ((x : A) → P x → Q (f x))
      → (xs : List A) → All P xs
      → All Q (map f xs)
  All-map P Q f keep [] h = tt
  All-map P Q f keep (x ∷ xs) h = (keep x h.0, All-map P Q f keep xs h.1)

pub All-split {ℓ} :
    {A : Type ℓ} (P : A → Type 0) (xs ys : List A) → All P (xs ++ ys) → All P xs × All P ys
All-split P [] ys h = (tt, h)
All-split P (x ∷ xs) ys h = let (a, b) = All-split P xs ys h.1 in ((h.0, a), b)

-- One of the elements has the property.
module _ {ℓ} {A : Type ℓ} where
  abbrev pub Any : (A → Type 0) → List A → Type 0
  Any P [] = ⊥
  Any P (x ∷ xs) = P x ⊎ Any P xs

  -- A Boolean search finds what the property says.
  pub any-Any :
      (P : A → Type 0) (p : A → Bool)
      → ((x : A) → (p x ≡ true) ↔ P x)
      → (xs : List A) → (any p xs ≡ true) ↔ Any P xs
  any-Any P p h [] = (λ e. let f : false ≡ true = e in cc, λ e. absurd e)
  any-Any P p h (x ∷ xs) =
      let rest = any-Any P p h xs in
      (
        λ e. elim (Bool-cases (p x)) [
          | inl f ↦ inl ((h x).0 f)
          | inr f ↦ inr (rest.0 (let e' : (p x || any p xs) ≡ true = e in ground (arith, f)))
        ],
        λ o. elim o [
          | inl q ↦ let f = (h x).1 q in ground (arith, f)
          | inr q ↦ let f = rest.1 q in ground (arith, f)
        ],
      )

module _ {ℓ κ μ} {A : Type ℓ} (P : A → Type κ) (Q : A → Type μ) where
  pub All-imp : ((x : A) → P x → Q x) → (xs : List A) → All P xs → All Q xs
  All-imp f [] h = tt
  All-imp f (x ∷ xs) h = (f x h.0, All-imp f xs h.1)

-- `m[k]` of a Go map used as a set of texts, kept as the list of its keys.
abbrev pub contains : List String → String → Bool
contains [] k = false
contains (x ∷ xs) k = str_eq k x || contains xs k

-- No text stands twice.
abbrev pub Distinct : List String → Type 0
Distinct [] = Unit {0}
Distinct (x ∷ xs) = (contains xs x ≡ false) × Distinct xs

pub contains-append :
    (xs ys : List String) (k : String) → contains (xs ++ ys) k ≡ (contains xs k || contains ys k)
contains-append [] ys k = refl
contains-append (x ∷ xs) ys k = ground (arith, contains-append xs ys k)

-- Names taken one after the other, each not taken before.
abbrev pub Fresh : List String → List String → Type 0
Fresh taken [] = Unit {0}
Fresh taken (x ∷ xs) = (contains taken x ≡ false) × Fresh (x ∷ taken) xs

-- The names taken, the newest first.
abbrev pub take_names : List String → List String → List String
take_names [] taken = taken
take_names (x ∷ xs) taken = take_names xs (x ∷ taken)

pub Fresh-append :
    (taken xs ys : List String)
    → Fresh taken xs
    → Fresh (take_names xs taken) ys
    → Fresh taken (xs ++ ys)
Fresh-append taken [] ys h k = k
Fresh-append taken (x ∷ xs) ys h k = (h.0, Fresh-append (x ∷ taken) xs ys h.1 k)

pub take_names-append :
    (xs ys taken : List String) → take_names (xs ++ ys) taken ≡ take_names ys (take_names xs taken)
take_names-append [] ys taken = refl
take_names-append (x ∷ xs) ys taken = take_names-append xs ys (x ∷ taken)

not_taken_again :
    (taken xs : List String) (x : String)
    → contains taken x ≡ true
    → Fresh taken xs
    → contains xs x ≡ false
not_taken_again taken [] x h f = refl
not_taken_again taken (y ∷ ys) x h f = ground (arith, eq_iff x y, not_taken_again (y ∷ taken) ys x)

pub Fresh-Distinct : (taken xs : List String) → Fresh taken xs → Distinct xs
Fresh-Distinct taken [] f = tt
Fresh-Distinct taken (x ∷ xs) f = (
  not_taken_again (x ∷ taken) xs x (ground (arith, eq_iff x x)) f.1,
  Fresh-Distinct (x ∷ taken) xs f.1,
)

-- The number of elements that pass a test.
abbrev pub count_if {ℓ} : {A : Type ℓ} → (A → Bool) → List A → ℕ
count_if p [] = 0
count_if p (x ∷ xs) = (if p x then 1 else 0) + count_if p xs

pub count_if-append {ℓ} :
    {A : Type ℓ} (p : A → Bool) (xs ys : List A)
    → count_if p (xs ++ ys) ≡ count_if p xs + count_if p ys
count_if-append p [] ys = omega arith
count_if-append p (x ∷ xs) ys = omega (arith, count_if-append p xs ys)
