-- ===== src/Base/Results.antt =====
-- A Go result pair `(T, error)`: the value, or the error that is not nil.
use mathlib.Core.Path.{◌≡◌, refl, ap}
use mathlib.Core.Logic.{◌⊎◌, inl, inr}
use trimon.Base.Lists.{All}
use mathlib.Core.Bool.{Bool, true, false}
use mathlib.Core.List.{List, [], ◌∷◌}

pub data Result {ℓ} (E : Type 0) (A : Type ℓ) : Type ℓ where
  ok : A → Result E A
  err : E → Result E A

-- The error of the first call is the error of the whole.
infixl 5 ◌>>=◌
abbrev pub ◌>>=◌ {ℓ κ} :
    {E : Type 0} {V : Type ℓ} {W : Type κ} → Result E V → (V → Result E W) → Result E W
ok v >>= next = next v
err failure >>= next = err failure

infixl 5 ◌>>◌
abbrev pub ◌>>◌ {ℓ} : {E : Type 0} {W : Type ℓ} → Result E (Unit {0}) → Result E W → Result E W
check >> rest = check >>= λ _. rest

-- `if bad { return err }`.
abbrev pub refuse_if : {E : Type 0} → Bool → E → Result E (Unit {0})
refuse_if true e = err e
refuse_if false e = ok tt

-- `fmt.Errorf("...: %w", err)` round the error of a call.
abbrev pub wrap_err {ℓ} : {E F : Type 0} {A : Type ℓ} → (E → F) → Result E A → Result F A
wrap_err f (ok a) = ok a
wrap_err f (err e) = err (f e)

-- A loop whose body may return an error.
abbrev pub for_each {ℓ} :
    {E : Type 0} {A : Type ℓ} → (A → Result E (Unit {0})) → List A → Result E (Unit {0})
for_each f [] = ok tt
for_each f (x ∷ xs) = f x >> for_each f xs

-- Where a chain of calls succeeds, so does its first.
pub >>=-eq-ok {ℓ κ} :
    {E : Type 0} {V : Type ℓ} {W : Type κ} (call : Result E V) (next : V → Result E W) {w : W}
    → (call >>= next) ≡ ok w
    → (v : V) × (call ≡ ok v) × (next v ≡ ok w)
>>=-eq-ok (ok v) next e = (v, refl, e)
>>=-eq-ok (err failure) next e = cc

-- The error of a chain is that of its first call or of the rest.
pub >>=-eq-err {ℓ κ} :
    {E : Type 0} {V : Type ℓ} {W : Type κ} (call : Result E V) (next : V → Result E W) {e : E}
    → (call >>= next) ≡ err e
    → (call ≡ err e) ⊎ ((v : V) × (call ≡ ok v) × (next v ≡ err e))
>>=-eq-err (ok v) next h = inr (v, refl, h)
>>=-eq-err (err failure) next h = inl cc

pub >>=-ok {ℓ κ} :
    {E : Type 0} {V : Type ℓ} {W : Type κ} (call : Result E V) (next : V → Result E W) {v : V}
    → call ≡ ok v
    → (call >>= next) ≡ next v
>>=-ok call next e = ap (λ m. m >>= next) e

module _ {ℓ} {E F : Type 0} {A : Type ℓ} where
  pub wrap_err-eq-ok : (f : E → F) (m : Result E A) {a : A} → wrap_err f m ≡ ok a → m ≡ ok a
  wrap_err-eq-ok f (ok a) h = cc
  wrap_err-eq-ok f (err e) h = cc

pub Result-cases {ℓ} :
    {E : Type 0} {A : Type ℓ} (r : Result E A) → ((a : A) × (r ≡ ok a)) ⊎ ((e : E) × (r ≡ err e))
Result-cases (ok a) = inl (a, refl)
Result-cases (err e) = inr (e, refl)

-- A loop ends without error exactly if its body does at every element.
module _ {ℓ} {E : Type 0} {A : Type ℓ} where
  pub for_each-All :
      (f : A → Result E (Unit {0})) (xs : List A)
      → for_each f xs ≡ ok tt
      → All (λ x. f x ≡ ok tt) xs
  for_each-All f [] h = tt
  for_each-All f (x ∷ xs) h =
      let (u, e, rest) = >>=-eq-ok (f x) (λ _. for_each f xs) h in (e, for_each-All f xs rest)
