-- ===== src/Scheduler/Tables.antt =====
-- The table of workers as a list: what an assignment and a removal do to it.
use trimon.Base.{
  Fresh, ℕ, ◌≡◌, refl, ap, String, Bool, true, false, ◌||◌, List, [], ◌∷◌, ◌++◌, any, contains,
  Distinct, str_eq, eq_iff, arith, ◌==◌,
}
use trimon.Scheduler.{assign, ids, keys, without}

pub assign-ids :
    (name : String) (id : ℕ) (ws : List (String × ℕ))
    → contains (keys ws) name ≡ false
    → assign name id ws ≡ ws ++ (name, id) ∷ []
unfolding assign
assign-ids name id [] h = refl
assign-ids name id ((k, i) ∷ ws) h =
    let a : str_eq k name ≡ false = ground (arith, eq_iff name k, eq_iff k name, h) in
    let b : contains (keys ws) name ≡ false = ground (arith, h) in
    rw a (ap (λ x. (k, i) ∷ x) (assign-ids name id ws b))

pub without-all :
    (live gone : List ℕ)
    → ((i : ℕ) → any (λ j. j == i) live ≡ true → any (λ j. j == i) gone ≡ true)
    → without live gone ≡ []
unfolding without
without-all [] gone h = refl
without-all (i ∷ live) gone h =
    let own : any (λ j. j == i) gone ≡ true = h i (ground arith) in
    let rest = without-all live gone (λ j e. h j (ground (arith, e))) in rw own rest

pub any-append : (p : ℕ → Bool) (xs ys : List ℕ) → any p (xs ++ ys) ≡ (any p xs || any p ys)
any-append p [] ys = refl
any-append p (x ∷ xs) ys = let h = any-append p xs ys in ground (arith, h)

pub ids-append : (xs ys : List (String × ℕ)) → ids (xs ++ ys) ≡ ids xs ++ ids ys
ids-append [] ys = refl
ids-append (x ∷ xs) ys = ap (◌∷◌ x.1) (ids-append xs ys)

pub keys-append : (xs ys : List (String × ℕ)) → keys (xs ++ ys) ≡ keys xs ++ keys ys
keys-append [] ys = refl
keys-append (x ∷ xs) ys = ap (◌∷◌ x.0) (keys-append xs ys)

pub Distinct-Fresh :
    (taken xs : List String)
    → Distinct xs
    → ((n : String) → contains xs n ≡ true → contains taken n ≡ false)
    → Fresh taken xs
Distinct-Fresh taken [] d h = tt
Distinct-Fresh taken (x ∷ xs) d h = (
  h x (ground (arith, eq_iff x x)),
  Distinct-Fresh (x ∷ taken) xs d.1 (λ n e.
      let a = d.0 in let b = h n (ground (arith, e)) in ground (arith, eq_iff n x, a, b, e)),
)
