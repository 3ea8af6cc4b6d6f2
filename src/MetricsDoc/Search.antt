-- ===== src/MetricsDoc/Search.antt =====
-- `strings.Index` on bytes, and where a text is found again after the text round it has changed.
use trimon.Base.{
  ℕ, zero, suc, ◌+◌, ◌≤◌, ◌<◌, ◌≡◌, refl, ap, ap₂, ◌∙◌, sym, true, false, ◌&&◌, Option, none, some,
  List, [], ◌∷◌, ◌++◌, length, take, drop, any, ◌==◌, if◌then◌else◌, arith, Bool-cases, inl, inr,
  ◌⊎◌, Option-cases,
}
use trimon.Net.{has_prefix}

abbrev pub shift : ℕ → Option ℕ → Option ℕ
shift n none = none
shift n (some i) = some (n + i)

-- The first place where the pattern stands.
abbrev pub index : List ℕ → List ℕ → Option ℕ
index p [] = if has_prefix [] p then some 0 else none
index p (c ∷ cs) = let rest = shift 1 (index p cs) in if has_prefix (c ∷ cs) p then some 0 else rest

has_prefix-take :
    (n : ℕ) (s p rest : List ℕ)
    → length p ≤ n
    → n ≤ length s
    → has_prefix (take n s ++ rest) p ≡ has_prefix s p
has_prefix-take n s [] rest h k = refl
has_prefix-take zero s (p ∷ ps) rest h k = absurd (omega (arith, h))
has_prefix-take (suc n) [] (p ∷ ps) rest h k = absurd (omega (arith, k))
has_prefix-take (suc n) (c ∷ cs) (p ∷ ps) rest h k =
    ap (λ b. (c == p) && b) (has_prefix-take n cs ps rest (omega (arith, h)) (omega (arith, k)))

has_prefix-length : (s p : List ℕ) → has_prefix s p ≡ true → length p ≤ length s
has_prefix-length s [] h = omega arith
has_prefix-length [] (p ∷ ps) h = let f : false ≡ true = h in cc
has_prefix-length (c ∷ cs) (p ∷ ps) h =
    let r = has_prefix-length cs ps (ground (arith, h)) in omega (arith, r)

-- Where the first place is.
index-cases :
    (p cs : List ℕ) (c i : ℕ)
    → index p (c ∷ cs) ≡ some i
    → ((has_prefix (c ∷ cs) p ≡ true) × (i ≡ 0))
      ⊎ ((has_prefix (c ∷ cs) p ≡ false) × (j : ℕ) × (i ≡ 1 + j) × (index p cs ≡ some j))
index-cases p cs c i h = elim (Bool-cases (has_prefix (c ∷ cs) p)) [
  | inl e ↦ inl (e, ground (arith, h, e))
  | inr e ↦ elim (Option-cases (index p cs)) [
    | inl f ↦ absurd (ground (arith, h, e, f))
    | inr (j, f) ↦ inr (e, j, ground (arith, h, e, f), f)
  ]
]

pub index-length : (p s : List ℕ) (i : ℕ) → index p s ≡ some i → i + length p ≤ length s
index-length [] [] i h = ground (arith, h)
index-length (p ∷ ps) [] i h = absurd (ground (arith, h))
index-length p (c ∷ cs) i h = elim (index-cases p cs c i h) [
  | inl (e, z) ↦ let r = has_prefix-length (c ∷ cs) p e in omega (arith, r, z)
  | inr (e, j, z, f) ↦ let r = index-length p cs j f in omega (arith, r, z)
]

length-take : (n : ℕ) (s : List ℕ) → length (take n s) ≤ n
length-take zero s = omega arith
length-take (suc n) [] = omega arith
length-take (suc n) (c ∷ cs) = let r = length-take n cs in omega (arith, r)

has_prefix_mono : (n : ℕ) (s p : List ℕ) → has_prefix (take n s) p ≡ true → has_prefix s p ≡ true
has_prefix_mono n s [] h = refl
has_prefix_mono zero s (p ∷ ps) h = let f : false ≡ true = h in cc
has_prefix_mono (suc n) [] (p ∷ ps) h = h
has_prefix_mono (suc n) (c ∷ cs) (p ∷ ps) h =
    let r = has_prefix_mono n cs ps in ground (arith, r, h)

not_prefix : (s p : List ℕ) → length s < length p → has_prefix s p ≡ false
not_prefix s p h = elim (Bool-cases (has_prefix s p)) [
  | inl e ↦ let r = has_prefix-length s p e in absurd (omega (arith, r, h))
  | inr e ↦ e
]

index-short : (p s : List ℕ) → length s < length p → index p s ≡ none
index-short p [] h = rw (not_prefix [] p h) refl
index-short p (c ∷ cs) h = rw (not_prefix (c ∷ cs) p h, index-short p cs (omega (arith, h))) refl

has_prefix-append : (s p : List ℕ) → has_prefix s p ≡ true → p ++ drop (length p) s ≡ s
has_prefix-append s [] h = refl
has_prefix-append [] (p ∷ ps) h = let f : false ≡ true = h in cc
has_prefix-append (c ∷ cs) (p ∷ ps) h =
    let same : p ≡ c = ground (arith, h) in
    let r = has_prefix-append cs ps (ground (arith, h)) in ap₂ (λ x xs. x ∷ xs) same r

pub index-at :
    (p s : List ℕ) (i : ℕ) → index p s ≡ some i → (rest : List ℕ) × (drop i s ≡ p ++ rest)
index-at [] [] i h = (drop i [], refl)
index-at (p ∷ ps) [] i h = absurd (ground (arith, h))
index-at p (c ∷ cs) i h = elim (index-cases p cs c i h) [
  | inl (e, z) ↦ (drop (length p) (c ∷ cs), rw z (sym (has_prefix-append (c ∷ cs) p e)))
  | inr (e, j, z, f) ↦
      let (rest, g) = index-at p cs j f in
      let next : i ≡ suc j = omega (arith, z) in (rest, rw next g)
]

-- What follows the place where the pattern stands does not matter.
pub index-take :
    (p s rest : List ℕ) (i n : ℕ)
    → 0 < length p
    → index p s ≡ some i
    → i + length p ≤ n
    → n ≤ length s
    → index p (take n s ++ rest) ≡ some i
index-take p s rest i zero o h k l = absurd (omega (arith, o, k))
index-take p [] rest i (suc n) o h k l = absurd (omega (arith, l))
index-take p (c ∷ cs) rest i (suc n) o h k l = elim (index-cases p cs c i h) [
  | inl (e, z) ↦
      let same = has_prefix-take (suc n) (c ∷ cs) p rest (omega (arith, k)) l in
      rw (same, e) (ap some (sym z))
  | inr (e, j, z, f) ↦
      let same = has_prefix-take (suc n) (c ∷ cs) p rest (omega (arith, k)) l in
      let r = index-take p cs rest j n o f (omega (arith, z, k)) (omega (arith, l)) in
      rw (same, e, r) (ap some (sym z))
]

-- A text that ends before the first place of the pattern ends does not have it.
pub index-take-none :
    (p s : List ℕ) (i n : ℕ)
    → 0 < length p
    → index p s ≡ some i
    → n < i + length p
    → index p (take n s) ≡ none
index-take-none p s i zero o h k = index-short p [] o
index-take-none p [] i (suc n) o h k = index-short p [] o
index-take-none p (c ∷ cs) i (suc n) o h k = elim (index-cases p cs c i h) [
  | inl (e, z) ↦
      index-short p (take (suc n) (c ∷ cs))
        (let l = length-take (suc n) (c ∷ cs) in omega (arith, l, k, z))
  | inr (e, j, z, f) ↦
      let no : has_prefix (take (suc n) (c ∷ cs)) p ≡ false =
        elim (Bool-cases (has_prefix (take (suc n) (c ∷ cs)) p)) [
          | inl y ↦
              let m = has_prefix_mono (suc n) (c ∷ cs) p y in
              absurd (let g : true ≡ false = sym m ∙ e in cc)
          | inr y ↦ y
        ] in
      rw (no, index-take-none p cs j n o f (omega (arith, z, k))) refl
]

pub index-drop :
    (p s : List ℕ) (i j n : ℕ)
    → index p s ≡ some j
    → j ≡ n + i
    → 0 < length p
    → index p (drop n s) ≡ some i
index-drop p s i j zero h e o = h ∙ ap some (omega (arith, e))
index-drop p [] i j (suc n) h e o = let r = index-length p [] j h in absurd (omega (arith, r, o))
index-drop p (c ∷ cs) i j (suc n) h e o = elim (index-cases p cs c j h) [
  | inl (y, z) ↦ absurd (omega (arith, z, e))
  | inr (y, k, z, f) ↦ index-drop p cs i k n f (omega (arith, z, e)) o
]

has_prefix-split :
    (p xs ys : List ℕ) (b : ℕ)
    → any (λ x. x == b) p ≡ false
    → has_prefix (xs ++ b ∷ ys) p ≡ has_prefix xs p
has_prefix-split [] xs ys b h = refl
has_prefix-split (p ∷ ps) [] ys b h = ground (arith, h)
has_prefix-split (p ∷ ps) (x ∷ xs) ys b h =
    ap (λ q. (x == p) && q) (has_prefix-split ps xs ys b (ground (arith, h)))

shift-shift : (m n : ℕ) (o : Option ℕ) → shift m (shift n o) ≡ shift (m + n) o
shift-shift m n none = refl
shift-shift m n (some i) = ap some (omega arith)

shift-none : (n : ℕ) (o : Option ℕ) → shift n o ≡ none → o ≡ none
shift-none n none h = refl
shift-none n (some i) h = cc

-- A pattern without the byte b, after a text without the pattern and a b, stands in what follows.
pub index-split :
    (p xs ys : List ℕ) (b : ℕ)
    → 0 < length p
    → any (λ x. x == b) p ≡ false
    → index p xs ≡ none
    → index p (xs ++ b ∷ ys) ≡ shift (length xs + 1) (index p ys)
index-split p [] ys b o h k = rw (has_prefix-split p [] ys b h, not_prefix [] p o) refl
index-split p (x ∷ xs) ys b o h k =
    let no : has_prefix (x ∷ xs) p ≡ false = ground (arith, k) in
    let rest : index p xs ≡ none = shift-none 1 (index p xs) (ground (arith, k, no)) in
    rw (has_prefix-split p (x ∷ xs) ys b h, no, index-split p xs ys b o h rest)
      (shift-shift 1 (length xs + 1) (index p ys) ∙ ap (λ m. shift m (index p ys)) (omega arith))
