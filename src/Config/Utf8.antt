-- ===== src/Config/Utf8.antt =====
-- The bytes of a Go string, which are the UTF-8 of its characters, and that they determine it.
use Prim.Native.Char.{code}
use text.Mathlib.TextEquality.{Char-path}
use trimon.Base.{
  ℕ, ◌+◌, ◌-◌, ◌*◌, ◌/◌, ◌%◌, String, ltb, ◌≡◌, ◌≢◌, sym, ap, ap₂, ◌∙◌, refl, inl, inr, List, [],
  ◌∷◌, ◌++◌, Bool-cases, true, false, arith, if◌then◌else◌,
}

-- The bytes of one character, by its code point.
unfoldable pub rune : ℕ → List ℕ
rune c =
    if ltb c 128
    then c ∷ []
    else if ltb c 2048
    then (192 + c / 64) ∷ (128 + c % 64) ∷ []
    else if ltb c 65536
    then (224 + c / 4096) ∷ (128 + (c / 64) % 64) ∷ (128 + c % 64) ∷ []
    else (240 + c / 262144) ∷ (128 + (c / 4096) % 64) ∷ (128 + (c / 64) % 64) ∷ (128 + c % 64) ∷ []

unfoldable pub bytes : String → List ℕ
bytes String.[] = []
bytes (String.◌∷◌ c s) = rune (code c) ++ bytes s

abbrev first : List ℕ → ℕ
first [] = 0
first (x ∷ xs) = x

abbrev rest : List ℕ → List ℕ
rest [] = []
rest (x ∷ xs) = xs

-- What a byte after the first stands for.
abbrev next : List ℕ → ℕ
next xs = first xs - 128

-- The character that begins a list of bytes, and the bytes behind it.
abbrev read : List ℕ → ℕ × List ℕ
read xs =
    if ltb (first xs) 128
    then (first xs, rest xs)
    else if ltb (first xs) 224
    then ((first xs - 192) * 64 + next (rest xs), rest (rest xs))
    else if ltb (first xs) 240
    then (
      (first xs - 224) * 4096 + next (rest xs) * 64 + next (rest (rest xs)),
      rest (rest (rest xs)),
    )
    else (
      (first xs - 240) * 262144
          + next (rest xs) * 4096
          + next (rest (rest xs)) * 64
          + next (rest (rest (rest xs))),
      rest (rest (rest (rest xs))),
    )

read-rune : (c : ℕ) (xs : List ℕ) → read (rune c ++ xs) ≡ (c, xs)
unfolding rune
read-rune c xs = elim (Bool-cases (ltb c 128)) [
  | inl e ↦ rw (e, e) refl
  | inr e ↦ elim (Bool-cases (ltb c 2048)) [
    | inl f ↦
        let g : ltb (192 + c / 64) 128 ≡ false = ground arith in
        let h : ltb (192 + c / 64) 224 ≡ true = ground arith in
        let v : (192 + c / 64 - 192) * 64 + (128 + c % 64 - 128) ≡ c = omega arith in
        rw (e, f, g, h) (ap (λ n. (n, xs)) v)
    | inr f ↦ elim (Bool-cases (ltb c 65536)) [
      | inl k ↦
          let g : ltb (224 + c / 4096) 128 ≡ false = ground arith in
          let h : ltb (224 + c / 4096) 224 ≡ false = ground arith in
          let i : ltb (224 + c / 4096) 240 ≡ true = ground arith in
          let v : (224 + c / 4096 - 224) * 4096
                + (128 + (c / 64) % 64 - 128) * 64
                + (128 + c % 64 - 128)
              ≡ c =
            omega arith in
          rw (e, f, k, g, h, i) (ap (λ n. (n, xs)) v)
      | inr k ↦
          let g : ltb (240 + c / 262144) 128 ≡ false = ground arith in
          let h : ltb (240 + c / 262144) 224 ≡ false = ground arith in
          let i : ltb (240 + c / 262144) 240 ≡ false = ground arith in
          let v : (240 + c / 262144 - 240) * 262144
                + (128 + (c / 4096) % 64 - 128) * 4096
                + (128 + (c / 64) % 64 - 128) * 64
                + (128 + c % 64 - 128)
              ≡ c =
            omega arith in
          rw (e, f, k, g, h, i) (ap (λ n. (n, xs)) v)
    ]
  ]
]

rune-append-ne-nil : (c : ℕ) (xs : List ℕ) → rune c ++ xs ≢ []
unfolding rune
rune-append-ne-nil c xs e = ground (arith, e)

-- Two strings with the same bytes are equal.
pub bytes-injective : (s t : String) → bytes s ≡ bytes t → s ≡ t
unfolding bytes
bytes-injective String.[] String.[] h = refl
bytes-injective String.[] (String.◌∷◌ d t) h =
    absurd (rune-append-ne-nil (code d) (bytes t) (sym h))
bytes-injective (String.◌∷◌ c s) String.[] h = absurd (rune-append-ne-nil (code c) (bytes s) h)
bytes-injective (String.◌∷◌ c s) (String.◌∷◌ d t) h =
    let e : (code c, bytes s) ≡ (code d, bytes t) =
      sym (read-rune (code c) (bytes s)) ∙ ap read h ∙ read-rune (code d) (bytes t) in
    ap₂ String.◌∷◌ (Char-path c d (ap (λ p. p.0) e)) (bytes-injective s t (ap (λ p. p.1) e))
