-- ===== src/Config/Load/Fingerprint.antt =====
-- What the SHA-256 of the probe configuration covers.
use trimon.Base.{ℕ, ◌≡◌, refl, sym, ◌≢◌, List, [], ◌∷◌, ◌++◌, arith, All}
use trimon.Config.Schema.{ProbeSource}
use trimon.Config.Utf8.{bytes, bytes-injective}
use trimon.Config.Load.{preimage}

-- No byte is the separator.
abbrev pub NoNul : List ℕ → Type 0
NoNul = All λ c. c ≢ 0

split_at_nul :
    (xs ys us vs : List ℕ)
    → NoNul xs
    → NoNul ys
    → xs ++ 0 ∷ us ≡ ys ++ 0 ∷ vs
    → (xs ≡ ys) × (us ≡ vs)
split_at_nul [] [] us vs h k e = (refl, ground arith)
split_at_nul [] (y ∷ ys) us vs h k e = absurd (ground arith)
split_at_nul (x ∷ xs) [] us vs h k e = absurd (ground arith)
split_at_nul (x ∷ xs) (y ∷ ys) us vs h k e =
    let (p, q) = split_at_nul xs ys us vs h.1 k.1 (ground arith) in (ground arith, q)

-- A file name and a YAML document hold no NUL.
abbrev pub IsText : ProbeSource → Type 0
IsText s = NoNul (bytes s.name) × NoNul s.content

append-cons-ne-nil : (xs us : List ℕ) → xs ++ 0 ∷ us ≢ []
append-cons-ne-nil [] us e = cc
append-cons-ne-nil (x ∷ xs) us e = cc

preimage-ne-nil : (s : ProbeSource) (ss : List ProbeSource) → preimage (s ∷ ss) ≢ []
unfolding preimage
preimage-ne-nil s ss e = append-cons-ne-nil (bytes s.name) (s.content ++ 0 ∷ preimage ss) e

-- Two sets of files with the same hash input are the same files: as long as no name and no content
-- holds a NUL byte, adding, removing, renaming or editing a file changes what is hashed.
pub preimage-injective :
    (ss ts : List ProbeSource) → All IsText ss → All IsText ts → preimage ss ≡ preimage ts → ss ≡ ts
unfolding preimage
preimage-injective [] [] h k e = refl
preimage-injective [] (t ∷ ts) h k e = absurd (preimage-ne-nil t ts (sym e))
preimage-injective (s ∷ ss) [] h k e = absurd (preimage-ne-nil s ss e)
preimage-injective (s ∷ ss) (t ∷ ts) h k e =
    let (name, rest) =
      split_at_nul (bytes s.name) (bytes t.name) (s.content ++ 0 ∷ preimage ss)
        (t.content ++ 0 ∷ preimage ts) h.0.0 k.0.0 e in
    let (content, more) =
      split_at_nul s.content t.content (preimage ss) (preimage ts) h.0.1 k.0.1 rest in
    ground (arith, bytes-injective s.name t.name name, preimage-injective ss ts h.1 k.1 more)
