-- ===== src/MetricsDoc/Splice.antt =====
-- Splicing twice: the generator writes the file that it reads.
use mathlib.Core.List.{append_assoc}
use trimon.Base.{
  ℕ, zero, suc, ◌+◌, ◌-◌, ◌≤◌, ◌≡◌, refl, ap, ap₂, ◌∙◌, sym, false, none, some, List, [], ◌∷◌, ◌++◌,
  length, take, drop, ltb, arith, Bool-cases, inl, inr, Option-cases, length-append, ok,
}
use trimon.MetricsDoc.Search.{
  shift, index, index-at, index-length, index-take, index-take-none, index-drop, index-split,
}
use trimon.MetricsDoc.{begin_marker, end_marker, splice}

-- Where the markers of a document stand: the end marker after the whole begin marker.
record Marked (doc : List ℕ) (bi ei : ℕ) : Type 0 where
  begin_at : index begin_marker doc ≡ some bi
  end_at : index end_marker doc ≡ some ei
  apart : bi + length begin_marker ≤ ei

end_after_begin :
    (rest : List ℕ) (n : ℕ)
    → index end_marker (begin_marker ++ rest) ≡ some n
    → length begin_marker ≤ n
end_after_begin rest n h = elim (Option-cases (index end_marker rest)) [
  | inl e ↦ absurd (let g = rw e at h in cc)
  | inr (k, e) ↦ let g = rw e at h in ground (arith, g)
]

apart_by :
    (doc : List ℕ) (bi ei : ℕ)
    → index begin_marker doc ≡ some bi
    → index end_marker doc ≡ some ei
    → ltb ei bi ≡ false
    → bi + length begin_marker ≤ ei
apart_by doc bi ei e f g =
    let le : bi ≤ ei = ground (arith, g) in
    let (rest, r) = index-at begin_marker doc bi e in
    let here = index-drop end_marker doc (ei - bi) ei bi f (omega (arith, le)) (omega arith) in
    let n = end_after_begin rest (ei - bi) (ap (index end_marker) (sym r) ∙ here) in
    omega (arith, n, le)

splice-Marked :
    (doc table out : List ℕ)
    → splice doc table ≡ ok out
    → (bi : ℕ) × (ei : ℕ) × Marked doc bi ei
      × (take (bi + length begin_marker) doc ++ b'\n' ∷ (table ++ drop ei doc) ≡ out)
unfolding splice
splice-Marked doc table out h = elim (Option-cases (index begin_marker doc)) [
  | inl e ↦ absurd (ground (arith, h, e))
  | inr (bi, e) ↦ elim (Option-cases (index end_marker doc)) [
    | inl f ↦ absurd (ground (arith, h, e, f))
    | inr (ei, f) ↦ elim (Bool-cases (ltb ei bi)) [
      | inl g ↦ absurd (ground (arith, h, e, f, g))
      | inr g ↦ (
        bi,
        ei,
        record { begin_at = e; end_at = f; apart = apart_by doc bi ei e f g },
        ground (arith, h, e, f, g),
      )
    ]
  ]
]

take-length : (n : ℕ) (s : List ℕ) → n ≤ length s → length (take n s) ≡ n
take-length zero s h = refl
take-length (suc n) [] h = absurd (omega (arith, h))
take-length (suc n) (c ∷ cs) h = let r = take-length n cs (omega (arith, h)) in omega (arith, r)

take-append : (xs ys : List ℕ) (n : ℕ) → n ≡ length xs → take n (xs ++ ys) ≡ xs
take-append [] ys zero e = refl
take-append [] ys (suc n) e = absurd (omega (arith, e))
take-append (x ∷ xs) ys zero e = absurd (omega (arith, e))
take-append (x ∷ xs) ys (suc n) e = ap (λ r. x ∷ r) (take-append xs ys n (omega (arith, e)))

drop-append : (xs ys : List ℕ) (n : ℕ) → n ≡ length xs → drop n (xs ++ ys) ≡ ys
drop-append [] ys zero e = refl
drop-append [] ys (suc n) e = absurd (omega (arith, e))
drop-append (x ∷ xs) ys zero e = absurd (omega (arith, e))
drop-append (x ∷ xs) ys (suc n) e = drop-append xs ys n (omega (arith, e))

-- The lines of a table, all ended.
abbrev pub ended : List ℕ → List ℕ
ended t = t ++ b'\n' ∷ []

splice-at :
    (doc table : List ℕ) (bi ei : ℕ)
    → index begin_marker doc ≡ some bi
    → index end_marker doc ≡ some ei
    → ltb ei bi ≡ false
    → splice doc table ≡ ok (take (bi + length begin_marker) doc ++ b'\n' ∷ (table ++ drop ei doc))
unfolding splice
splice-at doc table bi ei e f g = ground (arith, e, f, g)

-- The document after a splice has its markers round the new table.
module _ (doc t : List ℕ) (bi ei : ℕ) (m : Marked doc bi ei)
    (clean : index end_marker t ≡ none) where
  abbrev before : List ℕ
  before = take (bi + length begin_marker) doc

  abbrev middle : List ℕ
  middle = before ++ b'\n' ∷ t

  abbrev result : List ℕ
  result = before ++ b'\n' ∷ (ended t ++ drop ei doc)

  before-length : length before ≡ bi + length begin_marker
  before-length =
      take-length (bi + length begin_marker) doc (index-length begin_marker doc bi m.begin_at)

  result-begin : index begin_marker result ≡ some bi
  result-begin =
      index-take begin_marker doc (b'\n' ∷ (ended t ++ drop ei doc)) bi (bi + length begin_marker)
        (omega arith) m.begin_at (omega arith) (index-length begin_marker doc bi m.begin_at)

  result-split : result ≡ middle ++ b'\n' ∷ drop ei doc
  result-split =
      ap (λ x. before ++ b'\n' ∷ x) (append_assoc t (b'\n' ∷ []) (drop ei doc))
      ∙ sym (append_assoc before (b'\n' ∷ t) (b'\n' ∷ drop ei doc))

  result-end : index end_marker result ≡ some (length middle + 1)
  result-end =
      let a =
        index-take-none end_marker doc ei (bi + length begin_marker) (omega arith) m.end_at
          (let k = m.apart in omega (arith, k)) in
      let b = index-split end_marker before t b'\n' (omega arith) refl a in
      let none_yet : index end_marker middle ≡ none = b ∙ ap (shift (length before + 1)) clean in
      let c = index-split end_marker middle (drop ei doc) b'\n' (omega arith) refl none_yet in
      let d = index-drop end_marker doc 0 ei ei m.end_at (omega arith) (omega arith) in
      ap (index end_marker) result-split
      ∙ (c ∙ (ap (shift (length middle + 1)) d ∙ ap some (omega arith)))

  result-take : take (bi + length begin_marker) result ≡ before
  result-take =
      take-append before (b'\n' ∷ (ended t ++ drop ei doc)) (bi + length begin_marker)
        (sym before-length)

  result-drop : drop (length middle + 1) result ≡ drop ei doc
  result-drop =
      let l = length-append middle (b'\n' ∷ []) in
      ap (drop (length middle + 1))
        (result-split ∙ sym (append_assoc middle (b'\n' ∷ []) (drop ei doc)))
      ∙ drop-append (middle ++ b'\n' ∷ []) (drop ei doc) (length middle + 1) (omega (arith, l))

  result-order : (ltb (length middle + 1) bi ≡ false) × (ltb ei bi ≡ false)
  result-order =
      let l = length-append before (b'\n' ∷ t) in
      let b = before-length in
      let a = m.apart in
      let x : bi ≤ length middle + 1 = omega (arith, l, b) in
      let y : bi ≤ ei = omega (arith, a) in (ground (arith, x), ground (arith, y))

  result-again : (table : List ℕ) → splice result table ≡ splice doc table
  result-again table =
      let (o, o') = result-order in
      splice-at result table bi (length middle + 1) result-begin result-end o
      ∙ (ap₂ (λ x y. ok (x ++ b'\n' ∷ (table ++ y))) result-take result-drop
          ∙ sym (splice-at doc table bi ei m.begin_at m.end_at o'))

-- Where splicing a table succeeds, and the lines of the table, each ended, do not have the end marker,
-- splicing any table into what it gave is the same as splicing it into the original document:
-- nothing of the former table is left, and the text outside the markers is kept.
pub splice-again :
    (doc t table out : List ℕ)
    → index end_marker t ≡ none
    → splice doc (ended t) ≡ ok out
    → splice out table ≡ splice doc table
splice-again doc t table out c h =
    let (bi, ei, m, e) = splice-Marked doc (ended t) out h in
    ap (λ x. splice x table) (sym e) ∙ result-again doc t bi ei m c table
