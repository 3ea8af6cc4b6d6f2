-- ===== src/MetricsDoc/Table.antt =====
-- The rows of the table: those of the inventory, by name; and the lines, each ended.
use mathlib.Core.List.{Perm}
use mathlib.Core.List.Perm
use trimon.Base.{
  ℕ, ◌≡◌, refl, ap, ap₂, ◌∙◌, sym, inl, inr, String, true, false, Option, List, [], ◌∷◌, ◌++◌,
  codes, arith, Bool-cases, ok, >>=-eq-ok, Result,
}
use mathlib.Core.List.{append_assoc, append-nil}
use trimon.Exporters.Otlp.Inventory.{InstrumentInfo}
use trimon.MetricsDoc.{
  MetricType, Error, bytes_lt, string_lt, insert_row, sort_rows, prometheus_name, row_text,
  render_row, render_rows, render_table, table_header,
}
use trimon.MetricsDoc.Splice.{ended}

-- The header lines without their last newline.
abbrev header_text : List ℕ
header_text =
    codes "| OTel name | Kind | Unit | Prometheus name | Description |\n"
    ++ codes "|-----------|------|------|-----------------|-------------|"

ok-injective : {x y : List ℕ} → (◌≡◌ {A = Result Error (List ℕ)} (ok x) (ok y)) → x ≡ y
ok-injective h = cc

bytes_lt-asym : (a b : List ℕ) → bytes_lt a b ≡ true → bytes_lt b a ≡ false
bytes_lt-asym a [] h = let f : false ≡ true = h in cc
bytes_lt-asym [] (c ∷ cs) h = refl
bytes_lt-asym (b ∷ bs) (c ∷ cs) h = let r = bytes_lt-asym bs cs in ground (arith, r, h)

-- No row comes after one with a greater name.
abbrev pub IsSorted : List InstrumentInfo → Type 0
IsSorted [] = Unit {0}
IsSorted (x ∷ []) = Unit {0}
IsSorted (x ∷ y ∷ ys) = (string_lt y.name x.name ≡ false) × IsSorted (y ∷ ys)

abbrev Heads : InstrumentInfo → List InstrumentInfo → Type 0
Heads x [] = Unit {0}
Heads x (y ∷ ys) = string_lt y.name x.name ≡ false

cons-IsSorted :
    (x : InstrumentInfo) (xs : List InstrumentInfo) → Heads x xs → IsSorted xs → IsSorted (x ∷ xs)
cons-IsSorted x [] h s = tt
cons-IsSorted x (y ∷ ys) h s = (h, s)

tail-IsSorted :
    (x : InstrumentInfo) (xs : List InstrumentInfo) → IsSorted (x ∷ xs) → Heads x xs × IsSorted xs
tail-IsSorted x [] s = (tt, tt)
tail-IsSorted x (y ∷ ys) s = (s.0, s.1)

insert_row-Heads :
    (x y : InstrumentInfo) (ys : List InstrumentInfo)
    → string_lt x.name y.name ≡ false
    → Heads y ys
    → Heads y (insert_row x ys)
insert_row-Heads x y [] h k = h
insert_row-Heads x y (z ∷ zs) h k = elim (Bool-cases (string_lt z.name x.name)) [
  | inl e ↦ rw e k
  | inr e ↦ rw e h
]

insert_row-IsSorted :
    (x : InstrumentInfo) (ys : List InstrumentInfo) → IsSorted ys → IsSorted (insert_row x ys)
insert_row-IsSorted x [] s = tt
insert_row-IsSorted x (y ∷ ys) s = elim (Bool-cases (string_lt y.name x.name)) [
  | inl e ↦
      let (h, t) = tail-IsSorted y ys s in
      rw e (
        cons-IsSorted y (insert_row x ys)
          (insert_row-Heads x y ys (bytes_lt-asym (codes y.name) (codes x.name) e) h)
          (insert_row-IsSorted x ys t))
  | inr e ↦ rw e (e, s)
]

insert_row-Perm : (x : InstrumentInfo) (ys : List InstrumentInfo) → Perm (insert_row x ys) (x ∷ ys)
insert_row-Perm x [] = Perm.rfl
insert_row-Perm x (y ∷ ys) = elim (Bool-cases (string_lt y.name x.name)) [
  | inl e ↦ rw e (Perm.trans (Perm.cons y (insert_row-Perm x ys)) (Perm.swap x y ys))
  | inr e ↦ rw e Perm.rfl
]

sort_rows-IsSorted :
    (inv : List InstrumentInfo) → Perm (sort_rows inv) inv × IsSorted (sort_rows inv)
unfolding sort_rows
sort_rows-IsSorted [] = (Perm.rfl, tt)
sort_rows-IsSorted (x ∷ xs) =
    let (p, s) = sort_rows-IsSorted xs in
    (
      Perm.trans (insert_row-Perm x (sort_rows xs)) (Perm.cons x p),
      insert_row-IsSorted x (sort_rows xs) s,
    )

abbrev pub join : List (List ℕ) → List ℕ
join [] = []
join (l ∷ ls) = ended l ++ join ls

-- A line after others ends the text.
join-ended : (t : List ℕ) (ls : List (List ℕ)) → (t' : List ℕ) × (ended t ++ join ls ≡ ended t')
join-ended t [] = (t, append-nil (ended t))
join-ended t (l ∷ ls) =
    let (t', e) = join-ended (ended t ++ l) ls in
    (
      t',
      sym (append_assoc (ended t) (ended l) (join ls))
          ∙ (ap (λ x. x ++ join ls) (sym (append_assoc (ended t) l (b'\n' ∷ []))) ∙ e),
    )

module _ (build : String → String → MetricType → Option String) where
  -- The lines of the rows, one for each.
  abbrev pub Lines : List InstrumentInfo → List (List ℕ) → Type 0
  Lines [] [] = Unit {0}
  Lines (x ∷ xs) (l ∷ ls) = (render_row build x ≡ ok (ended l)) × Lines xs ls
  Lines _ _ = ⊥

  render_row-ended :
      (x : InstrumentInfo) (row : List ℕ)
      → render_row build x ≡ ok row
      → (l : List ℕ) × (row ≡ ended l)
  unfolding render_row
  render_row-ended x row h =
      let (name, e, f) = >>=-eq-ok (prometheus_name build x) _ h in
      let g : _ ≡ row = ok-injective f in
      (
        row_text x name ++ codes " |",
        sym g ∙ sym (append_assoc (row_text x name) (codes " |") (b'\n' ∷ [])),
      )

  render_rows-Lines :
      (xs : List InstrumentInfo) (out : List ℕ)
      → render_rows build xs ≡ ok out
      → (ls : List (List ℕ)) × Lines xs ls × (out ≡ join ls)
  unfolding render_rows
  render_rows-Lines [] out h = ([], tt, ground (arith, h))
  render_rows-Lines (x ∷ xs) out h =
      let (row, e, h') = >>=-eq-ok (render_row build x) _ h in
      let (rest, f, g) = >>=-eq-ok (render_rows build xs) _ h' in
      let (l, r) = render_row-ended x row e in
      let (ls, m, q) = render_rows-Lines xs rest f in
      let o : row ++ rest ≡ out = ground (arith, g) in
      (l ∷ ls, (e ∙ ap ok r, m), sym o ∙ ap₂ (λ a b. a ++ b) r q)

  -- The table that is rendered has the two header lines and then one line for each instrument of the
  -- inventory, all of them and no other, in the order of their names; every line is ended.
  pub render_table-Lines :
      (inv : List InstrumentInfo) (out : List ℕ)
      → render_table build inv ≡ ok out
      → (rows : List InstrumentInfo) × (ls : List (List ℕ)) × Perm rows inv
        × IsSorted rows
        × Lines rows ls
        × (out ≡ table_header ++ join ls)
  unfolding render_table
  render_table-Lines inv out h =
      let (rest, e, f) = >>=-eq-ok (render_rows build (sort_rows inv)) _ h in
      let (ls, m, q) = render_rows-Lines (sort_rows inv) rest e in
      let (p, s) = sort_rows-IsSorted inv in
      let o : table_header ++ rest ≡ out = ok-injective f in
      (sort_rows inv, ls, p, s, m, sym o ∙ ap (λ r. table_header ++ r) q)

  pub render_table-ended :
      (inv : List InstrumentInfo) (out : List ℕ)
      → render_table build inv ≡ ok out
      → (t : List ℕ) × (out ≡ ended t)
  render_table-ended inv out h =
      let (rows, ls, p, s, m, e) = render_table-Lines inv out h in
      let (t, f) = join-ended header_text ls in (t, e ∙ f)
