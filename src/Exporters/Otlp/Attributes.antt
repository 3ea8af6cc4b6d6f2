-- ===== src/Exporters/Otlp/Attributes.antt =====
-- buildAttrs of internal/exporter/otlp/otlp.go, as the SDK reads its result. Go visits the entries of
-- the map of labels in any order.
use mathlib.Core.Logic.{∥∥₁_elim}
use mathlib.Core.List.{Perm, Permᴰ, append-nil, append_assoc}
use text.Mathlib.TextEquality.{IsScalar-prop}
use trimon.Base.{
  ◌≡◌, refl, sym, ap, ap₂, subst, ◌∙◌, String, false, not, ◌&&◌, Bool-cases, inl, inr, ◌||◌, Option,
  none, some, List, [], ◌∷◌, ◌++◌, map, str_eq, eq_iff, if◌then◌else◌, contains, Distinct, arith,
}
use trimon.Types.{ProbeResult}
use trimon.Config.Validate.{entries}
use trimon.Exporters.Otlp.{Attrs, build_attrs}

-- What go.opentelemetry.io/otel/attribute makes of attributes: a set with one value for each key, the
-- last one given.
pub record AttributeSet (value_of : Attrs → String → Option String) : Type 0 where
  pub of_none : (k : String) → value_of [] k ≡ none
  pub last_wins :
      (attrs : Attrs) (k v k' : String)
      → value_of (attrs ++ (k, v) ∷ []) k' ≡ (if str_eq k k' then some v else value_of attrs k')

abbrev pub keys : Attrs → List String
keys attrs = map (λ a. a.0) attrs

abbrev pub find : Attrs → String → Option String
find [] k = none
find ((k', v) ∷ attrs) k = if str_eq k' k then some v else find attrs k

abbrev pub or_else : Option String → Option String → Option String
or_else (some v) o = some v
or_else none o = o

-- What a map holds does not depend on the order of its entries.
Permᴰ-contains :
    {ls ms : Attrs} → Permᴰ ls ms → (k : String) → contains (keys ls) k ≡ contains (keys ms) k
Permᴰ-contains Permᴰ.nil k = refl
Permᴰ-contains (Permᴰ.cons {a = a} {b = b} {l₁ = ls} e p) k =
    ap (λ x. contains (keys (x ∷ ls)) k) e ∙ ap (λ c. str_eq k b.0 || c) (Permᴰ-contains p k)
Permᴰ-contains (Permᴰ.swap {a = a} {b = b} {a' = a'} {b' = b'} {l = ls} e f) k =
    ap (λ x. contains (keys (x ∷ b ∷ ls)) k) e
    ∙ ap (λ x. contains (keys (b' ∷ x ∷ ls)) k) f
    ∙ (ground arith)
Permᴰ-contains (Permᴰ.trans p q) k = Permᴰ-contains p k ∙ Permᴰ-contains q k

abbrev SameMap : Attrs → Attrs → Type 0
SameMap ls ms = Distinct (keys ms) × ((k : String) → find ls k ≡ find ms k)

swapped :
    (a b : String × String) (ls : Attrs)
    → Distinct (keys (a ∷ b ∷ ls))
    → SameMap (a ∷ b ∷ ls) (b ∷ a ∷ ls)
swapped a b ls d = (
  (ground (arith, eq_iff a.0 b.0, eq_iff b.0 a.0, d), (ground (arith, d), d.1.1)),
  λ k. ground (arith, eq_iff a.0 b.0, eq_iff a.0 k, eq_iff b.0 k, d),
)

Permᴰ-SameMap : {ls ms : Attrs} → Permᴰ ls ms → Distinct (keys ls) → SameMap ls ms
Permᴰ-SameMap Permᴰ.nil d = (tt, λ k. refl)
Permᴰ-SameMap (Permᴰ.cons {a = a} {b = b} {l₁ = ls} {l₂ = ms} e p) d =
    let (d', same) = Permᴰ-SameMap p d.1 in
    (
      (sym (Permᴰ-contains p b.0) ∙ ap (λ x. contains (keys ls) x.0) (sym e) ∙ d.0, d'),
      λ k. ap (λ x. find (x ∷ ls) k) e ∙ ap (λ o. if str_eq b.0 k then some b.1 else o) (same k),
    )
Permᴰ-SameMap (Permᴰ.swap {a = a} {b = b} {a' = a'} {b' = b'} {l = ls} e f) d =
    subst (λ x. SameMap (a ∷ b ∷ ls) (x ∷ b' ∷ ls)) f
      (subst (λ x. SameMap (a ∷ b ∷ ls) (b ∷ x ∷ ls)) e (swapped a b ls d))
Permᴰ-SameMap (Permᴰ.trans p q) d =
    let (d', same) = Permᴰ-SameMap p d in
    let (d'', same') = Permᴰ-SameMap q d' in (d'', λ k. same k ∙ same' k)

text_set : IsSet (Option String)
text_set = hlevel IsScalar-prop

find-absent : (ls : Attrs) (k : String) → contains (keys ls) k ≡ false → find ls k ≡ none
find-absent [] k h = refl
find-absent ((k', v) ∷ ls) k h = ground (arith, eq_iff k k', eq_iff k' k, find-absent ls k, h)

-- The attributes that are not labels.
abbrev pub standard : {F : Type 0} → ProbeResult F → String → Option String
standard r k =
    if str_eq "probe.name" k
    then some r.probe_name
    else if str_eq "probe.type" k
    then some r.probe_type
    else if str_eq "probe.target" k
    then some r.target
    else if str_eq "probe.source_ip" k
    then some r.source_ip
    else if str_eq "probe.fqdn" k && not (str_eq r.fqdn "")
    then some r.fqdn
    else none

module _ (value_of : Attrs → String → Option String) (set : AttributeSet value_of) where
  -- What is given later goes before what is given first.
  value_of-append :
      (attrs ls : Attrs) (k : String)
      → Distinct (keys ls)
      → value_of (attrs ++ ls) k ≡ or_else (find ls k) (value_of attrs k)
  value_of-append attrs [] k d = ap (λ l. value_of l k) (append-nil attrs)
  value_of-append attrs ((k', v) ∷ ls) k d =
      ap (λ l. value_of l k) (sym (append_assoc attrs ((k', v) ∷ []) ls))
      ∙ value_of-append (attrs ++ (k', v) ∷ []) ls k d.1
      ∙ ap (or_else (find ls k)) (set.last_wins attrs k' v k)
      ∙ ground (arith, eq_iff k' k, find-absent ls k', d.0)

  value_of-list :
      (attrs : Attrs) (k : String) → Distinct (keys attrs) → value_of attrs k ≡ find attrs k
  value_of-list attrs k d = value_of-append [] attrs k d ∙ ground (arith, set.of_none k)

  standard_lem :
      {F : Type 0} (r : ProbeResult F) (k : String)
      → value_of (build_attrs (record r { labels = none })) k ≡ standard r k
  unfolding build_attrs
  standard_lem r k = elim (Bool-cases (str_eq r.fqdn "")) [
    | inl e ↦ rw e (value_of-list _ k (refl, (refl, (refl, (refl, tt)))) ∙ (ground arith))
    | inr e ↦ rw e (value_of-list _ k (refl, (refl, (refl, (refl, (refl, tt))))) ∙ (ground arith))
  ]

  build_attrs-split :
      {F : Type 0} (r : ProbeResult F) (visited : Attrs)
      → build_attrs (record r { labels = some visited })
        ≡ build_attrs (record r { labels = none }) ++ visited
  unfolding build_attrs
  build_attrs-split r visited = ap (λ l. l ++ visited) (sym (append-nil _))

  -- Whatever the order in which the loop visits the labels, whose keys are distinct, the value that the SDK
  -- has for each key is that of the label with this key if there is one, so that a label replaces
  -- even the name of the probe, else the field of the result that buildAttrs gives under it, if any.
  pub value_of-build_attrs :
      {F : Type 0} (r : ProbeResult F) (visited : Attrs) (k : String)
      → Perm (entries r.labels) visited
      → Distinct (keys (entries r.labels))
      → value_of (build_attrs (record r { labels = some visited })) k
        ≡ or_else (find (entries r.labels) k) (standard r k)
  value_of-build_attrs r visited k p d = ∥∥₁_elim p (text_set _ _) (λ q.
      let (d', same) = Permᴰ-SameMap q d in
      ap (λ l. value_of l k) (build_attrs-split r visited)
      ∙ value_of-append (build_attrs (record r { labels = none })) visited k d'
      ∙ ap₂ or_else (sym (same k)) (standard_lem r k))
