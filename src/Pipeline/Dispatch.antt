-- ===== src/Pipeline/Dispatch.antt =====
-- What the exporters get.
use trimon.Base.{
  inl, inr, ap₂, String, ◌≡◌, refl, ap, ◌∙◌, sym, true, false, List, [], ◌∷◌, ◌++◌, map,
  Option-cases,
}
use trimon.Net.{is_some}
use trimon.Pipeline.{Exporter, Event, exported, failed, dispatch, drain}

module _ {R : Type 0} where
  -- The calls of exporters, and the errors recorded.
  abbrev pub exports : List (Event R) → List (String × R)
  exports [] = []
  exports (exported name r ∷ events) = (name, r) ∷ exports events
  exports (failed name ∷ events) = exports events

  abbrev pub failures : List (Event R) → List String
  failures [] = []
  failures (exported name r ∷ events) = failures events
  failures (failed name ∷ events) = name ∷ failures events

  -- Every exporter gets the result.
  abbrev pub to_all : List (Exporter R) → R → List (String × R)
  to_all exps r = map (λ e. (e.name, r)) exps

  -- The exporters that fail for the result.
  abbrev pub failing : List (Exporter R) → R → List String
  failing [] r = []
  failing (e ∷ exps) r = elim (is_some (e.export r)) [
    | true ↦ e.name ∷ failing exps r
    | false ↦ failing exps r
  ]

  abbrev pub concat_map {κ} : {B : Type κ} → (R → List B) → List R → List B
  concat_map f [] = []
  concat_map f (r ∷ rs) = f r ++ concat_map f rs

  exports-append : (xs ys : List (Event R)) → exports (xs ++ ys) ≡ exports xs ++ exports ys
  exports-append [] ys = refl
  exports-append (exported name r ∷ xs) ys = ap (◌∷◌ (name, r)) (exports-append xs ys)
  exports-append (failed name ∷ xs) ys = exports-append xs ys

  failures-append : (xs ys : List (Event R)) → failures (xs ++ ys) ≡ failures xs ++ failures ys
  failures-append [] ys = refl
  failures-append (exported name r ∷ xs) ys = failures-append xs ys
  failures-append (failed name ∷ xs) ys = ap (◌∷◌ name) (failures-append xs ys)

  dispatch-all :
      (exps : List (Exporter R)) (r : R)
      → (exports (dispatch exps r) ≡ to_all exps r) × (failures (dispatch exps r) ≡ failing exps r)
  unfolding dispatch
  dispatch-all [] r = (refl, refl)
  dispatch-all (e ∷ exps) r =
      let (h, k) = dispatch-all exps r in
      elim (Option-cases (e.export r)) [
        | inl x ↦
            let q : dispatch (e ∷ exps) r ≡ exported e.name r ∷ dispatch exps r =
              rw (x, dispatch) refl in
            let f : failing (e ∷ exps) r ≡ failing exps r = rw (x, failing) refl in
            (ap exports q ∙ ap (◌∷◌ (e.name, r)) h, ap failures q ∙ (k ∙ sym f))
        | inr (m, x) ↦
            let q : dispatch (e ∷ exps) r ≡ exported e.name r ∷ failed e.name ∷ dispatch exps r =
              rw (x, dispatch) refl in
            let f : failing (e ∷ exps) r ≡ e.name ∷ failing exps r = rw (x, failing) refl in
            (ap exports q ∙ ap (◌∷◌ (e.name, r)) h, ap failures q ∙ (ap (◌∷◌ e.name) k ∙ sym f))
      ]

  -- Before it closes the channel, `Run` gives every buffered result, in order, to every exporter,
  -- whether or not others fail, and records an error for each exporter that fails, and only for those.
  pub drain-all :
      (exps : List (Exporter R)) (rs : List R)
      → (exports (drain exps rs) ≡ concat_map (to_all exps) rs)
        × (failures (drain exps rs) ≡ concat_map (failing exps) rs)
  unfolding drain
  drain-all exps [] = (refl, refl)
  drain-all exps (r ∷ rs) =
      let (h, k) = drain-all exps rs in
      let (a, b) = dispatch-all exps r in
      (
        exports-append (dispatch exps r) (drain exps rs) ∙ ap₂ ◌++◌ a h,
        failures-append (dispatch exps r) (drain exps rs) ∙ ap₂ ◌++◌ b k,
      )
