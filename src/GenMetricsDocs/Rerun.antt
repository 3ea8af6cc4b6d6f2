-- ===== src/GenMetricsDocs/Rerun.antt =====
-- Running the generator again.
use trimon.Base.{
  ℕ, zero, suc, if◌then◌else◌, ◌≡◌, refl, ap, ◌∙◌, sym, Bool, true, false, Option, none, some, List,
  [], ◌∷◌, length, eq_iff, Result, ok, err, ◌>>◌, refuse_if, wrap_err, wrap_err-eq-ok, >>=-eq-ok,
  >>=-ok, arith, Bool-cases, Option-cases, inl, inr, not, String,
}
use trimon.Net.{is_some}
use trimon.Exporters.Otlp.Transport.{Sdk}
use trimon.MetricsDoc.{MetricType, end_marker, splice}
use trimon.MetricsDoc.Search.{index}
use trimon.MetricsDoc.Splice.{ended, splice-again}
use trimon.GenMetricsDocs.{
  FilePath, Files, parent, path_eq, walk, go_mod_not_found, unwritable, DocsError, splicing,
  module_root, doc_path, write, build_table, read_doc, run,
}

ok-injective : {x y : Files} → (◌≡◌ {A = Result DocsError Files} (ok x) (ok y)) → x ≡ y
ok-injective h = cc

bytes-injective : {x y : List ℕ} → (◌≡◌ {A = Result DocsError (List ℕ)} (ok x) (ok y)) → x ≡ y
bytes-injective h = cc

path_eq_refl : (p : FilePath) → path_eq p p ≡ true
path_eq_refl [] = refl
path_eq_refl (d ∷ ds) = let r = path_eq_refl ds in ground (arith, eq_iff d d, r)

walk-write :
    (files : Files) (root : FilePath) (bytes : List ℕ) (n : ℕ) (dir : FilePath)
    → walk (λ path. is_some (write files (doc_path root) bytes path)) n dir
      ≡ walk (λ path. is_some (files path)) n dir
unfolding walk
walk-write files root bytes zero dir = refl
walk-write files root bytes (suc n) dir =
    ap
      (λ rest.
        if is_some (files ("go.mod" ∷ dir))
        then ok dir
        else if path_eq (parent dir) dir
        then err go_mod_not_found
        else rest)
      (walk-write files root bytes n (parent dir))

-- Writing the document changes no go.mod.
module_root-write :
    (files : Files) (root : FilePath) (bytes : List ℕ) (wd : Option FilePath)
    → module_root (write files (doc_path root) bytes) wd ≡ module_root files wd
unfolding module_root
module_root-write files root bytes none = refl
module_root-write files root bytes (some wd) = walk-write files root bytes (suc (length wd)) wd

write-write :
    (files : Files) (path q : FilePath) (bytes : List ℕ)
    → write (write files path bytes) path bytes q ≡ write files path bytes q
write-write files path q bytes = elim (Bool-cases (path_eq q path)) [
  | inl e ↦ rw e refl
  | inr e ↦ rw e refl
]

module _ {Certificate Pool Client : Type 0} (sdk : Sdk Certificate Pool Client)
    (build : String → String → MetricType → Option String) where
  read_doc-ok :
      (files : Files) (path : FilePath) (doc : List ℕ)
      → read_doc sdk build files path ≡ ok doc
      → files path ≡ some doc
  unfolding read_doc
  read_doc-ok files path doc h = elim (Option-cases (files path)) [
    | inl e ↦ absurd (ground (arith, h, e))
    | inr (d, e) ↦ let same : d ≡ doc = ground (arith, h, e) in e ∙ ap some same
  ]

  written :
      (writable : Bool) (x y : Files)
      → (refuse_if (not writable) unwritable >> ok x) ≡ ok y
      → (writable ≡ true) × (x ≡ y)
  written true x y h = (refl, ok-injective h)
  written false x y h = cc

  run-steps :
      (wd : Option FilePath) (writable : Bool) (files files' : Files)
      → run sdk build wd writable files ≡ ok files'
      → (root : FilePath) × (table : List ℕ) × (doc : List ℕ) × (out : List ℕ) × (module_root files
            wd
          ≡ ok root)
        × (build_table sdk build ≡ ok table)
        × (files (doc_path root) ≡ some doc)
        × (splice doc table ≡ ok out)
        × (writable ≡ true)
        × (write files (doc_path root) out ≡ files')
  unfolding run
  run-steps wd writable files files' h =
      let (root, a, h1) = >>=-eq-ok (module_root files wd) _ h in
      let (table, b, h2) = >>=-eq-ok (build_table sdk build) _ h1 in
      let (doc, c, h3) = >>=-eq-ok (read_doc sdk build files (doc_path root)) _ h2 in
      let (out, d, h4) = >>=-eq-ok (wrap_err splicing (splice doc table)) _ h3 in
      let (w, o) = written writable (write files (doc_path root) out) files' h4 in
      (
        root,
        table,
        doc,
        out,
        a,
        b,
        read_doc-ok files (doc_path root) doc c,
        wrap_err-eq-ok splicing _ d,
        w,
        o,
      )

  steps-run :
      (wd : Option FilePath) (files : Files) (root : FilePath) (table doc out : List ℕ)
      → module_root files wd ≡ ok root
      → build_table sdk build ≡ ok table
      → files (doc_path root) ≡ some doc
      → splice doc table ≡ ok out
      → run sdk build wd true files ≡ ok (write files (doc_path root) out)
  unfolding run read_doc
  steps-run wd files root table doc out a b c d =
      let read : read_doc sdk build files (doc_path root) ≡ ok doc = rw (c, read_doc) refl in
      >>=-ok (module_root files wd) _ a
      ∙ (>>=-ok (build_table sdk build) _ b
          ∙ (>>=-ok (read_doc sdk build files (doc_path root)) _ read
              ∙ >>=-ok (wrap_err splicing (splice doc table)) _ (ap (wrap_err splicing) d)))

  -- A second run of the generator is a no-op. Where a run succeeds, and the lines of the table that it
  -- renders, each ended, do not have the end marker, running it again on the files as they are then,
  -- from the same directory and with the same instruments, succeeds and leaves every file as it is.
  pub run-again :
      (wd : Option FilePath) (writable : Bool) (files files' : Files) (t : List ℕ)
      → run sdk build wd writable files ≡ ok files'
      → build_table sdk build ≡ ok (ended t)
      → index end_marker t ≡ none
      → (files'' : Files) × (run sdk build wd writable files' ≡ ok files'')
        × ((path : FilePath) → files'' path ≡ files' path)
  run-again wd writable files files' t h e clean =
      let (root, table, doc, out, a, b, c, d, w, o) = run-steps wd writable files files' h in
      let same : table ≡ ended t = bytes-injective (sym b ∙ e) in
      let again = splice-again doc t table out clean (ap (splice doc) (sym same) ∙ d) in
      let here : write files (doc_path root) out (doc_path root) ≡ some out =
        rw (path_eq_refl (doc_path root)) refl in
      let second =
        steps-run wd (write files (doc_path root) out) root table out out
          (module_root-write files root out wd ∙ a) b here (again ∙ d) in
      (
        write (write files (doc_path root) out) (doc_path root) out,
        rw (w) (ap (run sdk build wd true) (sym o) ∙ second),
        λ path. write-write files (doc_path root) path out ∙ ap (λ f. f path) o,
      )
