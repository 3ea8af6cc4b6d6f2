-- ===== src/Config/Load/Names.antt =====
-- Across the files of the probe directory: every probe is kept, in order, valid, and under a name
-- of its own.
use mathlib.Core.List.{append-nil, append_assoc, map-append}
use trimon.Base.{
  String, ◌≡◌, refl, sym, ap, subst, ◌∙◌, ◌≢◌, inl, inr, false, none, List, [], ◌∷◌, ◌++◌, map,
  contains, arith, ok, >>=-eq-ok, wrap_err, wrap_err-eq-ok, Option-cases, All, All-append, Fresh,
  Fresh-append, Fresh-Distinct, Distinct, take_names,
}
use trimon.Net.{Host}
use trimon.Types.{ProbeConfig}
use trimon.Config.Schema.{GlobalConfig, ProbeSource, in_file}
use trimon.Config.Validate.{merge_and_validate_probes, validate_global}
use trimon.Config.Validate.Accepted.{IsValid}
use trimon.Config.Validate.Batch.{names, merge_and_validate_probes-Merges, Merges-All}
use trimon.Config.Load.FileRules.{FollowRules, read_fragments_iff}
use trimon.Config.Load.{
  Codec, Fragment, lookup_origin, claim_names, read_fragments, merge_fragments, parse_probe_sources,
  default_global,
}

abbrev keys : List (String × String) → List String
keys = map λ entry. entry.0

lookup_origin-none :
    (k : String) (m : List (String × String))
    → lookup_origin k m ≡ none
    → contains (keys m) k ≡ false
unfolding lookup_origin
lookup_origin-none k [] h = refl
lookup_origin-none k ((n, file) ∷ m) h = ground (arith, lookup_origin-none k m)

claim_names-Fresh :
    (file : String) (origin origin' : List (String × String)) (pcs : List ProbeConfig)
    → claim_names file origin pcs ≡ ok origin'
    → Fresh (keys origin) (names pcs) × (keys origin' ≡ take_names (names pcs) (keys origin))
unfolding claim_names
claim_names-Fresh file origin origin' [] h = (tt, ground arith)
claim_names-Fresh file origin origin' (pc ∷ pcs) h =
    elim (Option-cases (lookup_origin pc.name origin)) [
      | inl e ↦
          let rest : claim_names file ((pc.name, file) ∷ origin) pcs ≡ ok origin' = ground arith in
          let (f, k) = claim_names-Fresh file ((pc.name, file) ∷ origin) origin' pcs rest in
          ((lookup_origin-none pc.name origin e, f), k)
      | inr (prev, e) ↦ absurd (ground arith)
    ]

-- The names in the files, in order.
abbrev pub raw_names : List Fragment → List String
raw_names [] = []
raw_names (f ∷ fs) = map (λ r. r.name) f.raws ++ raw_names fs

abbrev pub IsGood : Host → ProbeConfig → Type 0
IsGood host pc = IsValid host pc × (pc.name ≢ "")

module _ (host : Host) (codec : Codec) (g : GlobalConfig) where
  record Merged (origin : List (String × String)) (fs : List Fragment) (new : List ProbeConfig)
      : Type 0 where
    fresh : Fresh (keys origin) (names new)
    good : All (IsGood host) new
    all : names new ≡ raw_names fs

  merge_fragments-Merged :
      (origin : List (String × String)) (probes : List ProbeConfig) (fs : List Fragment)
      (res : List ProbeConfig)
      → merge_fragments host codec g origin probes fs ≡ ok res
      → (new : List ProbeConfig) × (res ≡ probes ++ new) × Merged origin fs new
  unfolding merge_fragments
  merge_fragments-Merged origin probes [] res h =
      let e : probes ≡ res = cc in
      ([], sym e ∙ sym (append-nil probes), record { fresh = tt; good = tt; all = refl })
  merge_fragments-Merged origin probes (f ∷ fs) res h =
      let (pcs, e, h') =
        >>=-eq-ok (wrap_err (in_file f.file) (merge_and_validate_probes host f.raws g)) _ h in
      let (origin', c, rest) = >>=-eq-ok (claim_names f.file origin pcs) _ h' in
      let (new, q, m) = merge_fragments-Merged origin' (probes ++ pcs) fs res rest in
      let (fresh, k) = claim_names-Fresh f.file origin origin' pcs c in
      let (good, same) =
        Merges-All host g f.raws pcs
          (merge_and_validate_probes-Merges host g f.raws pcs (wrap_err-eq-ok _ _ e)) in
      (
        pcs ++ new,
        q ∙ append_assoc probes pcs new,
        record {
          fresh =
              rw (map-append)
                (Fresh-append (keys origin) (names pcs) (names new) fresh (rw (← k) m.fresh));
          good = All-append (IsGood host) pcs new good m.good;
          all = rw (map-append, same, m.all);
        },
      )

-- The three steps of an accepted parse.
pub parse_probe_sources-steps :
    (host : Host) (codec : Codec) (sources : List ProbeSource) (g : GlobalConfig)
    (probes : List ProbeConfig)
    → parse_probe_sources host codec sources ≡ ok (g, probes)
    → (fs : List Fragment) × (read_fragments host codec default_global [] sources ≡ ok (g, fs))
      × (validate_global g ≡ ok tt)
      × (merge_fragments host codec g [] [] fs ≡ ok probes)
unfolding parse_probe_sources
parse_probe_sources-steps host codec sources g probes h =
    let (p, e, h') = >>=-eq-ok (read_fragments host codec default_global [] sources) _ h in
    let (u, v, h'') = >>=-eq-ok (validate_global p.0) _ h' in
    let (ps, m, d) = >>=-eq-ok (merge_fragments host codec p.0 [] [] p.1) _ h'' in
    let same : p.0 ≡ g = ground arith in
    let last : ps ≡ probes = ground arith in
    (
      p.1,
      e ∙ ap (λ x. ok (x, p.1)) same,
      subst (λ x. validate_global x ≡ ok tt) same v,
      subst (λ x. merge_fragments host codec x [] [] p.1 ≡ ok probes) same (m ∙ ap ok last),
    )

-- When the sources are accepted: each file follows its rule, by which the fragments are the probes of the
-- files other than _global.yaml, one fragment for each, in their order; the names of the probes are those of
-- the fragments, in the order of the files and within them; no two have one name, and each has a
-- name and is valid.
pub parse_probe_sources-Distinct :
    (host : Host) (codec : Codec) (sources : List ProbeSource) (g : GlobalConfig)
    (probes : List ProbeConfig)
    → parse_probe_sources host codec sources ≡ ok (g, probes)
    → (fs : List Fragment) × FollowRules host codec default_global [] sources g fs
      × (names probes ≡ raw_names fs)
      × Distinct (names probes)
      × All (IsGood host) probes
parse_probe_sources-Distinct host codec sources g probes h =
    let (fs, e, v, m) = parse_probe_sources-steps host codec sources g probes h in
    let (new, q, merged) = merge_fragments-Merged host codec g [] [] fs probes m in
    (
      fs,
      (read_fragments_iff host codec default_global g [] fs sources).0.0 e,
      rw q merged.all,
      rw q (Fresh-Distinct [] (names new) merged.fresh),
      rw q merged.good,
    )
