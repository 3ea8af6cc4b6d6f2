-- ===== src/Config/Validate/Batch.antt =====
-- The probes of one file: `mergeAndValidateProbes` keeps them all, in order, and valid.
use mathlib.Core.List.{append-nil, append_assoc}
use trimon.Base.{
  ℕ, ◌+◌, String, ◌≡◌, refl, sym, ◌∙◌, ◌≢◌, inl, inr, List, [], ◌∷◌, ◌++◌, map, eq_iff, arith, ok,
  Result-cases, All,
}
use trimon.Net.{Host}
use trimon.Types.{ProbeConfig}
use trimon.Config.Schema.{GlobalConfig, RawProbeConfig}
use trimon.Config.Validate.{merge_and_validate_probe, merge_probes_from, merge_and_validate_probes}
use trimon.Config.Validate.Accepted.{IsValid, merge-IsValid, merge-name}

-- Each raw probe, with the probe that it was merged into.
abbrev pub Merges : Host → GlobalConfig → List RawProbeConfig → List ProbeConfig → Type 0
Merges host g [] [] = Unit {0}
Merges host g (r ∷ rs) (pc ∷ pcs) =
    (merge_and_validate_probe host r g ≡ ok pc) × (r.name ≢ "") × Merges host g rs pcs
Merges host g _ _ = ⊥

abbrev pub names : List ProbeConfig → List String
names = map λ pc. pc.name

module _ (host : Host) (g : GlobalConfig) where
  merge_probes_from-Merges :
      (i : ℕ) (seen : List String) (out : List ProbeConfig) (rs : List RawProbeConfig)
      (res : List ProbeConfig)
      → merge_probes_from host g i seen out rs ≡ ok res
      → (new : List ProbeConfig) × (res ≡ out ++ new) × Merges host g rs new
  unfolding merge_probes_from
  merge_probes_from-Merges i seen out [] res h =
      let e : out ≡ res = cc in ([], sym e ∙ sym (append-nil out), tt)
  merge_probes_from-Merges i seen out (r ∷ rs) res h =
      elim (Result-cases (merge_and_validate_probe host r g)) [
        | inl (pc, e) ↦
            let rest : merge_probes_from host g (i + 1) (r.name ∷ seen) (out ++ pc ∷ []) rs
                ≡ ok res =
              ground arith in
            let (new, q, m) =
              merge_probes_from-Merges (i + 1) (r.name ∷ seen) (out ++ pc ∷ []) rs res rest in
            (pc ∷ new, q ∙ append_assoc out (pc ∷ []) new, (e, ground (arith, eq_iff r.name ""), m))
        | inr (f, e) ↦ absurd (ground arith)
      ]

-- One file's probes: one for each raw probe, in order.
pub merge_and_validate_probes-Merges :
    (host : Host) (g : GlobalConfig) (rs : List RawProbeConfig) (pcs : List ProbeConfig)
    → merge_and_validate_probes host rs g ≡ ok pcs
    → Merges host g rs pcs
unfolding merge_and_validate_probes
merge_and_validate_probes-Merges host g rs pcs h =
    let (new, e, m) = merge_probes_from-Merges host g 0 [] [] rs pcs h in rw e m

-- The probes are valid, named, and keep the names of the raw probes.
pub Merges-All :
    (host : Host) (g : GlobalConfig) (rs : List RawProbeConfig) (pcs : List ProbeConfig)
    → Merges host g rs pcs
    → All (λ pc. IsValid host pc × (pc.name ≢ "")) pcs × (names pcs ≡ map (λ r. r.name) rs)
Merges-All host g [] [] m = (tt, refl)
Merges-All host g [] (pc ∷ pcs) m = elim m [ ]
Merges-All host g (r ∷ rs) [] m = elim m [ ]
Merges-All host g (r ∷ rs) (pc ∷ pcs) (e, n, m) =
    let (valid, same) = Merges-All host g rs pcs m in
    let name : pc.name ≡ r.name = merge-name host r g pc e in
    (((merge-IsValid host r g pc e, rw name n), valid), cc)
