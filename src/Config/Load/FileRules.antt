-- ===== src/Config/Load/FileRules.antt =====
-- Which keys each file of the probe directory may carry, and where the defaults come from.
use trimon.Base.{
  ◌≡◌, ◌⊎◌, refl, ◌↔◌, inl, inr, Bool, true, false, none, some, List, [], ◌∷◌, ◌++◌, str_eq, arith,
  ok, err, >>=-eq-ok, >>=-eq-err, Bool-cases, Option-cases, if◌then◌else◌,
}
use trimon.Net.{Host}
use trimon.Config.Schema.{GlobalConfig, RawProbeFile, ProbeSource, nil_dereference}
use trimon.Config.Load.{
  Codec, Fragment, decoded, dereference, read_fragment, read_fragments, global_file_name, or_empty,
}

abbrev pub is_global_file : ProbeSource → Bool
is_global_file s = str_eq s.name global_file_name

module _ (host : Host) (codec : Codec) where
  -- _global.yaml has no `probes:`, and its `global:`, decoded over the defaults, is what counts; any
  -- other file has no `global:`, and its probes make a fragment.
  abbrev pub FollowsRule :
      GlobalConfig → List Fragment → ProbeSource → GlobalConfig → List Fragment → Type 0
  FollowsRule g fs s g' fs' =
      (raw : RawProbeFile) × (codec.decode_probes
          (record { global = if is_global_file s then some g else none; probes = none }) s.content
        ≡ some raw)
      × ((is_global_file s ≡ true) → (raw.probes ≡ none) × (raw.global ≡ some g') × (fs' ≡ fs))
      × ((is_global_file s ≡ false)
          → (raw.global ≡ none)
            × (g' ≡ g)
            × (fs' ≡ fs ++ record { file = s.name; raws = or_empty raw.probes } ∷ []))

  read_fragment-FollowsRule :
      (g g' : GlobalConfig) (fs fs' : List Fragment) (s : ProbeSource)
      → read_fragment host codec g fs s ≡ ok (g', fs')
      → FollowsRule g fs s g' fs'
  unfolding read_fragment decoded dereference
  read_fragment-FollowsRule g g' fs fs' s h = elim (Bool-cases (is_global_file s)) [
    | inl e ↦
        elim (Option-cases
          (codec.decode_probes (record { global = some g; probes = none }) s.content)) [
            | inl bad ↦ absurd (ground arith)
            | inr (raw, d) ↦ (raw, ground arith, ground arith, ground arith)
          ]
    | inr e ↦
        elim (Option-cases
          (codec.decode_probes (record { global = none; probes = none }) s.content)) [
            | inl bad ↦ absurd (ground arith)
            | inr (raw, d) ↦ (raw, ground arith, ground arith, ground arith)
          ]
  ]

  FollowsRule-read_fragment :
      (g g' : GlobalConfig) (fs fs' : List Fragment) (s : ProbeSource)
      → FollowsRule g fs s g' fs'
      → read_fragment host codec g fs s ≡ ok (g', fs')
  unfolding read_fragment decoded dereference
  FollowsRule-read_fragment g g' fs fs' s (raw, d, yes_rule, no_rule) =
      elim (Bool-cases (is_global_file s)) [
        | inl e ↦ let (p, q, f) = yes_rule e in ground arith
        | inr e ↦ let (p, q, f) = no_rule e in ground arith
      ]

  -- The rule at every file, from the defaults and fragments before the first to those after the last.
  abbrev pub FollowRules :
      GlobalConfig → List Fragment → List ProbeSource → GlobalConfig → List Fragment → Type 0
  FollowRules g fs [] g' fs' = (g' ≡ g) × (fs' ≡ fs)
  FollowRules g fs (s ∷ ss) g' fs' =
      (p : GlobalConfig × List Fragment) × FollowsRule g fs s p.0 p.1
      × FollowRules p.0 p.1 ss g' fs'

  read_fragments-FollowRules :
      (g g' : GlobalConfig) (fs fs' : List Fragment) (ss : List ProbeSource)
      → (read_fragments host codec g fs ss ≡ ok (g', fs')) ↔ FollowRules g fs ss g' fs'
  unfolding read_fragments
  read_fragments-FollowRules g g' fs fs' [] = (λ h. ground arith, λ (p, q). ground arith)
  read_fragments-FollowRules g g' fs fs' (s ∷ ss) = (
    λ h.
        let (p, e, rest) = >>=-eq-ok (read_fragment host codec g fs s) _ h in
        (
          p,
          read_fragment-FollowsRule g p.0 fs p.1 s e,
          (read_fragments-FollowRules p.0 g' p.1 fs' ss).0 rest,
        ),
    λ (p, rule, rest).
        rw (FollowsRule-read_fragment g p.0 fs p.1 s rule)
          ((read_fragments-FollowRules p.0 g' p.1 fs' ss).1 rest),
  )

  -- A `global:` key that is present and null leaves a nil pointer, as yaml.v3 does for a pointer field.
  abbrev pub IsNullGlobal : GlobalConfig → ProbeSource → Type 0
  IsNullGlobal g s =
      (is_global_file s ≡ true)
      × (codec.decode_probes (record { global = some g; probes = none }) s.content
          ≡ some (record { global = none; probes = none }))

  -- The first file that does not follow its rule is a _global.yaml of this kind.
  abbrev pub MeetsNullGlobal : GlobalConfig → List Fragment → List ProbeSource → Type 0
  MeetsNullGlobal g fs [] = ⊥
  MeetsNullGlobal g fs (s ∷ ss) =
      IsNullGlobal g s
      ⊎ ((p : GlobalConfig × List Fragment) × FollowsRule g fs s p.0 p.1
          × MeetsNullGlobal p.0 p.1 ss)

  read_fragment-IsNullGlobal :
      (g : GlobalConfig) (fs : List Fragment) (s : ProbeSource)
      → (read_fragment host codec g fs s ≡ err nil_dereference) ↔ IsNullGlobal g s
  unfolding read_fragment decoded dereference
  read_fragment-IsNullGlobal g fs s = (
    λ h. elim (Bool-cases (is_global_file s)) [
      | inl e ↦
          elim (Option-cases
            (codec.decode_probes (record { global = some g; probes = none }) s.content)) [
              | inl bad ↦ absurd (ground arith)
              | inr (raw, d) ↦ (e, ground arith)
            ]
      | inr e ↦
          elim (Option-cases
            (codec.decode_probes (record { global = none; probes = none }) s.content)) [
              | inl bad ↦ absurd (ground arith)
              | inr (raw, d) ↦ absurd (ground arith)
            ]
    ],
    λ (e, d). ground arith,
  )

  read_fragments-MeetsNullGlobal :
      (g : GlobalConfig) (fs : List Fragment) (ss : List ProbeSource)
      → (read_fragments host codec g fs ss ≡ err nil_dereference) ↔ MeetsNullGlobal g fs ss
  unfolding read_fragments
  read_fragments-MeetsNullGlobal g fs [] = (λ h. absurd (ground arith), λ h. absurd h)
  read_fragments-MeetsNullGlobal g fs (s ∷ ss) = (
    λ h. elim (>>=-eq-err (read_fragment host codec g fs s) _ h) [
      | inl e ↦ inl ((read_fragment-IsNullGlobal g fs s).0 e)
      | inr (p, e, rest) ↦ inr (
        p,
        read_fragment-FollowsRule g p.0 fs p.1 s e,
        (read_fragments-MeetsNullGlobal p.0 p.1 ss).0 rest,
      )
    ],
    λ m. elim m [
      | inl n ↦ rw ((read_fragment-IsNullGlobal g fs s).1 n) refl
      | inr (p, rule, rest) ↦
          rw (FollowsRule-read_fragment g p.0 fs p.1 s rule)
            ((read_fragments-MeetsNullGlobal p.0 p.1 ss).1 rest)
    ],
  )

  -- The files are read without error exactly if each decodes and follows its rule: _global.yaml has
  -- no `probes:` and its `global:` replaces the defaults, and any other file has no `global:` and
  -- adds its probes, as a fragment under its name, at the end; and Go panics, at a dereference of nil, exactly
  -- if each file up to a _global.yaml follows its rule, and that one has a `global:` key without a
  -- value and no `probes:`.
  pub read_fragments_iff :
      (g g' : GlobalConfig) (fs fs' : List Fragment) (ss : List ProbeSource)
      → ((read_fragments host codec g fs ss ≡ ok (g', fs')) ↔ FollowRules g fs ss g' fs')
        × ((read_fragments host codec g fs ss ≡ err nil_dereference) ↔ MeetsNullGlobal g fs ss)
  read_fragments_iff g g' fs fs' ss =
      (read_fragments-FollowRules g g' fs fs' ss, read_fragments-MeetsNullGlobal g fs ss)
