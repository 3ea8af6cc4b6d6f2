-- ===== src/Tests/Attributes.antt =====
-- Tests of buildAttrs of internal/exporter/otlp.
use mathlib.Core.List.Perm
use trimon.Base.{◌≡◌, refl, String, Option, none, some, [], ◌∷◌, ◌++◌, str_eq, if◌then◌else◌, arith}
use trimon.Types.{ProbeResult}
use trimon.Types.Floats.{Frac}
use trimon.Exporters.Otlp.{Attrs, build_attrs}
use trimon.Exporters.Otlp.Attributes.{AttributeSet, or_else, value_of-build_attrs}
use trimon.Tests.Exporters.{plain}

-- The last value of a key.
abbrev last_of : Attrs → String → Option String
last_of [] k = none
last_of ((k', v) ∷ attrs) k = or_else (last_of attrs k) (if str_eq k' k then some v else none)

last_of-append :
    (attrs : Attrs) (k v k' : String)
    → last_of (attrs ++ (k, v) ∷ []) k' ≡ (if str_eq k k' then some v else last_of attrs k')
last_of-append [] k v k' = ground arith
last_of-append (a ∷ attrs) k v k' = ground (arith, last_of-append attrs k v k')

last_of-AttributeSet : AttributeSet last_of
last_of-AttributeSet = record { of_none = λ k. refl; last_wins = last_of-append }

-- A label takes the place of the name of the probe.
abbrev labelled : ProbeResult Frac
labelled = record plain { labels = some (("site", "north") ∷ ("probe.name", "other") ∷ []) }

value_of-build_attrs_example :
    last_of
      (build_attrs
        (record labelled { labels = some (("probe.name", "other") ∷ ("site", "north") ∷ []) }))
      "probe.name"
    ≡ some "other"
value_of-build_attrs_example =
    value_of-build_attrs last_of last_of-AttributeSet labelled
      (("probe.name", "other") ∷ ("site", "north") ∷ []) "probe.name"
      (Perm.swap ("probe.name", "other") ("site", "north") []) (refl, (refl, tt))
