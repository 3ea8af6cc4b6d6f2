-- ===== src/Config/Validate/Accepted/HttpTimings.antt =====
-- The timing checks are skipped for HTTP probes, the ones that do not count packets included.
use trimon.Base.{◌≡◌, refl, some, eq_iff, arith, ok}
use trimon.Base.Int.{ℤ}
use trimon.Net.{Host}
use trimon.Types.{ProbeConfig, probe_type_http}
use trimon.Config.Schema.{GlobalConfig, RawProbeConfig}
use trimon.Config.Protocols.Blocks.{protocol-interval}
use trimon.Config.Validate.{
  merge_and_validate_probe, validate_targets, resolve_source_ip, merge_timings,
}
use trimon.Config.Validate.Accepted.{base, merge-Checks}

module _ (host : Host) (r : RawProbeConfig) (g : GlobalConfig) (pc : ProbeConfig) (v : ℤ) where
  abbrev retimed : RawProbeConfig
  retimed = record r { interval = some v }

  -- An HTTP probe that is accepted is accepted with any interval, zero and negative ones included,
  -- and keeps it.
  pub http_interval_unchecked :
      r.type ≡ probe_type_http
      → merge_and_validate_probe host r g ≡ ok pc
      → merge_and_validate_probe host retimed g ≡ ok (record pc { interval = v })
  unfolding merge_and_validate_probe validate_targets resolve_source_ip merge_timings
  http_interval_unchecked t h =
      let (s, c) = merge-Checks host r g pc h in
      let p = protocol-interval host r retimed (base host r g s) pc v t refl refl c.protocol in
      ground (arith, eq_iff r.type probe_type_http)
