-- ===== src/Probe/Runs.antt =====
-- internal/probe/tcp/tcp.go and internal/probe/udp/udp.go: `Run` of the probes of a port.
use trimon.Base.{
  ℕ, ◌≤◌, ◌<◌, ◌≡◌, refl, ap, ◌∙◌, sym, subst, String, Bool, true, false, inl, inr, List, map,
  length, All,
}
use trimon.Base.Int.{pos}
use trimon.Net.{Host}
use trimon.Types.{ProbeConfig, TcpConfig, UdpConfig, ProbeResult}
use trimon.Types.Floats.{FloatOps, FloatLaws, max_exact}
use trimon.Probe.Targets.{WorkItem, expand_targets, run_work_items}
use trimon.Probe.Targets.Slots.{IsComplete, map-enumerate, All-enumerate, run_work_items-map}
use trimon.Probe.Run.{Attempt, blank, run_loop}
use trimon.Probe.Run.Outcome.{new_result-cases}
use trimon.Probe.Run.Identity.{identity, identity_of, run_loop-identity}
use trimon.Probe.Ports.{Answer, port_attempt, set_port_open, port_probe}
use trimon.Probe.Ports.PortOpen.{Encoding, port_probe-Encoding}
use trimon.Probe.Tcp.{Network, attempt_fn, probe_one as tcp_probe_one, run as tcp_run}
use trimon.Probe.Udp.{Socket, udp_attempt, probe_one as udp_probe_one, run as udp_run}

module _ {F : Type 0} (fl : FloatOps F) where
  set_port_open-identity :
      (out : ProbeResult F × Bool × Bool) → identity (set_port_open fl out) ≡ identity out.0
  unfolding set_port_open
  set_port_open-identity (r, true, got) = refl
  set_port_open-identity (r, false, got) = refl

  port_probe-identity :
      (probe_type : String) (now : ℕ) (cfg : ProbeConfig) (is_done : ℕ → Bool) (answer : ℕ → Answer)
      (wi : WorkItem)
      → identity (port_probe fl probe_type now cfg is_done answer wi)
        ≡ identity_of probe_type cfg wi
  unfolding port_probe
  port_probe-identity probe_type now cfg is_done answer wi =
      let fresh = blank fl now cfg wi probe_type in
      let attempt : ℕ → Bool → Attempt × Bool = λ i got. port_attempt (answer i) got in
      elim (new_result-cases fl now cfg wi probe_type) [
        | inl lost ↦ rw lost refl
        | inr found ↦ rw found (
            set_port_open-identity (run_loop fl is_done attempt fresh cfg.count false)
            ∙ run_loop-identity fl is_done attempt (identity_of probe_type cfg wi) fresh cfg.count
                false refl)
      ]

  -- A result for each item, under its probe and its address, and each well encoded.
  abbrev pub Reports : String → ProbeConfig → List WorkItem → List (ProbeResult F) → Type 0
  Reports probe_type cfg items out =
      (map identity out ≡ map (identity_of probe_type cfg) items) × All Encoding out

  module _ (host : Host) (zero_result : ProbeResult F) (cfg : ProbeConfig) (now : ℕ → ℕ)
      (is_done : ℕ → ℕ → Bool) (order : List ℕ) where
    port_run-identity :
        (probe_type : String) (answer : ℕ → WorkItem → ℕ → Answer)
        → IsComplete (length (expand_targets host cfg.targets cfg.max_resolved_ips)) order
        → map identity (
            run_work_items host cfg.targets cfg.max_resolved_ips zero_result
              (λ slot wi.
                port_probe fl probe_type (now slot) cfg (is_done slot) (answer slot wi) wi)
              order)
          ≡ map (identity_of probe_type cfg) (expand_targets host cfg.targets cfg.max_resolved_ips)
    port_run-identity probe_type answer c =
        let one : ℕ → WorkItem → ProbeResult F =
          λ slot wi. port_probe fl probe_type (now slot) cfg (is_done slot) (answer slot wi) wi in
        ap (map identity)
          (run_work_items-map host zero_result one order cfg.targets cfg.max_resolved_ips c)
        ∙ map-enumerate (λ (i, w). one i w) identity (identity_of probe_type cfg)
            (λ i w. port_probe-identity probe_type (now i) cfg (is_done i) (answer i w) w) 0
            (expand_targets host cfg.targets cfg.max_resolved_ips)

    pub tcp_run-identity :
        (tcp : TcpConfig) (nets : ℕ → ℕ → Network)
        → IsComplete (length (expand_targets host cfg.targets cfg.max_resolved_ips)) order
        → map identity (tcp_run host fl zero_result now cfg tcp is_done nets order)
          ≡ map (identity_of "tcp" cfg) (expand_targets host cfg.targets cfg.max_resolved_ips)
    unfolding tcp_run tcp_probe_one
    tcp_run-identity tcp nets c =
        port_run-identity "tcp" (λ slot wi i. attempt_fn host cfg tcp (nets slot i) wi.ip) c

    pub udp_run-identity :
        (udp : UdpConfig) (sockets : ℕ → ℕ → Socket)
        → IsComplete (length (expand_targets host cfg.targets cfg.max_resolved_ips)) order
        → map identity (udp_run fl host zero_result now cfg udp is_done sockets order)
          ≡ map (identity_of "udp" cfg) (expand_targets host cfg.targets cfg.max_resolved_ips)
    unfolding udp_run udp_probe_one
    udp_run-identity udp sockets c =
        port_run-identity "udp"
          (λ slot wi i. udp_attempt udp.payload udp.expected_response (sockets slot i)) c

  module _ (laws : FloatLaws fl) (host : Host) (zero_result : ProbeResult F) (cfg : ProbeConfig)
      (now : ℕ → ℕ) (is_done : ℕ → ℕ → Bool) (order : List ℕ) (count : ℕ) where
    port_run-Reports :
        (probe_type : String) (answer : ℕ → WorkItem → ℕ → Answer)
        → IsComplete (length (expand_targets host cfg.targets cfg.max_resolved_ips)) order
        → cfg.count ≡ pos count
        → 0 < count
        → count ≤ max_exact
        → Reports probe_type cfg (expand_targets host cfg.targets cfg.max_resolved_ips) (
            run_work_items host cfg.targets cfg.max_resolved_ips zero_result
              (λ slot wi.
                port_probe fl probe_type (now slot) cfg (is_done slot) (answer slot wi) wi)
              order)
    port_run-Reports probe_type answer c e h b =
        let one : ℕ → WorkItem → ProbeResult F =
          λ slot wi. port_probe fl probe_type (now slot) cfg (is_done slot) (answer slot wi) wi in
        let items = expand_targets host cfg.targets cfg.max_resolved_ips in
        (
          port_run-identity host zero_result cfg now is_done order probe_type answer c,
          subst (All Encoding)
              (sym
                (run_work_items-map host zero_result one order cfg.targets cfg.max_resolved_ips c))
              (All-enumerate (λ (i, w). one i w) Encoding
                (λ i w.
                  port_probe-Encoding fl (is_done i) (answer i w) laws probe_type (now i) cfg w
                    count e h b)
                0 items),
        )

    -- A TCP or UDP probe with a count from 1 to 2^53 gives, in whatever order its goroutines end,
    -- provided each slot's does and no other, one result for each work item of its targets, in
    -- their order, under the probe's name and labels and the item's address; and each result reports no port state exactly if
    -- its status is error, and an open port only together with an up status, so that "down but
    -- open" does not occur.
    pub run-Reports :
        (tcp : TcpConfig) (udp : UdpConfig) (nets : ℕ → ℕ → Network) (sockets : ℕ → ℕ → Socket)
        → IsComplete (length (expand_targets host cfg.targets cfg.max_resolved_ips)) order
        → cfg.count ≡ pos count
        → 0 < count
        → count ≤ max_exact
        → let items = expand_targets host cfg.targets cfg.max_resolved_ips in
          Reports "tcp" cfg items (tcp_run host fl zero_result now cfg tcp is_done nets order)
          × Reports "udp" cfg items (udp_run fl host zero_result now cfg udp is_done sockets order)
    unfolding tcp_run tcp_probe_one udp_run udp_probe_one
    run-Reports tcp udp nets sockets c e h b = (
      port_run-Reports "tcp" (λ slot wi i. attempt_fn host cfg tcp (nets slot i) wi.ip) c e h b,
      port_run-Reports "udp"
          (λ slot wi i. udp_attempt udp.payload udp.expected_response (sockets slot i)) c e h b,
    )
