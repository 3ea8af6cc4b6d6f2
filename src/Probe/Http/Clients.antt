-- ===== src/Probe/Http/Clients.antt =====
-- internal/probe/http/http.go: the clients that New makes, one for each name among the targets one
-- for all addresses, the request of one work item and a run over all targets.
pub mod Served
use Prim.Native.String.{◌++◌ as ◌<>◌}
use trimon.Base.{
  ℕ, String, Bool, true, false, not, Option, none, some, List, [], ◌∷◌, ◌++◌, str_eq, codes, any,
  ◌==◌, if◌then◌else◌, Result, ok, err, ◌>>=◌, ◌≡◌, refl, ◌∙◌, sym, All, All-append, All-imp,
  Bool-cases, Option-cases, arith, eq_iff, inl, inr,
}
use trimon.Base.Int.{ℤ, pos, eqb_ℤ}
use trimon.Net.{Host, Ip, is_some}
use trimon.Types.{ProbeConfig, HttpConfig, ProbeResult}
use trimon.Types.Floats.{FloatOps}
use trimon.Probe.Http.{Exchange, probe_one}
use trimon.Config.Schema.{Error, nil_dereference}
use trimon.Probe.Targets.{
  WorkItem, run_work_items, expand_addrs, expand_name, expand_entry, expand_targets, note_seen,
  is_full,
}

-- An empty server name leaves Go's default, the host of the URL.
pub record Client : Type 0 where
  pub server_name : String
  pub local_addr : Option Ip
  pub timeout : ℤ
  pub use_last_response : Bool

abbrev pub Clients : Type 0
Clients = List (String × Client)

unfoldable pub lookup : String → Clients → Option Client
lookup k [] = none
lookup k ((k', c) ∷ clients) = if str_eq k k' then some c else lookup k clients

module _ (host : Host) where
  abbrev or_nil : Option Ip → Ip
  or_nil none = []
  or_nil (some ip) = ip

  unfoldable pub new_client : ProbeConfig → HttpConfig → String → Client
  new_client cfg hcfg fqdn = record {
    server_name = fqdn;
    local_addr =
        if not (str_eq cfg.source_ip "") then some (or_nil (host.parse_ip cfg.source_ip)) else none;
    timeout = cfg.timeout;
    use_last_response = not hcfg.follow_redirects;
  }

  -- The `fqdn` of a target.
  unfoldable pub client_key : String → String
  client_key target = if is_some (host.parse_ip target) then "" else target

  -- `hcfg.FollowRedirects` dereferences the block, for each new client.
  unfoldable pub add_client : ProbeConfig → String → Clients → Result Error Clients
  unfolding lookup new_client
  add_client cfg fqdn clients =
      if is_some (lookup fqdn clients) then ok clients else elim cfg.http [
        | none ↦ err nil_dereference
        | some hcfg ↦ ok ((fqdn, new_client cfg hcfg fqdn) ∷ clients)
      ]

  unfoldable pub add_clients : ProbeConfig → List String → Clients → Result Error Clients
  unfolding add_client client_key
  add_clients cfg [] clients = ok clients
  add_clients cfg (target ∷ targets) clients = do
    clients' ← add_client cfg (client_key target) clients
    add_clients cfg targets clients'

  unfoldable pub new : ProbeConfig → Result Error Clients
  unfolding add_clients
  new cfg = add_clients cfg cfg.targets []

-- `net.JoinHostPort` puts an address with a colon in brackets.
abbrev bracket : String → String
bracket ip = if any (λ c. c == b':') (codes ip) then "[" <> ip <> "]" else ip

-- The address, the Host header if it is set, and the client, which may be nil.
pub record Request : Type 0 where
  pub method : String
  pub url : String
  pub host : Option String
  pub client : Option Client

module _ (itoa : ℤ → String) where
  -- Without a port the colon of the joined pair is trimmed.
  unfoldable pub target_url : HttpConfig → WorkItem → String
  target_url hcfg wi =
      let host =
        if not (eqb_ℤ hcfg.port (pos 0))
        then bracket wi.ip <> ":" <> itoa hcfg.port
        else bracket wi.ip in
      hcfg.scheme <> "://" <> host <> hcfg.path

  unfoldable pub request : HttpConfig → Clients → WorkItem → Request
  unfolding target_url lookup
  request hcfg clients wi = record {
    method = hcfg.method;
    url = target_url hcfg wi;
    host = if not (str_eq wi.fqdn "") then some wi.fqdn else none;
    client = lookup wi.fqdn clients;
  }

  module _ {F : Type 0} (fl : FloatOps F) where
    -- `perform slot r` is what the request r comes to in that slot.
    unfoldable pub run :
        ProbeResult F
        → (ℕ → ℕ)
        → ProbeConfig
        → HttpConfig
        → Clients
        → (ℕ → Request → Exchange)
        → Host
        → List ℕ
        → List (ProbeResult F)
    run zero_result now cfg hcfg clients perform host order =
        run_work_items host cfg.targets cfg.max_resolved_ips zero_result
          (λ slot wi. probe_one fl (now slot) cfg hcfg wi (perform slot (request hcfg clients wi)))
          order
