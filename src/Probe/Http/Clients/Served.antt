-- ===== src/Probe/Http/Clients/Served.antt =====
-- Every item that a run may probe has a client, and the right one.
use trimon.Base.{
  String, Bool, true, false, Option, none, some, List, [], ◌∷◌, str_eq, if◌then◌else◌, ok, ◌⊎◌,
  contains, subst, ◌≡◌, refl, ap, All, All-append, All-imp, Bool-cases, arith, eq_iff, inl, inr,
  >>=-eq-ok,
}
use trimon.Net.{Host, is_some}
use trimon.Base.Int.{ℤ}
use trimon.Types.{ProbeConfig, HttpConfig}
use trimon.Probe.Targets.{
  WorkItem, note_seen, is_full, expand_addrs, expand_name, expand_entry, expand_targets,
}
use trimon.Probe.Http.Clients.{
  Clients, lookup, new_client, client_key, add_client, add_clients, new,
}

-- The items of one entry carry its key.
abbrev Keyed : String → WorkItem → Type 0
Keyed key wi = wi.fqdn ≡ key

if-Keyed :
    (entry : String) (b : Bool) (xs ys : List WorkItem)
    → All (Keyed entry) xs
    → All (Keyed entry) ys
    → All (Keyed entry) (if b then xs else ys)
if-Keyed entry true xs ys h k = h
if-Keyed entry false xs ys h k = k

expand_addrs-Keyed :
    (entry : String) (limit : ℤ) (seen addrs : List String)
    → All (Keyed entry) (expand_addrs entry limit seen addrs)
unfolding expand_addrs
expand_addrs-Keyed entry limit seen [] = tt
expand_addrs-Keyed entry limit seen (addr ∷ addrs) =
    let seen' = note_seen seen addr in
    let rest = expand_addrs-Keyed entry limit seen' addrs in
    if-Keyed entry (contains seen addr) (expand_addrs entry limit seen' addrs) _ rest
      (if-Keyed entry (is_full limit seen') _ _ (refl, tt) (refl, rest))

expand_name-Keyed :
    (entry : String) (limit : ℤ) (addrs : Option (List String))
    → All (Keyed entry) (expand_name entry limit addrs)
unfolding expand_name
expand_name-Keyed entry limit none = (refl, tt)
expand_name-Keyed entry limit (some []) = (refl, tt)
expand_name-Keyed entry limit (some (addr ∷ addrs)) =
    expand_addrs-Keyed entry limit [] (addr ∷ addrs)

module _ (host : Host) where
  expand_entry-Keyed :
      (limit : ℤ) (entry : String)
      → All (Keyed (client_key host entry)) (expand_entry host limit entry)
  unfolding expand_entry client_key
  expand_entry-Keyed limit entry = elim (Bool-cases (is_some (host.parse_ip entry))) [
    | inl e ↦ rw e (refl, tt)
    | inr e ↦ rw e (expand_name-Keyed entry limit (host.lookup_host entry))
  ]

  module _ (cfg : ProbeConfig) (hcfg : HttpConfig) where
    -- The client of a key is the one made for it.
    abbrev pub IsServed : Clients → String → Type 0
    IsServed clients key = lookup key clients ≡ some (new_client host cfg hcfg key)

    -- No key has another client than its own.
    abbrev IsRight : Clients → Type 0
    IsRight clients = (k : String) → (lookup k clients ≡ none) ⊎ IsServed clients k

    abbrev Keeps : Clients → Clients → Type 0
    Keeps clients clients' = (k : String) → IsServed clients k → IsServed clients' k

    cons-IsRight :
        (key : String) (clients : Clients)
        → IsRight clients
        → lookup key clients ≡ none
        → let clients' = (key, new_client host cfg hcfg key) ∷ clients in
          IsRight clients' × IsServed clients' key × Keeps clients clients'
    unfolding lookup
    cons-IsRight key clients r n = (
      λ k. elim (Bool-cases (str_eq k key)) [
        | inl e ↦ inr (let same = (eq_iff k key).0 e in rw (e, same) refl)
        | inr e ↦ rw e (r k)
      ],
      (let e : str_eq key key ≡ true = (eq_iff key key).1 refl in rw e refl),
      λ k h. elim (Bool-cases (str_eq k key)) [
        | inl e ↦
            let same = (eq_iff k key).0 e in absurd (let m = ap (λ x. lookup x clients) same in cc)
        | inr e ↦ rw e h
      ],
    )

    add_client-IsServed :
        (key : String) (clients clients' : Clients)
        → cfg.http ≡ some hcfg
        → IsRight clients
        → add_client host cfg key clients ≡ ok clients'
        → IsRight clients' × IsServed clients' key × Keeps clients clients'
    unfolding add_client
    add_client-IsServed key clients clients' block r h = elim (r key) [
      | inr e ↦
          let same : clients ≡ clients' = ground arith in
          subst (λ x. IsRight x × IsServed x key × Keeps clients x) same (r, e, λ k s. s)
      | inl e ↦
          let same : (key, new_client host cfg hcfg key) ∷ clients ≡ clients' = ground arith in
          subst (λ x. IsRight x × IsServed x key × Keeps clients x) same
            (cons-IsRight key clients r e)
    ]

    add_clients-IsServed :
        (targets : List String) (clients clients' : Clients)
        → cfg.http ≡ some hcfg
        → IsRight clients
        → add_clients host cfg targets clients ≡ ok clients'
        → All (λ t. IsServed clients' (client_key host t)) targets × Keeps clients clients'
    unfolding add_clients
    add_clients-IsServed [] clients clients' block r h =
        let same : clients ≡ clients' = ground arith in
        (tt, subst (λ x. Keeps clients x) same (λ k s. s))
    add_clients-IsServed (target ∷ targets) clients clients' block r h =
        let (one, e, rest) = >>=-eq-ok (add_client host cfg (client_key host target) clients) _ h in
        let (r', s, k) = add_client-IsServed (client_key host target) clients one block r e in
        let (all, k') = add_clients-IsServed targets one clients' block r' rest in
        ((k' (client_key host target) s, all), λ x y. k' x (k x y))

    expand_targets-IsServed :
        (clients : Clients) (limit : ℤ) (targets : List String)
        → All (λ t. IsServed clients (client_key host t)) targets
        → All (λ wi. IsServed clients wi.fqdn) (expand_targets host targets limit)
    unfolding expand_targets
    expand_targets-IsServed clients limit [] h = tt
    expand_targets-IsServed clients limit (t ∷ ts) h =
        All-append (λ wi. IsServed clients wi.fqdn) (expand_entry host limit t)
          (expand_targets host ts limit)
          (All-imp (Keyed (client_key host t)) (λ wi. IsServed clients wi.fqdn) (λ wi e. rw e h.0)
            (expand_entry host limit t) (expand_entry-Keyed limit t))
          (expand_targets-IsServed clients limit ts h.1)

    add_client-ok :
        (key : String) (clients : Clients)
        → cfg.http ≡ some hcfg
        → (c : Clients) × (add_client host cfg key clients ≡ ok c)
    unfolding add_client
    add_client-ok key clients block = elim (Bool-cases (is_some (lookup key clients))) [
      | inl e ↦ (clients, rw e refl)
      | inr e ↦ ((key, new_client host cfg hcfg key) ∷ clients, rw (e, block) refl)
    ]

    add_clients-ok :
        (targets : List String) (clients : Clients)
        → cfg.http ≡ some hcfg
        → (c : Clients) × (add_clients host cfg targets clients ≡ ok c)
    unfolding add_clients
    add_clients-ok [] clients block = (clients, refl)
    add_clients-ok (t ∷ ts) clients block =
        let (one, e) = add_client-ok (client_key host t) clients block in
        let (c, f) = add_clients-ok ts one block in (c, rw e f)

    -- With an http block, New makes clients (it does not dereference nil), and each work item of a run
    -- finds the client that was made for its name: no request goes through a nil client, and the TLS
    -- server name is the name of the item.
    pub new-IsServed :
        cfg.http ≡ some hcfg
        → (clients : Clients) × (new host cfg ≡ ok clients)
          × All
              (λ wi. IsServed clients wi.fqdn)
              (expand_targets host cfg.targets cfg.max_resolved_ips)
    unfolding new lookup
    new-IsServed block =
        let (clients, e) = add_clients-ok cfg.targets [] block in
        let (served, keeps) = add_clients-IsServed cfg.targets [] clients block (λ k. inl refl) e in
        (clients, e, expand_targets-IsServed clients cfg.max_resolved_ips cfg.targets served)
