-- ===== src/Exporters/Otlp/Security.antt =====
-- How the connection to the collector is secured, and what can keep it from being built.
use trimon.Base.{
  ◌≡◌, refl, ◌⊎◌, inl, inr, ◌≢◌, true, false, Option, none, some, List, [], ◌∷◌, str_eq, eq_iff,
  arith, ok, Bool-cases, Option-cases, Result-cases, ℕ,
}
use trimon.Config.Schema.{OtlpExporterConfig, OtlpTlsConfig}
use trimon.Exporters.Otlp.Transport.{
  TlsConfig, ClientOption, Sdk, load_certificates, load_authorities, build_tls_config,
  client_options, build_grpc, build_http, build_exporter, with_endpoint, with_retry, with_insecure,
  with_tls,
}

module _ {Certificate Pool Client : Type 0} (sdk : Sdk Certificate Pool Client) where
  -- The certificate and the authorities are those of the files.
  pub record IsFromFiles (tls : OtlpTlsConfig) (t : TlsConfig Certificate Pool) : Type 0 where
    pub own :
        (cert : Certificate) × (sdk.load_key_pair tls.cert_file tls.key_file ≡ some cert)
        × (t.certificates ≡ cert ∷ [])
    pub system : tls.ca_file ≡ "" → t.root_cas ≡ none
    pub authorities :
        tls.ca_file ≢ ""
        → (ca : List ℕ) × (pool : Pool) × (sdk.read_file tls.ca_file ≡ some ca)
          × (sdk.append_certs ca ≡ some pool)
          × (t.root_cas ≡ some pool)

  load_authorities-ok :
      (tls : OtlpTlsConfig) (roots : Option Pool)
      → load_authorities sdk tls ≡ ok roots
      → (tls.ca_file ≢ "")
      → (ca : List ℕ) × (pool : Pool) × (sdk.read_file tls.ca_file ≡ some ca)
        × (sdk.append_certs ca ≡ some pool)
        × (roots ≡ some pool)
  unfolding load_authorities
  load_authorities-ok tls roots h n =
      let f : str_eq tls.ca_file "" ≡ false = ground (arith, eq_iff tls.ca_file "", n) in
      elim (Option-cases (sdk.read_file tls.ca_file)) [
        | inl a ↦ absurd (ground arith)
        | inr (ca, a) ↦ elim (Option-cases (sdk.append_certs ca)) [
          | inl b ↦ absurd (ground arith)
          | inr (pool, b) ↦ (ca, pool, a, b, ground arith)
        ]
      ]

  build_tls_config-IsFromFiles :
      (tls : OtlpTlsConfig) (t : TlsConfig Certificate Pool)
      → tls.cert_file ≢ ""
      → build_tls_config sdk tls ≡ ok t
      → IsFromFiles tls t
  unfolding build_tls_config load_certificates load_authorities
  build_tls_config-IsFromFiles tls t n h =
      let f : str_eq tls.cert_file "" ≡ false = ground (arith, eq_iff tls.cert_file "", n) in
      elim (Option-cases (sdk.load_key_pair tls.cert_file tls.key_file)) [
        | inl a ↦ absurd (ground arith)
        | inr (cert, a) ↦ elim (Result-cases (load_authorities sdk tls)) [
          | inr (e, b) ↦ absurd (ground arith)
          | inl (roots, b) ↦ record {
            own = (cert, a, ground arith);
            system = λ s. ground (arith, eq_iff tls.ca_file "", s);
            authorities = λ m.
                let (ca, pool, p, q, r) = load_authorities-ok tls roots b m in
                (ca, pool, p, q, ground arith);
          }
        ]
      ]

  -- The options that follow the endpoint and the retries.
  abbrev pub Secured : OtlpExporterConfig → List (ClientOption Certificate Pool) → Type 0
  Secured cfg more =
      ((cfg.insecure ≡ true) × (more ≡ with_insecure ∷ []))
      ⊎ (((cfg.insecure ≡ false)
            × (cfg.tls.cert_file ≢ "")
            × (t : TlsConfig Certificate Pool) × IsFromFiles cfg.tls t
            × (more ≡ with_tls t ∷ []))
          ⊎ ((cfg.insecure ≡ false) × (cfg.tls.cert_file ≡ "") × (more ≡ [])))

  client_options-Secured :
      (cfg : OtlpExporterConfig) (opts : List (ClientOption Certificate Pool))
      → client_options sdk cfg ≡ ok opts
      → (more : List (ClientOption Certificate Pool)) × (opts
          ≡ with_endpoint cfg.endpoint
            ∷ with_retry cfg.retry.enabled cfg.retry.max_elapsed_time
            ∷ more)
        × Secured cfg more
  unfolding client_options
  client_options-Secured cfg opts h = elim (Bool-cases cfg.insecure) [
    | inl i ↦ (with_insecure ∷ [], ground arith, inl (i, refl))
    | inr i ↦ elim (Bool-cases (str_eq cfg.tls.cert_file "")) [
      | inl c ↦ ([], ground arith, inr (inr (i, ground (arith, eq_iff cfg.tls.cert_file ""), refl)))
      | inr c ↦ elim (Result-cases (build_tls_config sdk cfg.tls)) [
        | inr (e, b) ↦ absurd (ground arith)
        | inl (t, b) ↦
            let n : cfg.tls.cert_file ≢ "" = λ e. ground (arith, eq_iff cfg.tls.cert_file "") in
            (
              with_tls t ∷ [],
              ground arith,
              inr (inl (i, n, t, build_tls_config-IsFromFiles cfg.tls t n b, refl)),
            )
      ]
    ]
  ]

  -- The client is of the kind that the protocol names.
  abbrev pub MadeFrom : OtlpExporterConfig → List (ClientOption Certificate Pool) → Client → Type 0
  MadeFrom cfg opts client =
      ((cfg.protocol ≡ "grpc") × (sdk.new_grpc opts ≡ some client))
      ⊎ ((cfg.protocol ≡ "http") × (sdk.new_http opts ≡ some client))

  -- Where buildExporter succeeds, the protocol is grpc or http and the client of that protocol was
  -- made with the endpoint and the retries of the configuration, and then: without TLS exactly if
  -- `insecure` is set; otherwise, with a certificate file, with the certificate of its key pair and
  -- the authorities of the CA file, those of the system if there is no CA file; and otherwise with
  -- the SDK's own TLS.
  pub build_exporter-Secured :
      (cfg : OtlpExporterConfig) (client : Client)
      → build_exporter sdk cfg ≡ ok client
      → (more : List (ClientOption Certificate Pool)) × MadeFrom cfg
          (with_endpoint cfg.endpoint
            ∷ with_retry cfg.retry.enabled cfg.retry.max_elapsed_time
            ∷ more)
          client
        × Secured cfg more
  unfolding build_exporter build_grpc build_http
  build_exporter-Secured cfg client h = elim (Result-cases (client_options sdk cfg)) [
    | inr (e, b) ↦ absurd (ground arith)
    | inl (opts, b) ↦
        let (more, s, t) = client_options-Secured cfg opts b in
        (more, ground (arith, s, eq_iff cfg.protocol "grpc", eq_iff cfg.protocol "http"), t)
  ]
