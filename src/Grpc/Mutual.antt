-- ===== src/Grpc/Mutual.antt =====
-- A server with TLS is reached by those alone whose certificate its CA has signed.
use qcontroller.Base.{
  ◌≡◌, arith, Bool, true, Option, none, some, [], ◌∷◌, ok, Bool-cases, Result-cases, inl, inr,
}
use qcontroller.Auth.Http.{Identity}
use qcontroller.Auth.Metadata.{Metadata}
use qcontroller.Grpc.{
  Tls, TlsConfig, ServerCredentials, Server, Connection, load_ca_pool, server_credentials,
  new_server, IsHandshake, call,
}

module _ (t : Tls) where
  -- The connection presents a certificate that verifies against the pool of the server's CA file, and
  -- accepts the server's own.
  abbrev pub IsMutual : TlsConfig → Connection t → Type 0
  IsMutual cfg none = ⊥
  IsMutual cfg (some c) =
      (pool : t.Pool) × (cert : t.Cert) × (load_ca_pool t cfg.ca ≡ ok pool)
      × (t.load_key_pair cfg.cert cfg.key ≡ ok cert)
      × (t.verifies pool c.certificate ≡ true)
      × (t.verifies c.root_cas cert ≡ true)

  reached :
      (shake : Connection t → Server t → Bool)
      → IsHandshake t shake
      → (cfg : TlsConfig) (s : ServerCredentials t) (c : Connection t)
      → server_credentials t cfg ≡ ok s
      → shake c (some s) ≡ true
      → IsMutual cfg c
  unfolding server_credentials
  reached shake h cfg s none e f = absurd (cc (f, h.encrypted s))
  reached shake h cfg s (some c) e f = elim (Result-cases (t.load_key_pair cfg.cert cfg.key)) [
    | inl (x, k) ↦ absurd (ground (arith, e, k))
    | inr (cert, k) ↦ elim (Result-cases (load_ca_pool t cfg.ca)) [
      | inl (x, g) ↦ absurd (ground (arith, e, k, g))
      | inr (pool, g) ↦ (
        pool,
        cert,
        g,
        k,
        ground (arith, e, k, g, h.verifies_client c s f),
        ground (arith, e, k, g, h.verifies_server c s f),
      )
    ]
  ]

  -- Over a handshake that does what crypto/tls documents: a call, with any identity or none and any
  -- metadata, that reaches the handler of a server that was made with a TLS configuration came over
  -- a connection with TLS, whose certificate verifies against the CA of the configuration and which
  -- accepts the server's.
  pub call-IsMutual :
      (shake : Connection t → Server t → Bool)
      → IsHandshake t shake
      → (cfg : TlsConfig) (s : Server t) (c : Connection t) (id : Option Identity) (md : Metadata)
        (seen : Option Identity)
      → new_server t (some cfg ∷ []) ≡ ok s
      → call t shake c s id md ≡ some seen
      → IsMutual cfg c
  unfolding new_server call
  call-IsMutual shake lawful cfg s c id md seen e h =
      elim (Result-cases (server_credentials t cfg)) [
        | inl (x, f) ↦ absurd (ground (arith, e, f))
        | inr (sc, f) ↦ elim (Bool-cases (shake c (some sc))) [
          | inr g ↦ absurd (ground (arith, e, f, g, h))
          | inl g ↦ reached shake lawful cfg sc c f g
        ]
      ]
