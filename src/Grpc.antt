-- ===== src/Grpc.antt =====
-- src/pkg/grpcutil/grpcutil.go: the servers and the connections of the services, with and without
-- mutual TLS, and what a unary call over them carries. crypto/tls and crypto/x509 are a `Tls`.
pub mod Mutual
use qcontroller.Base.{
  String, ◌<>◌, Bool, true, false, not, ◌&&◌, Option, none, some, List, [], ◌∷◌, Result, ok, err,
  ◌>>=◌, if◌then◌else◌, ◌≡◌,
}
use qcontroller.Auth.Http.{Identity}
use qcontroller.Auth.Metadata.{Metadata, client_metadata, server_identity}

-- settings.v1.TLSConfig: the paths of a certificate, its key and the CA
pub record TlsConfig : Type 0 where
  pub cert : String
  pub key : String
  pub ca : String

-- tls.LoadX509KeyPair, os.ReadFile and AppendCertsFromPEM, and whether a certificate verifies against
-- a pool in a handshake.
pub record Tls : Type 1 where
  pub Cert : Type 0
  pub Pool : Type 0
  pub load_key_pair : String → String → Result String Cert
  pub read_file : String → Result String String
  pub append_certs : String → Option Pool
  pub verifies : Pool → Cert → Bool

module _ (t : Tls) where
  -- tls.Config as the two functions make it; both ask for TLS 1.3 at least.
  pub record ServerCredentials : Type 0 where
    pub certificate : t.Cert
    pub client_cas : t.Pool
    pub require_client_cert : Bool
    pub tls_13 : Bool

  pub record ClientCredentials : Type 0 where
    pub certificate : t.Cert
    pub root_cas : t.Pool
    pub tls_13 : Bool

  -- The credentials of a server and of a connection, none for plaintext. The interceptors of package
  -- auth are always there.
  abbrev pub Server : Type 0
  Server = Option ServerCredentials

  abbrev pub Connection : Type 0
  Connection = Option ClientCredentials

  -- WithTLS; the later option wins
  abbrev with_tls : List (Option TlsConfig) → Option TlsConfig → Option TlsConfig
  with_tls [] o = o
  with_tls (cfg ∷ opts) o = with_tls opts cfg

  -- loadCAPool
  unfoldable pub load_ca_pool : String → Result String t.Pool
  load_ca_pool path = elim (t.read_file path) [
    | err e ↦ err ("read CA cert " <> path <> ": " <> e)
    | ok pem ↦ elim (t.append_certs pem) [
      | none ↦ err ("failed to parse CA cert " <> path)
      | some pool ↦ ok pool
    ]
  ]

  -- The key pair and the pool that both kinds of credentials are made of.
  abbrev pub loaded : String → TlsConfig → Result String (t.Cert × t.Pool)
  loaded message cfg = elim (t.load_key_pair cfg.cert cfg.key) [
    | err e ↦ err (message <> e)
    | ok cert ↦ elim (load_ca_pool cfg.ca) [ err e ↦ err e | ok pool ↦ ok (cert, pool) ]
  ]

  -- serverCredentials
  unfoldable pub server_credentials : TlsConfig → Result String ServerCredentials
  server_credentials cfg = elim (loaded "load server key pair: " cfg) [
    | err e ↦ err e
    | ok (cert, pool) ↦ ok (record {
      certificate = cert;
      client_cas = pool;
      require_client_cert = true;
      tls_13 = true;
    })
  ]

  -- clientCredentials
  unfoldable pub client_credentials : TlsConfig → Result String ClientCredentials
  client_credentials cfg = elim (loaded "load client key pair: " cfg) [
    | err e ↦ err e
    | ok (cert, pool) ↦ ok (record { certificate = cert; root_cas = pool; tls_13 = true })
  ]

  abbrev if_configured {ℓ} :
      {C : Type ℓ} → (TlsConfig → Result String C) → Option TlsConfig → Result String (Option C)
  if_configured make none = ok none
  if_configured make (some cfg) = elim (make cfg) [ err e ↦ err e | ok c ↦ ok (some c) ]

  -- NewServer and Dial with their options
  unfoldable pub new_server : List (Option TlsConfig) → Result String Server
  new_server opts = if_configured server_credentials (with_tls opts none)

  unfoldable pub dial : List (Option TlsConfig) → Result String Connection
  dial opts = if_configured client_credentials (with_tls opts none)

  -- What is relied on of a handshake of crypto/tls that succeeds: a server with TLS takes no plaintext
  -- for it, one that requires a certificate has verified the client's, and the client the server's.
  pub record IsHandshake (shake : Connection → Server → Bool) : Type 0 where
    pub encrypted : (s : ServerCredentials) → shake none (some s) ≡ false
    pub verifies_client :
        (c : ClientCredentials) (s : ServerCredentials)
        → shake (some c) (some s) ≡ true
        → s.require_client_cert ≡ true
        → t.verifies s.client_cas c.certificate ≡ true
    pub verifies_server :
        (c : ClientCredentials) (s : ServerCredentials)
        → shake (some c) (some s) ≡ true
        → t.verifies c.root_cas s.certificate ≡ true

  -- A unary call through the interceptors, over the handshake `shake`: the identity that the handler sees, or none if the call
  -- does not reach it.
  unfoldable pub call :
      (Connection → Server → Bool)
      → Connection
      → Server
      → Option Identity
      → Metadata
      → Option (Option Identity)
  call shake c s id md =
      if shake c s then some (server_identity (client_metadata id md) none) else none
