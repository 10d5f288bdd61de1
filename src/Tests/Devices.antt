-- ===== src/Tests/Devices.antt =====
-- The theorems on the raw connections and on the gateway of the orchestrator at concrete inputs.
use qcontroller.Base.{
  ℕ, String, Bool, false, ◌&&◌, ◌≡◌, arith, none, some, true, [], ◌∷◌, ok, err, refl, if◌then◌else◌,
  ◌==◌, eqb, Bool-cases, inl, inr, subst, Result,
}
use mathlib.Core.List.{cons≢nil}
use qcontroller.Network.Packets.{Bytes}
use qcontroller.Network.Frame.{copied}
use qcontroller.Network.Conn.{Kernel, new_bpf_conn, attach, immediate, filter, nonblocking}
use qcontroller.Network.Conn.Closes.{left_open, held, WasAsked, new_bpf_conn-closes}
use qcontroller.Network.Ip.{Address, Subnet, contains, equal, mask_ip}
use qcontroller.Commands.Platform.{
  Host, MacosSettings, bridged, Scanned, vmnet_bridged, choose_network, build_platform_config,
  get_bridge_interface, NetworkSettings, LinuxConfig, new_linux_config,
}
use qcontroller.Commands.Platform.Agrees.{AreSameNetwork, choose_network-build_platform_config}
use qcontroller.Commands.Platform.Inside.{IsCidr, IsOneNetwork, new_linux_config-IsOneNetwork}
use qcontroller.Auth.Http.{Identity, Request, with_identity}
use qcontroller.Auth.Middleware.{middleware}
use qcontroller.Auth.Metadata.{client_metadata, server_identity}
use qcontroller.Grpc.{
  Tls, TlsConfig, Server, Connection, IsHandshake, new_server, call, server_credentials,
  load_ca_pool,
}
use qcontroller.Grpc.Mutual.{IsMutual, call-IsMutual}
use qcontroller.Auth.Guards.{require_csrf_header}
use qcontroller.Auth.Oidc.{OidcVerifier, Session, verify}
use qcontroller.Auth.Discovery.{AuthConfig}
use qcontroller.Commands.Gateway.{Gateway, set_up, serve, exempt}
use qcontroller.Commands.Gateway.Gate.{IsAdmitted, IsIntended, serve-IsAdmitted}

-- The first device is taken, and the kernel refuses to make the second one immediate.
abbrev busy : Kernel
busy = record {
  descriptor = λ name. if name == "/dev/bpf1" then some 7 else none;
  ask = λ fd a. elim a [ immediate ↦ some "EINVAL" | _ ↦ none ];
  buf_len = 4096;
  assembles = none;
}

abbrev device : ℕ → String
device n = if eqb n 0 then "/dev/bpf0" else "/dev/bpf1"

abbrev en0 : Bytes
en0 = 101 ∷ 110 ∷ 48 ∷ []

new_bpf_conn-closes_example :
    (left_open (new_bpf_conn busy device en0).1 ≡ held (new_bpf_conn busy device en0).0)
    × WasAsked busy
        (attach (copied 16 en0) ∷ immediate ∷ filter ∷ nonblocking ∷ [])
        (new_bpf_conn busy device en0).0
new_bpf_conn-closes_example = new_bpf_conn-closes busy device en0

abbrev lan : Subnet
lan = record { ip = 10 ∷ 0 ∷ 0 ∷ 0 ∷ []; mask = 255 ∷ 255 ∷ 255 ∷ 0 ∷ [] }

-- A host that reads three addresses of one network, and prints a network as one text.
abbrev address_of : String → Address
address_of s = if s == "10.0.0.1/24" then 10 ∷ 0 ∷ 0 ∷ 1 ∷ [] else 10 ∷ 0 ∷ 0 ∷ 2 ∷ []

abbrev host : Host
host = record {
  parse_cidr = λ s. if s == "" then err "invalid CIDR address" else ok (address_of s, lan);
  mask_text = λ m. "255.255.255.0";
  net_text = λ n. "10.0.0.0/24";
  to4 = λ a. some a;
  default_interface = ok "en0";
  addresses = λ i. ok (some (10 ∷ 0 ∷ 0 ∷ 2 ∷ [], lan) ∷ []);
}

abbrev bridged_settings : MacosSettings
bridged_settings = record { mode = bridged; bridged_interface = none; shared_network = none }

abbrev on_en0 : Scanned
on_en0 = record { subnet = lan; ifc_name = "en0"; dns_listen_ip = some (10 ∷ 0 ∷ 0 ∷ 2 ∷ []) }

choose_network-build_platform_config_example : AreSameNetwork host on_en0 (vmnet_bridged "en0")
unfolding choose_network build_platform_config get_bridge_interface
choose_network-build_platform_config_example =
    choose_network-build_platform_config host (some bridged_settings) on_en0 (vmnet_bridged "en0")
      refl refl

address_inside : (s : String) → contains lan (address_of s) ≡ true
unfolding contains mask_ip equal
address_inside s = elim (Bool-cases (s == "10.0.0.1/24")) [ inl f ↦ rw f refl | inr f ↦ rw f refl ]

host_inside :
    (s : String) (a : Address) (net : Subnet)
    → host.parse_cidr s ≡ ok (a, net)
    → contains net a ≡ true
host_inside s a net e =
    let at_lan : lan ≡ net = ground (arith, e) in
    let is_address : address_of s ≡ a = ground (arith, e) in
    subst (λ n. contains n a ≡ true) at_lan
      (subst (λ x. contains lan x ≡ true) is_address (address_inside s))

host_by_text :
    (s t : String) (a b : Address) (x y : Subnet)
    → host.parse_cidr s ≡ ok (a, x)
    → host.parse_cidr t ≡ ok (b, y)
    → x ≡ y
host_by_text s t a b x y e f = ground (arith, e, f)

host-IsCidr : IsCidr host
host-IsCidr = record {
  inside = host_inside;
  by_text = λ s t a b x y e f g. host_by_text s t a b x y e f;
}

abbrev settings : NetworkSettings
settings = record {
  name = "qnet";
  gateway_ip = "10.0.0.1/24";
  bridge_ip = "10.0.0.2/24";
  dhcp = some (record { start = "10.0.0.10/24"; end = "10.0.0.20/24" });
}

abbrev linux_config : LinuxConfig
linux_config = record {
  name = "qnet";
  bridge_ip = 10 ∷ 0 ∷ 0 ∷ 2 ∷ [];
  gateway_ip = 10 ∷ 0 ∷ 0 ∷ 1 ∷ [];
  start_ip = 10 ∷ 0 ∷ 0 ∷ 2 ∷ [];
  end_ip = 10 ∷ 0 ∷ 0 ∷ 2 ∷ [];
  subnet = lan;
}

new_linux_config-IsOneNetwork_example : IsOneNetwork linux_config
unfolding new_linux_config equal
new_linux_config-IsOneNetwork_example =
    new_linux_config-IsOneNetwork host host-IsCidr settings linux_config refl

abbrev alice : Identity
alice = record {
  subject = "alice";
  email = "";
  name = "Alice";
  groups = [];
  issued_by = "oidc:main";
}

abbrev session : Session
session = record { identity = some alice; id_token = "t"; refresh_token = ""; provider = "main" }

abbrev verifier : OidcVerifier
verifier = record {
  issuers = [];
  external_url = "https://vms.example";
  read_session = λ c. some session;
  write_session = λ s. none;
  read_state = λ c. none;
  write_state = λ s. none;
  decode_base64 = λ text. none;
  unmarshal_exp = λ claims. none;
}

abbrev config : AuthConfig
config = record {
  issuers =
      record {
        name = "main";
        issuer_url = "https://id.example";
        audiences = [];
        client_id = "id";
        client_secret = "s";
      }
      ∷ [];
  external_url = "https://vms.example/app";
}

abbrev gateway : Gateway
gateway = record {
  verifiers = verify verifier ∷ [];
  oidc = some verifier;
  external_url = "https://vms.example/app";
  allowed_origin = "https://vms.example";
}

abbrev creation : Request
creation = record {
  method = "POST";
  path = "/v1/vms";
  header = λ name. if name == "X-Requested-With" then "XMLHttpRequest" else "";
  query = λ name. "";
  cookie = λ name. some "c";
  context = none;
}

abbrev key_file : Result String String
key_file = ok "key"

abbrev made : Result String OidcVerifier
made = ok verifier

serve-IsAdmitted_example :
    (key : String) × (v : OidcVerifier) × (key_file ≡ ok key)
    × (made ≡ ok v)
    × IsAdmitted v creation (record creation { context = some alice })
    × IsIntended creation
unfolding set_up serve exempt verify middleware require_csrf_header with_identity
serve-IsAdmitted_example =
    serve-IsAdmitted (λ url. some ("https", "vms.example")) key_file (λ cfg key. made) config
      gateway 0 creation (record creation { context = some alice }) [] cons≢nil refl refl

-- One CA signs every certificate that is named after it.
abbrev one_ca : Tls
one_ca = record {
  Cert = String;
  Pool = String;
  load_key_pair = λ cert key. ok "ca";
  read_file = λ path. ok "ca";
  append_certs = λ pem. some pem;
  verifies = λ pool cert. pool == cert;
}

abbrev files : TlsConfig
files = record { cert = "server.crt"; key = "server.key"; ca = "ca.crt" }

abbrev tls_server : Server one_ca
tls_server =
    some
      (record { certificate = "ca"; client_cas = "ca"; require_client_cert = true; tls_13 = true })

abbrev tls_client : Connection one_ca
tls_client = some (record { certificate = "ca"; root_cas = "ca"; tls_13 = true })

-- What the documentation of crypto/tls says of a handshake between these
abbrev verify_both : Connection one_ca → Server one_ca → Bool
verify_both none none = true
verify_both none (some s) = false
verify_both (some c) none = false
verify_both (some c) (some s) =
    (c.root_cas == s.certificate)
    && (if s.require_client_cert then s.client_cas == c.certificate else true)

verify_both-IsHandshake : IsHandshake one_ca verify_both
verify_both-IsHandshake = record {
  encrypted = λ s. refl;
  verifies_client = λ c s h required. ground (arith, h, required);
  verifies_server = λ c s h. ground (arith, h);
}

call-IsMutual_example : IsMutual one_ca files tls_client
unfolding new_server call server_credentials client_metadata server_identity load_ca_pool
call-IsMutual_example =
    call-IsMutual one_ca verify_both verify_both-IsHandshake files tls_server tls_client none []
      none refl refl
