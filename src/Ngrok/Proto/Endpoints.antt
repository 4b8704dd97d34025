-- ===== src/Ngrok/Proto/Endpoints.antt =====
-- The bind options of ngrok/src/internals/proto.rs. An f64 is the number of its 64 bits, and a
-- message without fields has one constructor.
use Prim.Native.String.{String}
use ngrok_rs.Common.{ℕ, Bool, false, List, Option, none}
use ngrok_rs.Frame.{Bytes}
use ngrok_rs.Ngrok.Proto.{SecretString, SecretBytes, Labels}
use ngrok_rs.Ngrok.Proto.Kinds.{ProxyProto}

pub data Compression : Type 0 where
  compression : Compression

pub data WebsocketTcpConverter : Type 0 where
  websocket_tcp_converter : WebsocketTcpConverter

pub record CircuitBreaker : Type 0 where
  pub error_threshold : ℕ

pub record BasicAuthCredential : Type 0 where
  pub username : String
  pub cleartext_password : String
  pub hashed_password : Bytes

pub record BasicAuth : Type 0 where
  pub credentials : List BasicAuthCredential

pub record IpRestriction : Type 0 where
  pub allow_cidrs : List String
  pub deny_cidrs : List String

pub record Oauth : Type 0 where
  pub provider : String
  pub client_id : String
  pub client_secret : SecretString
  pub sealed_client_secret : Bytes
  pub allow_emails : List String
  pub allow_domains : List String
  pub scopes : List String

pub record Oidc : Type 0 where
  pub issuer_url : String
  pub client_id : String
  pub client_secret : SecretString
  pub sealed_client_secret : Bytes
  pub allow_emails : List String
  pub allow_domains : List String
  pub scopes : List String

pub record WebhookVerification : Type 0 where
  pub provider : String
  pub secret : SecretString
  pub sealed_secret : Bytes

pub record MutualTls : Type 0 where
  pub mutual_tls_ca : Bytes

pub record Headers : Type 0 where
  pub add : List String
  pub remove : List String
  pub add_parsed : Labels

pub record HttpEndpoint : Type 0 where
  pub hostname : String
  pub auth : String
  pub subdomain : String
  pub host_header_rewrite : Bool
  pub local_url_scheme : Option String
  pub proxy_proto : ProxyProto
  pub compression : Option Compression
  pub circuit_breaker : Option CircuitBreaker
  pub ip_restriction : Option IpRestriction
  pub basic_auth : Option BasicAuth
  pub oauth : Option Oauth
  pub oidc : Option Oidc
  pub webhook_verification : Option WebhookVerification
  pub mutual_tls_ca : Option MutualTls
  pub request_headers : Option Headers
  pub response_headers : Option Headers
  pub websocket_tcp_converter : Option WebsocketTcpConverter

pub record TcpEndpoint : Type 0 where
  pub addr : String
  pub proxy_proto : ProxyProto
  pub ip_restriction : Option IpRestriction

pub record TlsTermination : Type 0 where
  pub cert : Bytes
  pub key : SecretBytes
  pub sealed_key : Bytes

pub record TlsEndpoint : Type 0 where
  pub hostname : String
  pub subdomain : String
  pub proxy_proto : ProxyProto
  pub mutual_tls_at_agent : Bool
  pub mutual_tls_at_edge : Option MutualTls
  pub tls_termination : Option TlsTermination
  pub ip_restriction : Option IpRestriction

-- The `default()` of the three
abbrev pub default_http : HttpEndpoint
default_http = record {
  hostname = "";
  auth = "";
  subdomain = "";
  host_header_rewrite = false;
  local_url_scheme = none;
  proxy_proto = ProxyProto.none;
  compression = none;
  circuit_breaker = none;
  ip_restriction = none;
  basic_auth = none;
  oauth = none;
  oidc = none;
  webhook_verification = none;
  mutual_tls_ca = none;
  request_headers = none;
  response_headers = none;
  websocket_tcp_converter = none;
}

abbrev pub default_tcp : TcpEndpoint
default_tcp = record { addr = ""; proxy_proto = ProxyProto.none; ip_restriction = none }

abbrev pub default_tls : TlsEndpoint
default_tls = record {
  hostname = "";
  subdomain = "";
  proxy_proto = ProxyProto.none;
  mutual_tls_at_agent = false;
  mutual_tls_at_edge = none;
  tls_termination = none;
  ip_restriction = none;
}

pub data BindOpts : Type 0 where
  http : HttpEndpoint → BindOpts
  tcp : TcpEndpoint → BindOpts
  tls : TlsEndpoint → BindOpts
