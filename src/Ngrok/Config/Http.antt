-- ===== src/Ngrok/Config/Http.antt =====
-- ngrok/src/config/http.rs: the options, and what they are in the bind request. An f64 is the
-- number of its 64 bits.
pub mod Setters
pub mod Calls
pub mod Edited
pub mod Asked
use Prim.Native.String.{String}
use ngrok_rs.Common.{
  ℕ, ◌==◌, ◌^◌, Bool, true, false, not, ◌||◌, List, [], ◌∷◌, map, Option, none, some,
}
use ngrok_rs.Frame.{Bytes}
use ngrok_rs.Ngrok.Proto.{SecretBytes, SecretString, secret_from}
use ngrok_rs.Ngrok.Proto.Kinds.{ProxyProto}
use ngrok_rs.Ngrok.Config.{
  CommonOpts, TunnelConfig, default_common, allow, deny, ip_restriction, mutual_tls_from,
  forwards_to_or_default, extra_of, then_some, unwrap_or, is_empty, push,
}
use ngrok_rs.Ngrok.Proto.Endpoints.{
  Compression, WebsocketTcpConverter, CircuitBreaker, BasicAuth, BasicAuthCredential, HttpEndpoint,
  BindOpts, compression, websocket_tcp_converter, default_http,
}
use ngrok_rs.Ngrok.Config.Edits.{Headers, default_headers, has_entries, headers_from}
use ngrok_rs.Ngrok.Config.Oauth.{OauthOptions, WebhookVerification, oauth_from, webhook_from}
use ngrok_rs.Ngrok.Config.Oidc.{OidcOptions, oidc_from}

pub data Scheme : Type 0 where
  http https : Scheme

pub record HttpOptions : Type 0 where
  pub common_opts : CommonOpts
  pub scheme : Scheme
  pub domain : Option String
  pub mutual_tlsca : List Bytes
  pub compression : Bool
  pub websocket_tcp_conversion : Bool
  pub circuit_breaker : ℕ
  pub request_headers : Headers
  pub response_headers : Headers
  pub basic_auth : List (String × String)
  pub oauth : Option OauthOptions
  pub oidc : Option OidcOptions
  pub webhook_verification : Option WebhookVerification

-- `HttpOptions::default()`
abbrev pub default_options : HttpOptions
default_options = record {
  common_opts = default_common;
  scheme = Scheme.https;
  domain = none;
  mutual_tlsca = [];
  compression = false;
  websocket_tcp_conversion = false;
  circuit_breaker = 0;
  request_headers = default_headers;
  response_headers = default_headers;
  basic_auth = [];
  oauth = none;
  oidc = none;
  webhook_verification = none;
}

abbrev pub scheme_proto : Scheme → String
scheme_proto Scheme.http = "http"
scheme_proto Scheme.https = "https"

-- `proto`
unfoldable pub http_proto : HttpOptions → String
http_proto self = scheme_proto self.scheme

-- `bits != 0f64`: there is a zero of either sign.
unfoldable pub is_nonzero : ℕ → Bool
is_nonzero bits = not (bits == 0 || bits == 2 ^ 63)

-- `BasicAuthCredential::from(b)`
unfoldable pub credential_from : String × String → BasicAuthCredential
credential_from (username, password) = record {
  username = username;
  cleartext_password = password;
  hashed_password = [];
}

-- `BasicAuth::from(v)`
unfoldable pub basic_auth_from : List (String × String) → BasicAuth
unfolding credential_from
basic_auth_from v = record { credentials = map credential_from v }

-- `Option::map`, of a conversion
abbrev pub convert_some : {A B : Type 0} → (A → B) → Option A → Option B
convert_some from none = none
convert_some from (some a) = some (from a)

-- `opts`
unfoldable pub http_opts : HttpOptions → Option BindOpts
unfolding ip_restriction mutual_tls_from basic_auth_from is_nonzero has_entries headers_from
    oauth_from oidc_from webhook_from
http_opts self = some (
    BindOpts.http (record default_http {
      proxy_proto = self.common_opts.proxy_proto;
      hostname = unwrap_or self.domain "";
      compression = then_some self.compression compression;
      circuit_breaker =
          then_some (is_nonzero self.circuit_breaker)
            (record { error_threshold = self.circuit_breaker });
      ip_restriction = ip_restriction self.common_opts;
      basic_auth = then_some (not (is_empty self.basic_auth)) (basic_auth_from self.basic_auth);
      oauth = convert_some oauth_from self.oauth;
      oidc = convert_some oidc_from self.oidc;
      webhook_verification = convert_some webhook_from self.webhook_verification;
      mutual_tls_ca =
          then_some (not (is_empty self.mutual_tlsca)) (mutual_tls_from self.mutual_tlsca);
      request_headers =
          then_some (has_entries self.request_headers) (headers_from self.request_headers);
      response_headers =
          then_some (has_entries self.response_headers) (headers_from self.response_headers);
      websocket_tcp_converter = then_some self.websocket_tcp_conversion websocket_tcp_converter;
    }))

-- `TunnelConfig for HttpOptions`
unfoldable pub http_config : HttpOptions → TunnelConfig
unfolding forwards_to_or_default extra_of http_opts http_proto
http_config self = record {
  forwards_to = forwards_to_or_default self.common_opts;
  extra = extra_of self.common_opts;
  proto = http_proto self;
  opts = http_opts self;
  labels = [];
}
