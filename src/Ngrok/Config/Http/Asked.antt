-- ===== src/Ngrok/Config/Http/Asked.antt =====
-- What a builder of ngrok/src/config/http.rs asks the service for, after any calls of its setters.
use Prim.Native.String.{String}
use ngrok_rs.Common.{
  ℕ, Option, ◌==◌, ◌≡◌, refl, ap, ◌∙◌, ◌||◌, false, if◌then◌else◌, List, [], ◌∷◌, map, none, some,
  arith,
}
use ngrok_rs.Ngrok.Proto.{Labels}
use ngrok_rs.Ngrok.Proto.Kinds.{ProxyProto}
use ngrok_rs.Ngrok.Proto.Endpoints as Endpoints
use ngrok_rs.Ngrok.Proto.Endpoints.{
  BindOpts, CircuitBreaker, BasicAuthCredential, compression, websocket_tcp_converter, default_http,
}
use ngrok_rs.Ngrok.Config.{
  TunnelConfig, ip_restriction, ip_restriction_from, forwards_to_or_default, extra_of,
  mutual_tls_from, then_some, unwrap_or,
}
use ngrok_rs.Ngrok.Config.Edits.{default_headers}
use ngrok_rs.Ngrok.Config.Laws.{edit, join, aggregate-join, last_from, last_or, chosen}
use ngrok_rs.Ngrok.Config.Oauth.{OauthOptions, WebhookVerification, oauth_from, webhook_from}
use ngrok_rs.Ngrok.Config.Oidc.{OidcOptions, oidc_from}
use ngrok_rs.Ngrok.Config.Http.{
  Scheme, default_options, scheme_proto, http_proto, http_opts, http_config, is_nonzero,
  credential_from, basic_auth_from, convert_some,
}
use ngrok_rs.Ngrok.Config.Http.Calls.{
  Call, calls, calls-after_calls, after_calls, is_called, allowed, denied, chosen_metadata,
  chosen_forwards, chosen_domain, chosen_proxy, chosen_scheme, trusted, compressing, converting,
  chosen_breaker, chosen_oauth, chosen_oidc, request_edit, response_edit, credentials,
  chosen_webhook,
}
use ngrok_rs.Ngrok.Config.Http.Edited.{IsLast, edit-IsLast, edited, headers-edited}

-- A threshold of zero, of either sign, is none.
abbrev pub breaker : ℕ → Option CircuitBreaker
breaker bits =
    if bits == 0
    then none
    else if bits == 9223372036854775808
    then none
    else some (record { error_threshold = bits })

abbrev pub credential : String × String → BasicAuthCredential
credential (username, password) = record {
  username = username;
  cleartext_password = password;
  hashed_password = [];
}

abbrev pub oauth_asked : Option OauthOptions → Option Endpoints.Oauth
oauth_asked none = none
oauth_asked (some o) = some (record {
  provider = o.provider;
  client_id = "";
  client_secret = record { text = "" };
  sealed_client_secret = [];
  allow_emails = o.allow_emails;
  allow_domains = o.allow_domains;
  scopes = o.scopes;
})

abbrev pub oidc_asked : Option OidcOptions → Option Endpoints.Oidc
oidc_asked none = none
oidc_asked (some o) = some (record {
  issuer_url = o.issuer_url;
  client_id = o.client_id;
  client_secret = o.client_secret;
  sealed_client_secret = [];
  allow_emails = o.allow_emails;
  allow_domains = o.allow_domains;
  scopes = o.scopes;
})

abbrev pub webhook_asked : Option WebhookVerification → Option Endpoints.WebhookVerification
webhook_asked none = none
webhook_asked (some w) =
    some (record { provider = w.provider; secret = w.secret; sealed_secret = [] })

abbrev pub proto_asked : Scheme → String
proto_asked Scheme.http = "http"
proto_asked Scheme.https = "https"

-- The bind request of the calls, read off the calls alone, for these headers
abbrev pub asked : Labels → Labels → List Call → TunnelConfig
asked request response cs = record {
  forwards_to = unwrap_or (last_from none (chosen chosen_forwards cs)) "rust";
  extra = record {
    token = record { text = "" };
    ip_policy_ref = "";
    metadata = unwrap_or (last_from none (chosen chosen_metadata cs)) "";
  };
  proto = proto_asked (last_or Scheme.https (chosen chosen_scheme cs));
  opts = some (
      BindOpts.http (record {
        hostname = unwrap_or (last_from none (chosen chosen_domain cs)) "";
        auth = "";
        subdomain = "";
        host_header_rewrite = false;
        local_url_scheme = none;
        proxy_proto = last_or ProxyProto.none (chosen chosen_proxy cs);
        compression = then_some (is_called compressing cs) compression;
        circuit_breaker = breaker (last_or 0 (chosen chosen_breaker cs));
        ip_restriction =
            then_some (is_called allowed cs || is_called denied cs)
              (record { allow_cidrs = chosen allowed cs; deny_cidrs = chosen denied cs });
        basic_auth =
            then_some (is_called credentials cs)
              (record { credentials = map credential (chosen credentials cs) });
        oauth = oauth_asked (last_from none (chosen chosen_oauth cs));
        oidc = oidc_asked (last_from none (chosen chosen_oidc cs));
        webhook_verification = webhook_asked (last_from none (chosen chosen_webhook cs));
        mutual_tls_ca =
            then_some (is_called trusted cs) (record { mutual_tls_ca = join (chosen trusted cs) });
        request_headers = edited request (chosen request_edit cs);
        response_headers = edited response (chosen response_edit cs);
        websocket_tcp_converter = then_some (is_called converting cs) websocket_tcp_converter;
      }));
  labels = [];
}

breaker-asked :
    (bits : ℕ) → then_some (is_nonzero bits) (record { error_threshold = bits }) ≡ breaker bits
unfolding is_nonzero
breaker-asked bits = ground arith

map-credential : (v : List (String × String)) → map credential_from v ≡ map credential v
unfolding credential_from
map-credential [] = refl
map-credential ((username, password) ∷ v) =
    ap (λ t. credential (username, password) ∷ t) (map-credential v)

oauth-asked : (o : Option OauthOptions) → convert_some oauth_from o ≡ oauth_asked o
unfolding oauth_from
oauth-asked none = refl
oauth-asked (some o) = refl

oidc-asked : (o : Option OidcOptions) → convert_some oidc_from o ≡ oidc_asked o
unfolding oidc_from
oidc-asked none = refl
oidc-asked (some o) = refl

webhook-asked : (w : Option WebhookVerification) → convert_some webhook_from w ≡ webhook_asked w
unfolding webhook_from
webhook-asked none = refl
webhook-asked (some w) = refl

proto-asked : (s : Scheme) → scheme_proto s ≡ proto_asked s
proto-asked Scheme.http = refl
proto-asked Scheme.https = refl

config-after :
    (cs : List Call)
    → http_config (after_calls default_options cs)
      ≡ asked
          (edit default_headers (chosen request_edit cs)).added
          (edit default_headers (chosen response_edit cs)).added
          cs
unfolding http_config http_opts http_proto ip_restriction ip_restriction_from mutual_tls_from
    basic_auth_from forwards_to_or_default extra_of
config-after cs = rw (
  aggregate-join (chosen trusted cs) [],
  headers-edited (chosen request_edit cs),
  headers-edited (chosen response_edit cs),
  breaker-asked (last_or 0 (chosen chosen_breaker cs)),
  map-credential (chosen credentials cs),
  oauth-asked (last_from none (chosen chosen_oauth cs)),
  oidc-asked (last_from none (chosen chosen_oidc cs)),
  webhook-asked (last_from none (chosen chosen_webhook cs)),
  proto-asked (last_or Scheme.https (chosen chosen_scheme cs)),
)

-- Whatever setters of an HTTP endpoint's builder are called in whatever order, the bind request has
-- the allowed and the denied ranges, the credentials and the trusted certificates in the order of
-- their calls, and none of these where no call gave one; of the headers, if they were edited, each
-- name that was added, in some order, with the value that it was given last, and the names that
-- were removed; compression and websocket conversion if they were called for; what the other
-- setters were called with last; and a circuit breaker unless the threshold is a zero of either
-- sign. Its protocol is that of the last scheme.
pub config-asked :
    (cs : List Call)
    → (request : Labels) × ((response : Labels) × ((http_config (calls default_options cs)
            ≡ asked request response cs)
          × IsLast request (chosen request_edit cs)
          × IsLast response (chosen response_edit cs)))
config-asked cs = (
  (edit default_headers (chosen request_edit cs)).added,
  (
    (edit default_headers (chosen response_edit cs)).added,
    (
      ap http_config (calls-after_calls cs default_options) ∙ config-after cs,
      edit-IsLast (chosen request_edit cs),
      edit-IsLast (chosen response_edit cs),
    ),
  ),
)
