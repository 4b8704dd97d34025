-- ===== src/Ngrok/Config/Oidc.antt =====
-- ngrok/src/config/oidc.rs
use Prim.Native.String.{String}
use ngrok_rs.Common.{List, []}
use ngrok_rs.Ngrok.Proto.{SecretString, secret_from}
use ngrok_rs.Ngrok.Proto.Endpoints as Endpoints
use ngrok_rs.Ngrok.Config.{push}

pub record OidcOptions : Type 0 where
  pub issuer_url : String
  pub client_id : String
  pub client_secret : SecretString
  pub allow_emails : List String
  pub allow_domains : List String
  pub scopes : List String

unfoldable pub new : String → String → String → OidcOptions
new issuer_url client_id client_secret = record {
  issuer_url = issuer_url;
  client_id = client_id;
  client_secret = secret_from client_secret;
  allow_emails = [];
  allow_domains = [];
  scopes = [];
}

unfoldable pub allow_email : OidcOptions → String → OidcOptions
allow_email self email = record self { allow_emails = push self.allow_emails email }

unfoldable pub allow_domain : OidcOptions → String → OidcOptions
allow_domain self domain = record self { allow_domains = push self.allow_domains domain }

unfoldable pub scope : OidcOptions → String → OidcOptions
scope self value = record self { scopes = push self.scopes value }

-- `Oidc::from(o)`
unfoldable pub oidc_from : OidcOptions → Endpoints.Oidc
oidc_from o = record {
  issuer_url = o.issuer_url;
  client_id = o.client_id;
  client_secret = o.client_secret;
  sealed_client_secret = [];
  allow_emails = o.allow_emails;
  allow_domains = o.allow_domains;
  scopes = o.scopes;
}
