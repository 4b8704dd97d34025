-- ===== src/Ngrok/Config/Oauth.antt =====
-- ngrok/src/config/oauth.rs, and its neighbour webhook_verification.rs
use Prim.Native.String.{String}
use ngrok_rs.Common.{List, []}
use ngrok_rs.Ngrok.Proto.{SecretString, secret_from}
use ngrok_rs.Ngrok.Proto.Endpoints as Endpoints
use ngrok_rs.Ngrok.Config.{push}

pub record OauthOptions : Type 0 where
  pub provider : String
  pub allow_emails : List String
  pub allow_domains : List String
  pub scopes : List String

unfoldable pub new : String → OauthOptions
new provider = record { provider = provider; allow_emails = []; allow_domains = []; scopes = [] }

unfoldable pub allow_email : OauthOptions → String → OauthOptions
allow_email self email = record self { allow_emails = push self.allow_emails email }

unfoldable pub allow_domain : OauthOptions → String → OauthOptions
allow_domain self domain = record self { allow_domains = push self.allow_domains domain }

unfoldable pub scope : OauthOptions → String → OauthOptions
scope self value = record self { scopes = push self.scopes value }

-- `Oauth::from(o)`
unfoldable pub oauth_from : OauthOptions → Endpoints.Oauth
oauth_from o = record {
  provider = o.provider;
  client_id = "";
  client_secret = secret_from "";
  sealed_client_secret = [];
  allow_emails = o.allow_emails;
  allow_domains = o.allow_domains;
  scopes = o.scopes;
}

pub record WebhookVerification : Type 0 where
  pub provider : String
  pub secret : SecretString

-- `WebhookProto::from(wv)`
unfoldable pub webhook_from : WebhookVerification → Endpoints.WebhookVerification
webhook_from wv = record { provider = wv.provider; secret = wv.secret; sealed_secret = [] }
