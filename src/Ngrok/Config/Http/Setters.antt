-- ===== src/Ngrok/Config/Http/Setters.antt =====
-- The setters of ngrok/src/config/http.rs
use Prim.Native.String.{String}
use ngrok_rs.Common.{ℕ, true, some}
use ngrok_rs.Frame.{Bytes}
use ngrok_rs.Ngrok.Proto.{secret_from}
use ngrok_rs.Ngrok.Proto.Kinds.{ProxyProto}
use ngrok_rs.Ngrok.Config.{allow, deny, push}
use ngrok_rs.Ngrok.Config.Edits.{add, remove}
use ngrok_rs.Ngrok.Config.Oauth.{OauthOptions}
use ngrok_rs.Ngrok.Config.Oidc.{OidcOptions}
use ngrok_rs.Ngrok.Config.Http.{HttpOptions, Scheme}

unfoldable pub allow_cidr_string : HttpOptions → String → HttpOptions
unfolding allow
allow_cidr_string self cidr = record self {
  common_opts = record self.common_opts {
    cidr_restrictions = allow self.common_opts.cidr_restrictions cidr;
  };
}

unfoldable pub deny_cidr_string : HttpOptions → String → HttpOptions
unfolding deny
deny_cidr_string self cidr = record self {
  common_opts = record self.common_opts {
    cidr_restrictions = deny self.common_opts.cidr_restrictions cidr;
  };
}

unfoldable pub proxy_proto : HttpOptions → ProxyProto → HttpOptions
proxy_proto self value = record self {
  common_opts = record self.common_opts { proxy_proto = value };
}

unfoldable pub metadata : HttpOptions → String → HttpOptions
metadata self value = record self {
  common_opts = record self.common_opts { metadata = some value };
}

unfoldable pub forwards_to : HttpOptions → String → HttpOptions
forwards_to self value = record self {
  common_opts = record self.common_opts { forwards_to = some value };
}

unfoldable pub scheme : HttpOptions → Scheme → HttpOptions
scheme self value = record self { scheme = value }

unfoldable pub domain : HttpOptions → String → HttpOptions
domain self value = record self { domain = some value }

unfoldable pub mutual_tlsca : HttpOptions → Bytes → HttpOptions
mutual_tlsca self value = record self { mutual_tlsca = push self.mutual_tlsca value }

unfoldable pub compression : HttpOptions → HttpOptions
compression self = record self { compression = true }

unfoldable pub websocket_tcp_conversion : HttpOptions → HttpOptions
websocket_tcp_conversion self = record self { websocket_tcp_conversion = true }

unfoldable pub circuit_breaker : HttpOptions → ℕ → HttpOptions
circuit_breaker self value = record self { circuit_breaker = value }

unfoldable pub request_header : HttpOptions → String → String → HttpOptions
unfolding add
request_header self name value = record self {
  request_headers = add self.request_headers name value;
}

unfoldable pub response_header : HttpOptions → String → String → HttpOptions
unfolding add
response_header self name value = record self {
  response_headers = add self.response_headers name value;
}

unfoldable pub remove_request_header : HttpOptions → String → HttpOptions
unfolding remove
remove_request_header self name = record self { request_headers = remove self.request_headers name }

unfoldable pub remove_response_header : HttpOptions → String → HttpOptions
unfolding remove
remove_response_header self name = record self {
  response_headers = remove self.response_headers name;
}

unfoldable pub basic_auth : HttpOptions → String → String → HttpOptions
basic_auth self username password = record self {
  basic_auth = push self.basic_auth (username, password);
}

unfoldable pub oauth : HttpOptions → OauthOptions → HttpOptions
oauth self value = record self { oauth = some value }

unfoldable pub oidc : HttpOptions → OidcOptions → HttpOptions
oidc self value = record self { oidc = some value }

unfoldable pub webhook_verification : HttpOptions → String → String → HttpOptions
webhook_verification self provider secret = record self {
  webhook_verification = some (record { provider = provider; secret = secret_from secret });
}
