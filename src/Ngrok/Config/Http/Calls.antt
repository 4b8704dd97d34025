-- ===== src/Ngrok/Config/Http/Calls.antt =====
-- The calls of the setters of ngrok/src/config/http.rs, and the options after them.
use Prim.Native.String.{String}
use ngrok_rs.Common.{
  ℕ, ◌≡◌, refl, ◌∙◌, not, true, false, ◌||◌, List, [], ◌∷◌, ◌++◌, Option, none, some, append_assoc,
  append-nil, Bool,
}
use ngrok_rs.Frame.{Bytes}
use ngrok_rs.Ngrok.Proto.{secret_from}
use ngrok_rs.Ngrok.Proto.Kinds.{ProxyProto}
use ngrok_rs.Ngrok.Config.{allow, deny, is_empty}
use ngrok_rs.Ngrok.Config.Laws.{Edit, adds, removes, edit, last_from, last_or, chosen}
use ngrok_rs.Ngrok.Config.Oauth.{OauthOptions, WebhookVerification}
use ngrok_rs.Ngrok.Config.Oidc.{OidcOptions}
use ngrok_rs.Ngrok.Config.Http.{HttpOptions, Scheme}
use ngrok_rs.Ngrok.Config.Http.Setters.{
  allow_cidr_string, deny_cidr_string, metadata, forwards_to, domain, proxy_proto, scheme,
  mutual_tlsca, compression, websocket_tcp_conversion, circuit_breaker, oauth, oidc, request_header,
  response_header, remove_request_header, remove_response_header, basic_auth, webhook_verification,
}

pub data Call : Type 0 where
  allows denies with_metadata forwards requests : String → Call
  with_proxy : ProxyProto → Call
  with_scheme : Scheme → Call
  trusts : Bytes → Call
  compresses converts : Call
  breaks_at : ℕ → Call
  edits_request edits_response : Edit → Call
  signs_in verifies : String → String → Call
  with_oauth : OauthOptions → Call
  with_oidc : OidcOptions → Call

unfoldable pub call : HttpOptions → Call → HttpOptions
unfolding allow_cidr_string deny_cidr_string metadata forwards_to domain proxy_proto scheme
    mutual_tlsca compression websocket_tcp_conversion circuit_breaker oauth oidc request_header
    response_header remove_request_header remove_response_header basic_auth webhook_verification
call self (allows value) = allow_cidr_string self value
call self (denies value) = deny_cidr_string self value
call self (with_metadata value) = metadata self value
call self (forwards value) = forwards_to self value
call self (requests value) = domain self value
call self (with_proxy value) = proxy_proto self value
call self (with_scheme value) = scheme self value
call self (trusts value) = mutual_tlsca self value
call self compresses = compression self
call self converts = websocket_tcp_conversion self
call self (breaks_at value) = circuit_breaker self value
call self (with_oauth value) = oauth self value
call self (with_oidc value) = oidc self value
call self (edits_request (adds name value)) = request_header self name value
call self (edits_request (removes name)) = remove_request_header self name
call self (edits_response (adds name value)) = response_header self name value
call self (edits_response (removes name)) = remove_response_header self name
call self (signs_in username password) = basic_auth self username password
call self (verifies provider secret) = webhook_verification self provider secret

abbrev pub calls : HttpOptions → List Call → HttpOptions
calls self [] = self
calls self (c ∷ cs) = calls (call self c) cs

abbrev pub allowed : Call → Option String
allowed c = elim c [ allows value ↦ some value | _ ↦ none ]

abbrev pub denied : Call → Option String
denied c = elim c [ denies value ↦ some value | _ ↦ none ]

abbrev pub chosen_metadata : Call → Option String
chosen_metadata c = elim c [ with_metadata value ↦ some value | _ ↦ none ]

abbrev pub chosen_forwards : Call → Option String
chosen_forwards c = elim c [ forwards value ↦ some value | _ ↦ none ]

abbrev pub chosen_domain : Call → Option String
chosen_domain c = elim c [ requests value ↦ some value | _ ↦ none ]

abbrev pub chosen_proxy : Call → Option ProxyProto
chosen_proxy c = elim c [ with_proxy value ↦ some value | _ ↦ none ]

abbrev pub chosen_scheme : Call → Option Scheme
chosen_scheme c = elim c [ with_scheme value ↦ some value | _ ↦ none ]

abbrev pub trusted : Call → Option Bytes
trusted c = elim c [ trusts value ↦ some value | _ ↦ none ]

abbrev pub compressing : Call → Option (Unit {0})
compressing c = elim c [ compresses ↦ some tt | _ ↦ none ]

abbrev pub converting : Call → Option (Unit {0})
converting c = elim c [ converts ↦ some tt | _ ↦ none ]

abbrev pub chosen_breaker : Call → Option ℕ
chosen_breaker c = elim c [ breaks_at value ↦ some value | _ ↦ none ]

abbrev pub chosen_oauth : Call → Option OauthOptions
chosen_oauth c = elim c [ with_oauth value ↦ some value | _ ↦ none ]

abbrev pub chosen_oidc : Call → Option OidcOptions
chosen_oidc c = elim c [ with_oidc value ↦ some value | _ ↦ none ]

abbrev pub request_edit : Call → Option Edit
request_edit c = elim c [ edits_request e ↦ some e | _ ↦ none ]

abbrev pub response_edit : Call → Option Edit
response_edit c = elim c [ edits_response e ↦ some e | _ ↦ none ]

abbrev pub credentials : Call → Option (String × String)
credentials c = elim c [ signs_in username password ↦ some (username, password) | _ ↦ none ]

abbrev pub chosen_webhook : Call → Option WebhookVerification
chosen_webhook c = elim c [
  | verifies provider secret ↦ some (record { provider = provider; secret = secret_from secret })
  | _ ↦ none
]

abbrev pub is_called {ℓ} : {A : Type ℓ} → (Call → Option A) → List Call → Bool
is_called f cs = not (is_empty (chosen f cs))

-- The options after the calls, one field at a time
abbrev pub after_calls : HttpOptions → List Call → HttpOptions
after_calls self cs = record {
  common_opts = record {
    cidr_restrictions = record {
      allowed = self.common_opts.cidr_restrictions.allowed ++ chosen allowed cs;
      denied = self.common_opts.cidr_restrictions.denied ++ chosen denied cs;
    };
    proxy_proto = last_or self.common_opts.proxy_proto (chosen chosen_proxy cs);
    metadata = last_from self.common_opts.metadata (chosen chosen_metadata cs);
    forwards_to = last_from self.common_opts.forwards_to (chosen chosen_forwards cs);
  };
  scheme = last_or self.scheme (chosen chosen_scheme cs);
  domain = last_from self.domain (chosen chosen_domain cs);
  mutual_tlsca = self.mutual_tlsca ++ chosen trusted cs;
  compression = self.compression || is_called compressing cs;
  websocket_tcp_conversion = self.websocket_tcp_conversion || is_called converting cs;
  circuit_breaker = last_or self.circuit_breaker (chosen chosen_breaker cs);
  request_headers = edit self.request_headers (chosen request_edit cs);
  response_headers = edit self.response_headers (chosen response_edit cs);
  basic_auth = self.basic_auth ++ chosen credentials cs;
  oauth = last_from self.oauth (chosen chosen_oauth cs);
  oidc = last_from self.oidc (chosen chosen_oidc cs);
  webhook_verification = last_from self.webhook_verification (chosen chosen_webhook cs);
}

or-false : (b : Bool) → b || false ≡ b
or-false true = refl
or-false false = refl

or-true : (b : Bool) → b || true ≡ true
or-true true = refl
or-true false = refl

pub calls-after_calls : (cs : List Call) (self : HttpOptions) → calls self cs ≡ after_calls self cs
unfolding call allow deny
calls-after_calls [] self = simp (append-nil, or-false)
calls-after_calls (allows value ∷ cs) self = calls-after_calls cs _ ∙ simp append_assoc
calls-after_calls (denies value ∷ cs) self = calls-after_calls cs _ ∙ simp append_assoc
calls-after_calls (trusts value ∷ cs) self = calls-after_calls cs _ ∙ simp append_assoc
calls-after_calls (signs_in u p ∷ cs) self = calls-after_calls cs _ ∙ simp append_assoc
calls-after_calls (with_metadata value ∷ cs) self = calls-after_calls cs _
calls-after_calls (forwards value ∷ cs) self = calls-after_calls cs _
calls-after_calls (requests value ∷ cs) self = calls-after_calls cs _
calls-after_calls (with_proxy value ∷ cs) self = calls-after_calls cs _
calls-after_calls (with_scheme value ∷ cs) self = calls-after_calls cs _
calls-after_calls (breaks_at value ∷ cs) self = calls-after_calls cs _
calls-after_calls (edits_request (adds name value) ∷ cs) self = calls-after_calls cs _
calls-after_calls (edits_request (removes name) ∷ cs) self = calls-after_calls cs _
calls-after_calls (edits_response (adds name value) ∷ cs) self = calls-after_calls cs _
calls-after_calls (edits_response (removes name) ∷ cs) self = calls-after_calls cs _
calls-after_calls (with_oauth value ∷ cs) self = calls-after_calls cs _
calls-after_calls (with_oidc value ∷ cs) self = calls-after_calls cs _
calls-after_calls (verifies provider secret ∷ cs) self = calls-after_calls cs _
calls-after_calls (compresses ∷ cs) self = calls-after_calls cs _ ∙ rw (or-true self.compression)
calls-after_calls (converts ∷ cs) self =
    calls-after_calls cs _ ∙ rw (or-true self.websocket_tcp_conversion)
