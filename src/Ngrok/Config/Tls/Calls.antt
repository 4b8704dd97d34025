-- ===== src/Ngrok/Config/Tls/Calls.antt =====
-- What a builder of ngrok/src/config/tls.rs asks the service for, after any calls of its setters.
use Prim.Native.String.{String}
use ngrok_rs.Common.{
  ◌≡◌, refl, ap, ◌∙◌, not, ◌||◌, List, [], ◌∷◌, ◌++◌, Option, none, some, append_assoc, append-nil,
}
use ngrok_rs.Frame.{Bytes}
use ngrok_rs.Ngrok.Proto.{secret_from}
use ngrok_rs.Ngrok.Proto.Kinds.{ProxyProto}
use ngrok_rs.Ngrok.Proto.Endpoints.{TlsTermination, BindOpts, default_tls}
use ngrok_rs.Ngrok.Config.{
  TunnelConfig, ip_restriction, ip_restriction_from, forwards_to_or_default, extra_of,
  mutual_tls_from, is_empty, then_some, unwrap_or, allow, deny,
}
use ngrok_rs.Ngrok.Config.Laws.{join, aggregate-join, last_from, last_or, chosen}
use ngrok_rs.Ngrok.Config.Tls.{
  TlsOptions, default_options, tls_opts, tls_config, tls_termination_from, allow_cidr_string,
  deny_cidr_string, proxy_proto, metadata, forwards_to, domain, mutual_tlsca, key_pem, cert_pem,
}

pub data Call : Type 0 where
  allows denies with_metadata forwards requests : String → Call
  with_proxy : ProxyProto → Call
  trusts with_key with_cert : Bytes → Call

unfoldable pub call : TlsOptions → Call → TlsOptions
unfolding allow_cidr_string deny_cidr_string proxy_proto metadata forwards_to domain mutual_tlsca
    key_pem cert_pem
call self (allows cidr) = allow_cidr_string self cidr
call self (denies cidr) = deny_cidr_string self cidr
call self (with_metadata value) = metadata self value
call self (forwards value) = forwards_to self value
call self (requests value) = domain self value
call self (with_proxy value) = proxy_proto self value
call self (trusts value) = mutual_tlsca self value
call self (with_key value) = key_pem self value
call self (with_cert value) = cert_pem self value

abbrev pub calls : TlsOptions → List Call → TlsOptions
calls self [] = self
calls self (c ∷ cs) = calls (call self c) cs

abbrev pub allowed : Call → Option String
allowed c = elim c [ allows cidr ↦ some cidr | _ ↦ none ]

abbrev pub denied : Call → Option String
denied c = elim c [ denies cidr ↦ some cidr | _ ↦ none ]

abbrev pub chosen_metadata : Call → Option String
chosen_metadata c = elim c [ with_metadata value ↦ some value | _ ↦ none ]

abbrev pub chosen_forwards : Call → Option String
chosen_forwards c = elim c [ forwards value ↦ some value | _ ↦ none ]

abbrev pub chosen_domain : Call → Option String
chosen_domain c = elim c [ requests value ↦ some value | _ ↦ none ]

abbrev pub chosen_proxy : Call → Option ProxyProto
chosen_proxy c = elim c [ with_proxy value ↦ some value | _ ↦ none ]

abbrev pub trusted : Call → Option Bytes
trusted c = elim c [ trusts value ↦ some value | _ ↦ none ]

abbrev pub chosen_key : Call → Option Bytes
chosen_key c = elim c [ with_key value ↦ some value | _ ↦ none ]

abbrev pub chosen_cert : Call → Option Bytes
chosen_cert c = elim c [ with_cert value ↦ some value | _ ↦ none ]

-- The options after the calls, one field at a time
abbrev after_calls : TlsOptions → List Call → TlsOptions
after_calls self cs = record {
  common_opts = record {
    cidr_restrictions = record {
      allowed = self.common_opts.cidr_restrictions.allowed ++ chosen allowed cs;
      denied = self.common_opts.cidr_restrictions.denied ++ chosen denied cs;
    };
    proxy_proto = last_or self.common_opts.proxy_proto (chosen chosen_proxy cs);
    metadata = last_from self.common_opts.metadata (chosen chosen_metadata cs);
    forwards_to = last_from self.common_opts.forwards_to (chosen chosen_forwards cs);
  };
  domain = last_from self.domain (chosen chosen_domain cs);
  mutual_tlsca = self.mutual_tlsca ++ chosen trusted cs;
  key_pem = last_from self.key_pem (chosen chosen_key cs);
  cert_pem = last_from self.cert_pem (chosen chosen_cert cs);
}

calls-after : (cs : List Call) (self : TlsOptions) → calls self cs ≡ after_calls self cs
unfolding call allow deny
calls-after [] self = simp append-nil
calls-after (allows x ∷ cs) self = calls-after cs _ ∙ simp append_assoc
calls-after (denies x ∷ cs) self = calls-after cs _ ∙ simp append_assoc
calls-after (with_metadata x ∷ cs) self = calls-after cs _
calls-after (forwards x ∷ cs) self = calls-after cs _
calls-after (requests x ∷ cs) self = calls-after cs _
calls-after (with_proxy x ∷ cs) self = calls-after cs _
calls-after (trusts x ∷ cs) self = calls-after cs _ ∙ simp append_assoc
calls-after (with_key x ∷ cs) self = calls-after cs _
calls-after (with_cert x ∷ cs) self = calls-after cs _

-- Both the certificate and the key, or no termination
abbrev pub terminates : Option Bytes → Option Bytes → Option TlsTermination
terminates cert key = elim cert [
  | none ↦ none
  | some c ↦ elim key [
    | none ↦ none
    | some k ↦ some (record { cert = c; key = record { bytes = k }; sealed_key = [] })
  ]
]

-- The bind request of the calls, read off the calls alone
abbrev pub asked : List Call → TunnelConfig
asked cs = record {
  forwards_to = unwrap_or (last_from none (chosen chosen_forwards cs)) "rust";
  extra = record {
    token = secret_from "";
    ip_policy_ref = "";
    metadata = unwrap_or (last_from none (chosen chosen_metadata cs)) "";
  };
  proto = "tls";
  opts = some (
      BindOpts.tls (record default_tls {
        hostname = unwrap_or (last_from none (chosen chosen_domain cs)) "";
        proxy_proto = last_or ProxyProto.none (chosen chosen_proxy cs);
        mutual_tls_at_edge =
            then_some (not (is_empty (chosen trusted cs)))
              (record { mutual_tls_ca = join (chosen trusted cs) });
        tls_termination =
            terminates (last_from none (chosen chosen_cert cs))
              (last_from none (chosen chosen_key cs));
        ip_restriction =
            then_some (not (is_empty (chosen allowed cs)) || not (is_empty (chosen denied cs)))
              (record { allow_cidrs = chosen allowed cs; deny_cidrs = chosen denied cs });
      }));
  labels = [];
}

terminates-from : (cert key : Option Bytes) → tls_termination_from cert key ≡ terminates cert key
unfolding tls_termination_from
terminates-from none key = refl
terminates-from (some c) none = refl
terminates-from (some c) (some k) = refl

-- Whatever setters of a TLS endpoint's builder are called in whatever order, the bind request has
-- all the allowed and all the denied ranges in the order of their calls, and no restriction without
-- any; all the trusted certificates, one after the other; what the other setters were called with
-- last; and a TLS termination if both a certificate and a key were given.
pub calls-asked : (cs : List Call) → tls_config (calls default_options cs) ≡ asked cs
unfolding tls_config tls_opts ip_restriction ip_restriction_from mutual_tls_from
    forwards_to_or_default extra_of
calls-asked cs =
    ap tls_config (calls-after cs default_options)
    ∙ rw (
      terminates-from (last_from none (chosen chosen_cert cs))
          (last_from none (chosen chosen_key cs)),
      aggregate-join (chosen trusted cs) [],
    )
