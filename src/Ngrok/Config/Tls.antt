-- ===== src/Ngrok/Config/Tls.antt =====
-- ngrok/src/config/tls.rs
pub mod Calls
use Prim.Native.String.{String}
use ngrok_rs.Common.{
  ℕ, ◌==◌, ◌^◌, Bool, true, false, not, ◌||◌, List, [], ◌∷◌, map, Option, none, some,
}
use ngrok_rs.Frame.{Bytes}
use ngrok_rs.Ngrok.Proto.{SecretBytes, SecretString, secret_from}
use ngrok_rs.Ngrok.Proto.Kinds.{ProxyProto}
use ngrok_rs.Ngrok.Config.{
  CommonOpts, TunnelConfig, default_common, allow, deny, ip_restriction, mutual_tls_from,
  forwards_to_or_default, extra_of, then_some, unwrap_or, is_empty, push,
}
use ngrok_rs.Ngrok.Proto.Endpoints.{TlsTermination, TlsEndpoint, BindOpts, default_tls}

pub record TlsOptions : Type 0 where
  pub common_opts : CommonOpts
  pub domain : Option String
  pub mutual_tlsca : List Bytes
  pub key_pem : Option Bytes
  pub cert_pem : Option Bytes

-- `TlsOptions::default()`
abbrev pub default_options : TlsOptions
default_options = record {
  common_opts = default_common;
  domain = none;
  mutual_tlsca = [];
  key_pem = none;
  cert_pem = none;
}

-- `tls_termination`, from the certificate and the key
unfoldable pub tls_termination_from : Option Bytes → Option Bytes → Option TlsTermination
tls_termination_from (some c) (some k) =
    some (record { cert = c; key = record { bytes = k }; sealed_key = [] })
tls_termination_from (some c) none = none
tls_termination_from none k = none

-- `opts`
unfoldable pub tls_opts : TlsOptions → Option BindOpts
unfolding ip_restriction mutual_tls_from tls_termination_from
tls_opts self = some (
    BindOpts.tls (record default_tls {
      hostname = unwrap_or self.domain default_tls.hostname;
      proxy_proto = self.common_opts.proxy_proto;
      ip_restriction = ip_restriction self.common_opts;
      mutual_tls_at_edge =
          then_some (not (is_empty self.mutual_tlsca)) (mutual_tls_from self.mutual_tlsca);
      tls_termination = tls_termination_from self.cert_pem self.key_pem;
    }))

-- `TunnelConfig for TlsOptions`
unfoldable pub tls_config : TlsOptions → TunnelConfig
unfolding forwards_to_or_default extra_of tls_opts
tls_config self = record {
  forwards_to = forwards_to_or_default self.common_opts;
  extra = extra_of self.common_opts;
  proto = "tls";
  opts = tls_opts self;
  labels = [];
}

unfoldable pub allow_cidr_string : TlsOptions → String → TlsOptions
unfolding allow
allow_cidr_string self cidr = record self {
  common_opts = record self.common_opts {
    cidr_restrictions = allow self.common_opts.cidr_restrictions cidr;
  };
}

unfoldable pub deny_cidr_string : TlsOptions → String → TlsOptions
unfolding deny
deny_cidr_string self cidr = record self {
  common_opts = record self.common_opts {
    cidr_restrictions = deny self.common_opts.cidr_restrictions cidr;
  };
}

unfoldable pub proxy_proto : TlsOptions → ProxyProto → TlsOptions
proxy_proto self value = record self {
  common_opts = record self.common_opts { proxy_proto = value };
}

unfoldable pub metadata : TlsOptions → String → TlsOptions
metadata self value = record self {
  common_opts = record self.common_opts { metadata = some value };
}

unfoldable pub forwards_to : TlsOptions → String → TlsOptions
forwards_to self value = record self {
  common_opts = record self.common_opts { forwards_to = some value };
}

unfoldable pub domain : TlsOptions → String → TlsOptions
domain self value = record self { domain = some value }

unfoldable pub mutual_tlsca : TlsOptions → Bytes → TlsOptions
mutual_tlsca self value = record self { mutual_tlsca = push self.mutual_tlsca value }

unfoldable pub key_pem : TlsOptions → Bytes → TlsOptions
key_pem self value = record self { key_pem = some value }

unfoldable pub cert_pem : TlsOptions → Bytes → TlsOptions
cert_pem self value = record self { cert_pem = some value }
