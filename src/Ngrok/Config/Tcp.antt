-- ===== src/Ngrok/Config/Tcp.antt =====
-- ngrok/src/config/tcp.rs
use Prim.Native.String.{String}
use ngrok_rs.Common.{[], Option, none, some}
use ngrok_rs.Ngrok.Proto.Kinds.{ProxyProto}
use ngrok_rs.Ngrok.Config.{
  CommonOpts, TunnelConfig, default_common, allow, deny, ip_restriction, forwards_to_or_default,
  extra_of, unwrap_or,
}
use ngrok_rs.Ngrok.Proto.Endpoints.{BindOpts, default_tcp}

pub record TcpOptions : Type 0 where
  pub common_opts : CommonOpts
  pub remote_addr : Option String

-- `TcpOptions::default()`
abbrev pub default_options : TcpOptions
default_options = record { common_opts = default_common; remote_addr = none }

-- `opts`
unfoldable pub tcp_opts : TcpOptions → Option BindOpts
unfolding ip_restriction
tcp_opts self = some (
    BindOpts.tcp (record default_tcp {
      addr = unwrap_or self.remote_addr default_tcp.addr;
      proxy_proto = self.common_opts.proxy_proto;
      ip_restriction = ip_restriction self.common_opts;
    }))

-- `TunnelConfig for TcpOptions`
unfoldable pub tcp_config : TcpOptions → TunnelConfig
unfolding forwards_to_or_default extra_of tcp_opts
tcp_config self = record {
  forwards_to = forwards_to_or_default self.common_opts;
  extra = extra_of self.common_opts;
  proto = "tcp";
  opts = tcp_opts self;
  labels = [];
}

unfoldable pub allow_cidr_string : TcpOptions → String → TcpOptions
unfolding allow
allow_cidr_string self cidr = record self {
  common_opts = record self.common_opts {
    cidr_restrictions = allow self.common_opts.cidr_restrictions cidr;
  };
}

unfoldable pub deny_cidr_string : TcpOptions → String → TcpOptions
unfolding deny
deny_cidr_string self cidr = record self {
  common_opts = record self.common_opts {
    cidr_restrictions = deny self.common_opts.cidr_restrictions cidr;
  };
}

unfoldable pub proxy_proto : TcpOptions → ProxyProto → TcpOptions
proxy_proto self value = record self {
  common_opts = record self.common_opts { proxy_proto = value };
}

unfoldable pub metadata : TcpOptions → String → TcpOptions
metadata self value = record self {
  common_opts = record self.common_opts { metadata = some value };
}

unfoldable pub forwards_to : TcpOptions → String → TcpOptions
forwards_to self value = record self {
  common_opts = record self.common_opts { forwards_to = some value };
}

unfoldable pub remote_addr : TcpOptions → String → TcpOptions
remote_addr self value = record self { remote_addr = some value }
