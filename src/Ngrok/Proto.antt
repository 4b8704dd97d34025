-- ===== src/Ngrok/Proto.antt =====
-- ngrok/src/internals/proto.rs: the messages between the crate and the ngrok service. How serde
-- writes them is derived code.
pub mod Kinds
pub mod Endpoints
pub mod Header
mod Runs
use Prim.Native.String.{String}
use ngrok_rs.Common.{ℕ, Bool, false, List, Option, none}
use ngrok_rs.Common.Integers.{ℤ, pos}
use ngrok_rs.Frame.{Bytes}
use ngrok_rs.Constrained.{clamp}
use ngrok_rs.Typed.{stream_type_range}

-- `StreamType::clamp`
abbrev request_type : ℕ → ℕ
request_type = clamp stream_type_range

unfoldable pub auth_req : ℕ
unfolding clamp
auth_req = request_type 0

unfoldable pub bind_req : ℕ
unfolding clamp
bind_req = request_type 1

unfoldable pub unbind_req : ℕ
unfolding clamp
unbind_req = request_type 2

unfoldable pub proxy_req : ℕ
unfolding clamp
proxy_req = request_type 3

unfoldable pub restart_req : ℕ
unfolding clamp
restart_req = request_type 4

unfoldable pub stop_req : ℕ
unfolding clamp
stop_req = request_type 5

unfoldable pub update_req : ℕ
unfolding clamp
update_req = request_type 6

unfoldable pub bind_labeled_req : ℕ
unfolding clamp
bind_labeled_req = request_type 7

unfoldable pub srv_info_req : ℕ
unfolding clamp
srv_info_req = request_type 8

abbrev pub version : String
version = "2"

pub record SecretBytes : Type 0 where
  pub bytes : Bytes

pub record SecretString : Type 0 where
  pub text : String

abbrev pub secret_from : String → SecretString
secret_from other = record { text = other }

-- `Display`, and `Debug`
unfoldable pub fmt : SecretString → String
fmt self = "********"

-- The labels of a tunnel.
abbrev pub Labels : Type 0
Labels = List (String × String)

pub record AuthExtra : Type 0 where
  pub os : String
  pub arch : String
  pub auth_token : SecretString
  pub version : String
  pub hostname : String
  pub user_agent : String
  pub metadata : String
  pub cookie : SecretString
  pub heartbeat_interval : ℤ
  pub heartbeat_tolerance : ℤ
  pub update_unsupported_error : Option String
  pub stop_unsupported_error : Option String
  pub restart_unsupported_error : Option String
  pub proxy_type : String
  pub mutual_tls : Bool
  pub service_run : Bool
  pub config_version : String
  pub custom_interface : Bool
  pub custom_cas : Bool
  pub client_type : String

-- `AuthExtra::default()`
abbrev pub default_auth_extra : AuthExtra
default_auth_extra = record {
  os = "";
  arch = "";
  auth_token = secret_from "";
  version = "";
  hostname = "";
  user_agent = "";
  metadata = "";
  cookie = secret_from "";
  heartbeat_interval = pos 0;
  heartbeat_tolerance = pos 0;
  update_unsupported_error = none;
  stop_unsupported_error = none;
  restart_unsupported_error = none;
  proxy_type = "";
  mutual_tls = false;
  service_run = false;
  config_version = "";
  custom_interface = false;
  custom_cas = false;
  client_type = "";
}

pub record Auth : Type 0 where
  pub version : List String
  pub client_id : String
  pub extra : AuthExtra

pub record AuthRespExtra : Type 0 where
  pub version : Option String
  pub region : Option String
  pub cookie : Option SecretString
  pub account_name : Option String
  pub session_duration : Option ℤ
  pub plan_name : Option String
  pub banner : Option String

pub record AuthResp : Type 0 where
  pub version : String
  pub client_id : String
  pub extra : AuthRespExtra

pub record BindExtra : Type 0 where
  pub token : SecretString
  pub ip_policy_ref : String
  pub metadata : String

pub record Bind (T : Type 0) : Type 0 where
  pub client_id : String
  pub proto : String
  pub forwards_to : String
  pub opts : T
  pub extra : BindExtra

pub record BindRespExtra : Type 0 where
  pub token : SecretString

pub record BindResp (T : Type 0) : Type 0 where
  pub client_id : String
  pub url : String
  pub proto : String
  pub bind_opts : T
  pub extra : BindRespExtra

pub record StartTunnelWithLabel : Type 0 where
  pub labels : Labels
  pub forwards_to : String
  pub metadata : String

pub record StartTunnelWithLabelResp : Type 0 where
  pub id : String

pub record Unbind : Type 0 where
  pub client_id : String

pub data UnbindResp : Type 0 where
  unbind_resp : UnbindResp
