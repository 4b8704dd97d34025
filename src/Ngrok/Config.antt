-- ===== src/Ngrok/Config.antt =====
-- ngrok/src/config/common.rs: what every tunnel's options have, and what a session asks of them.
-- The setters are functions on the options of a builder, whose other field is its session.
pub mod Edits
pub mod Oauth
pub mod Oidc
pub mod Http
pub mod Tcp
pub mod Tls
pub mod Labeled
pub mod Laws
mod Runs
use Prim.Native.String.{String}
use ngrok_rs.Common.{ℕ, Bool, true, false, not, ◌||◌, List, [], ◌∷◌, ◌++◌, Option, none, some}
use ngrok_rs.Frame.{Bytes}
use ngrok_rs.Ngrok.Proto.{BindExtra, Labels, secret_from}
use ngrok_rs.Ngrok.Proto.Kinds.{ProxyProto}
use ngrok_rs.Ngrok.Proto.Endpoints.{IpRestriction, MutualTls, BindOpts}

abbrev pub then_some {ℓ} : {A : Type ℓ} → Bool → A → Option A
then_some true a = some a
then_some false a = none

abbrev pub unwrap_or {ℓ} : {A : Type ℓ} → Option A → A → A
unwrap_or none default = default
unwrap_or (some a) default = a

abbrev pub is_empty {ℓ} : {A : Type ℓ} → List A → Bool
is_empty [] = true
is_empty (x ∷ xs) = false

-- `Vec::push`
abbrev pub push {ℓ} : {A : Type ℓ} → List A → A → List A
push xs x = xs ++ x ∷ []

abbrev pub default_forwards_to : String
default_forwards_to = "rust"

pub record CidrRestrictions : Type 0 where
  pub allowed : List String
  pub denied : List String

unfoldable pub allow : CidrRestrictions → String → CidrRestrictions
allow self cidr = record self { allowed = push self.allowed cidr }

unfoldable pub deny : CidrRestrictions → String → CidrRestrictions
deny self cidr = record self { denied = push self.denied cidr }

-- `IpRestriction::from(cr)`
unfoldable pub ip_restriction_from : CidrRestrictions → IpRestriction
ip_restriction_from cr = record { allow_cidrs = cr.allowed; deny_cidrs = cr.denied }

pub record CommonOpts : Type 0 where
  pub cidr_restrictions : CidrRestrictions
  pub proxy_proto : ProxyProto
  pub metadata : Option String
  pub forwards_to : Option String

-- `CommonOpts::default()`
abbrev pub default_common : CommonOpts
default_common = record {
  cidr_restrictions = record { allowed = []; denied = [] };
  proxy_proto = ProxyProto.none;
  metadata = none;
  forwards_to = none;
}

unfoldable pub ip_restriction : CommonOpts → Option IpRestriction
unfolding ip_restriction_from
ip_restriction self =
    then_some
      (not (is_empty self.cidr_restrictions.allowed)
        || not (is_empty self.cidr_restrictions.denied))
      (ip_restriction_from self.cidr_restrictions)

-- `aggregated`, after the rest of the certificates
unfoldable pub aggregate : Bytes → List Bytes → Bytes
aggregate aggregated [] = aggregated
aggregate aggregated (c ∷ b) = aggregate (aggregated ++ c) b

-- `MutualTls::from(b)`
unfoldable pub mutual_tls_from : List Bytes → MutualTls
unfolding aggregate
mutual_tls_from b = record { mutual_tls_ca = aggregate [] b }

-- What `forwards_to` and `extra` of each kind of options give.
unfoldable pub forwards_to_or_default : CommonOpts → String
forwards_to_or_default self = unwrap_or self.forwards_to default_forwards_to

unfoldable pub extra_of : CommonOpts → BindExtra
extra_of self = record {
  token = secret_from "";
  ip_policy_ref = "";
  metadata = unwrap_or self.metadata "";
}

-- `TunnelConfig`
pub record TunnelConfig : Type 0 where
  pub forwards_to : String
  pub extra : BindExtra
  pub proto : String
  pub opts : Option BindOpts
  pub labels : Labels
