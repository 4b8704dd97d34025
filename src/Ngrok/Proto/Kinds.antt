-- ===== src/Ngrok/Proto/Kinds.antt =====
-- `EdgeType` and `ProxyProto` of ngrok/src/internals/proto.rs, and their codes.
use Prim.Native.String.{String}
use ngrok_rs.Common.{ℕ, ◌==◌, ◌≡◌, refl, if◌then◌else◌, Result, ok, err}
use ngrok_rs.Common.Names.{same}
use ngrok_rs.Common.Integers.{ℤ, pos, negsuc, as_i64}

pub data EdgeType : Type 0 where
  undefined tcp tls https : EdgeType

-- `EdgeType::from_str`, which has no error.
unfoldable pub edge_from_str : String → EdgeType
edge_from_str s =
    if same s "1"
    then EdgeType.tcp
    else if same s "2"
    then EdgeType.tls
    else if same s "3"
    then EdgeType.https
    else EdgeType.undefined

unfoldable pub as_str : EdgeType → String
as_str EdgeType.undefined = "0"
as_str EdgeType.tcp = "1"
as_str EdgeType.tls = "2"
as_str EdgeType.https = "3"

pub data ProxyProto : Type 0 where
  none v1 v2 : ProxyProto

-- `i64::from(other)`
unfoldable pub i64_from : ProxyProto → ℤ
i64_from ProxyProto.none = pos 0
i64_from ProxyProto.v1 = pos 1
i64_from ProxyProto.v2 = pos 2

-- `ProxyProto::from(other)`
unfoldable pub proxy_from : ℤ → ProxyProto
proxy_from (pos n) =
    if n == 1 then ProxyProto.v1 else if n == 2 then ProxyProto.v2 else ProxyProto.none
proxy_from (negsuc n) = ProxyProto.none

pub data InvalidProxyProtoString : Type 0 where
  invalid_proxy_proto_string : String → InvalidProxyProtoString

-- `ProxyProto::from_str`
unfoldable pub proxy_from_str : String → Result InvalidProxyProtoString ProxyProto
proxy_from_str s =
    if same s ""
    then ok ProxyProto.none
    else if same s "1"
    then ok ProxyProto.v1
    else if same s "2"
    then ok ProxyProto.v2
    else err (invalid_proxy_proto_string s)

-- `ProxyProtoVisitor::visit_u64`
unfoldable pub visit_u64 : ℕ → ProxyProto
unfolding proxy_from as_i64
visit_u64 v = proxy_from (as_i64 v)

-- An edge type is read back from its own text.
pub edge_from_str-as_str : (e : EdgeType) → edge_from_str (as_str e) ≡ e
unfolding edge_from_str as_str
edge_from_str-as_str EdgeType.undefined = refl
edge_from_str-as_str EdgeType.tcp = refl
edge_from_str-as_str EdgeType.tls = refl
edge_from_str-as_str EdgeType.https = refl

-- A PROXY protocol version is read back from the number written for it.
pub proxy_from-i64_from : (p : ProxyProto) → proxy_from (i64_from p) ≡ p
unfolding proxy_from i64_from
proxy_from-i64_from ProxyProto.none = refl
proxy_from-i64_from ProxyProto.v1 = refl
proxy_from-i64_from ProxyProto.v2 = refl
