-- ===== src/Ngrok/Proto/Runs.antt =====
-- Concrete runs of ngrok/src/internals/proto.rs, and its theorems at concrete inputs.
use ngrok_rs.Common.{ℕ, suc, false, subst, arith, ◌≡◌, refl, [], ◌∷◌, Result, ok, err, ◌^◌, ◌-◌}
use ngrok_rs.Common.Integers.{ℤ, pos, IsI64}
use ngrok_rs.Ngrok.Io.{Failure, IoError}
use ngrok_rs.Ngrok.Proto.Kinds.{
  EdgeType, ProxyProto, edge_from_str, proxy_from_str, visit_u64, invalid_proxy_proto_string,
}
use ngrok_rs.Ngrok.Proto.Header.{ProxyHeader, HeaderIo}

-- An edge type that is not known is undefined.
unknown_edge : edge_from_str "7" ≡ EdgeType.undefined
unfolding edge_from_str
unknown_edge = refl

-- The number 0 is no PROXY protocol, but the text "0" is invalid.
zero_number : visit_u64 0 ≡ ProxyProto.none
unfolding visit_u64
zero_number = refl

zero_text : proxy_from_str "0" ≡ err (invalid_proxy_proto_string "0")
unfolding proxy_from_str
zero_text = refl

-- A u64 that is negative as an i64
negative_number : visit_u64 (2 ^ 64 - 1) ≡ ProxyProto.none
unfolding visit_u64
negative_number = refl

abbrev header : ProxyHeader
header = record {
  id = "one";
  client_addr = "addr";
  proto = "tcp";
  edge_type = EdgeType.tcp;
  passthrough_tls = false;
}

-- The state counts the reads.
abbrev lib : HeaderIo ℕ ℕ
lib = record {
  read_i64_le = λ stream s. (suc s, ok (pos 2));
  read_exact = λ stream n s. (suc s, ok (5 ∷ 6 ∷ []));
  from_utf8 = λ buf. ok "header";
  from_str = λ text. ok header;
}

announces :
    (s : ℕ) (z : ℤ) (s' : ℕ)
    → ◌≡◌ {A = ℕ × Result (Failure (IoError ℕ)) ℤ} (suc s, ok (pos 2)) (s', ok z)
    → IsI64 z
announces s z s' e = let eq : pos 2 ≡ z = cc in subst IsI64 eq (omega arith)
