-- ===== src/Ngrok/Tunnel/Runs.antt =====
-- Concrete runs of ngrok/src/tunnel_ext.rs, and its theorems at concrete inputs.
use ngrok_rs.Common.{
  ℕ, zero, suc, ◌≡◌, refl, [], ◌∷◌, ◌++◌, none, some, Result, ok, err, ready, arith,
}
use ngrok_rs.Frame.{Bytes}
use ngrok_rs.Ngrok.Io.{Failure, IoError, raised, given}
use ngrok_rs.Ngrok.Session.{IpAddr, SocketAddr}
use ngrok_rs.Ngrok.Tunnel.{ForwardIo, forward_conns}
use ngrok_rs.Ngrok.Tunnel.Copying.{IsPipe, Copied, forward_bytes-copies}

-- What is left to read, what was written, and the connections of the tunnel.
abbrev State : Type 0
State = Bytes × (Bytes × ℕ)

abbrev addr : SocketAddr
addr = record { ip = IpAddr.v4 1; port = 2 }

abbrev read_one : State → State × Result (Failure (IoError ℕ)) Bytes
read_one ([], rest) = (([], rest), ok [])
read_one (b ∷ bs, rest) = ((bs, rest), ok (b ∷ []))

-- Each read gives one byte, and no local connection can be made.
abbrev lib : ForwardIo State ℕ
lib = record {
  read = λ r size s. read_one s;
  write_all = λ w buf s. ((s.0, (s.1.0 ++ buf, s.1.1)), ok tt);
  try_next = λ this s. elim s.1.1 [
    | zero ↦ (s, ok none)
    | suc n ↦ ((s.0, (s.1.0, n)), ok (some (record { remote_addr = addr; stream = 9 })))
  ];
  lookup_host = λ addr s. (s, ok []);
  connect = λ addrs s. (s, err (raised (given 1)));
  connect_unix = λ addr s. (s, err (raised (given 1)));
  peer_addr = λ conn s. (s, ok tt);
  join_streams = λ conn local s. s;
  on_error = λ error conn s. s;
}

reads_one :
    (s : State)
    → (s' : State) × ((buf : Bytes) × ((read_one s ≡ (s', ok buf))
          × (s.0 ≡ buf ++ s'.0)
          × (s'.1.0 ≡ s.1.0)
          × (buf ≡ [] → s.0 ≡ [])))
reads_one ([], rest) = (([], rest), ([], (refl, refl, refl, λ e. refl)))
reads_one (b ∷ bs, rest) = ((bs, rest), (b ∷ [], (refl, refl, refl, λ e. cc)))

pipes : IsPipe lib 1 2 (λ s. s.0) (λ s. s.1.0)
pipes = record {
  reads = reads_one;
  writes = λ s buf. ((s.0, (s.1.0 ++ buf, s.1.1)), (refl, refl, refl));
}

forward_bytes-copies_example : Copied lib 1 2 (λ s. s.0) (λ s. s.1.0) 3 (5 ∷ 6 ∷ [], ([], 0))
forward_bytes-copies_example =
    forward_bytes-copies lib 1 2 (λ s. s.0) (λ s. s.1.0) 3 (5 ∷ 6 ∷ [], ([], 0)) pipes (omega arith)

-- Both connections fail to reach the backend; the loop goes on to the end of the tunnel.
forwards_two : forward_conns lib 3 0 "addr" ([], ([], 2)) ≡ (([], ([], 0)), ready (ok tt))
unfolding forward_conns
forwards_two = refl
