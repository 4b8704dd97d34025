-- ===== src/Heartbeat/Echo.antt =====
-- The two ends of a heartbeat stream of muxado/src/heartbeat.rs.
use ngrok_rs.Common.{
  ℕ, ◌-◌, ◌≡◌, refl, ap, ◌∙◌, arith, ◌==◌, Bool, true, false, List, [], ◌∷◌, ◌++◌, append-nil,
  append_assoc, ok, if◌then◌else◌, Bool-cases, inl, inr,
}
use ngrok_rs.Frame.{Bytes}
use ngrok_rs.Heartbeat.{Served, responder, Round, Requester, report, requester}

-- Rounds in which each `read` fills the buffer and each write goes through.
abbrev pub served_words : List (ℕ × ℕ × ℕ × ℕ) → List Served
served_words [] = []
served_words ((a, b, c, d) ∷ ws) =
    record { read = ok (a ∷ b ∷ c ∷ d ∷ []); write = ok tt } ∷ served_words ws

abbrev pub bytes_of : List (ℕ × ℕ × ℕ × ℕ) → Bytes
bytes_of [] = []
bytes_of ((a, b, c, d) ∷ ws) = a ∷ b ∷ c ∷ d ∷ bytes_of ws

-- While each of its reads gives a whole word and its writes go through, the responder writes back
-- the bytes that it has read, and goes on.
pub responder_echoes :
    (ws : List (ℕ × ℕ × ℕ × ℕ)) → responder (served_words ws) ≡ (bytes_of ws, false)
unfolding responder
responder_echoes [] = refl
responder_echoes ((a, b, c, d) ∷ ws) =
    ap (λ (p : Bytes × Bool). (a ∷ b ∷ c ∷ d ∷ p.0, p.1)) (responder_echoes ws)

-- Rounds of a stream that is at its end, where `read` gives no byte.
abbrev pub at_end : List (Unit {0}) → List Served
at_end [] = []
at_end (_ ∷ us) = record { read = ok []; write = ok tt } ∷ at_end us

abbrev pub zero_words : List (Unit {0}) → Bytes
zero_words [] = []
zero_words (_ ∷ us) = 0 ∷ 0 ∷ 0 ∷ 0 ∷ zero_words us

-- When the peer has ended the stream, the responder does not end: as long as its writes go through
-- it writes a word of zeros for every read that gives nothing.
pub responder-at_end : (us : List (Unit {0})) → responder (at_end us) ≡ (zero_words us, false)
unfolding responder
responder-at_end [] = refl
responder-at_end (u ∷ us) =
    ap (λ (p : Bytes × Bool). (0 ∷ 0 ∷ 0 ∷ 0 ∷ p.0, p.1)) (responder-at_end us)

-- Every round's id comes back.
abbrev pub Echoed : List Round → Type 0
Echoed [] = Unit
Echoed (round ∷ rest) = (round.write ≡ ok tt) × (round.read ≡ ok round.id) × Echoed rest

-- The latencies of the rounds that are on demand, or of the others.
abbrev pub latencies : Bool → List Round → List ℕ
latencies on_demand [] = []
latencies true (round ∷ rest) =
    if round.on_demand
    then (round.now - round.started) ∷ latencies true rest
    else latencies true rest
latencies false (round ∷ rest) =
    if round.on_demand
    then latencies false rest
    else (round.now - round.started) ∷ latencies false rest

abbrev pub ids_of : List Round → List ℕ
ids_of [] = []
ids_of (round ∷ rest) = round.id ∷ ids_of rest

abbrev wrote : Requester → Round → Requester
wrote r round = record r { ids = r.ids ++ (round.id ∷ []) }

requester_step :
    (r : Requester) (round : Round) (rest : List Round)
    → round.write ≡ ok tt
    → round.read ≡ ok round.id
    → requester r (round ∷ rest) ≡ requester (report (wrote r round) round) rest
unfolding requester
requester_step r round rest w e = simp (w, e, same, requester)
  where
    same : (round.id == round.id) ≡ true
    same = ground arith

-- With a peer that echoes and writes that go through, the requester goes on: it has written the
-- id of every round, those who asked for a heartbeat have the latencies of their rounds, and all
-- the others are sent to the check task, each in order.
pub requester-Echoed :
    (r : Requester) (rounds : List Round)
    → Echoed rounds
    → requester r rounds ≡ (
      record {
        ids = r.ids ++ ids_of rounds;
        responses = r.responses ++ latencies true rounds;
        marks = r.marks ++ latencies false rounds;
      },
      false,
    )
unfolding requester report
requester-Echoed r [] h = simp (append-nil)
requester-Echoed r (round ∷ rest) (w, e, h) =
    requester_step r round rest w e
    ∙ requester-Echoed (report (wrote r round) round) rest h
    ∙ elim (Bool-cases round.on_demand) [
      | inl q ↦ simp (q, report, append_assoc)
      | inr q ↦ simp (q, report, append_assoc)
    ]
