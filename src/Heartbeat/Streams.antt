-- ===== src/Heartbeat/Streams.antt =====
-- Which streams a session of muxado/src/heartbeat.rs hands out.
use ngrok_rs.Common.{
  ℕ, ◌≡◌, ◌≢◌, refl, ap, arith, ◌==◌, inl, inr, Bool-cases, List, [], ◌∷◌, ◌++◌, map, Result, ok,
  err, Poll, ready, pending,
}
use ngrok_rs.Errors.{Error}
use ngrok_rs.Typed.{TypedStream}
use ngrok_rs.Heartbeat.{accept_typed}

-- Every stream of the list has this type.
abbrev pub AllOfType : ℕ → List TypedStream → Type 0
AllOfType typ [] = Unit
AllOfType typ (s ∷ ss) = (s.typ ≡ typ) × AllOfType typ ss

-- What was given before the answer, and the answer.
abbrev pub Passes :
    ℕ
    → List (Result Error TypedStream)
    → List TypedStream
    → Poll (Result Error TypedStream)
    → Type 0
Passes typ given responders pending = given ≡ map ok responders
Passes typ given responders (ready (err e)) =
    (rest : List (Result Error TypedStream)) × (given ≡ map ok responders ++ (err e ∷ rest))
Passes typ given responders (ready (ok s)) =
    (s.typ ≢ typ)
    × ((rest : List (Result Error TypedStream)) × (given ≡ map ok responders ++ (ok s ∷ rest)))

Passes-cons :
    (typ : ℕ) (s : TypedStream) (given : List (Result Error TypedStream))
    (responders : List TypedStream) (a : Poll (Result Error TypedStream))
    → Passes typ given responders a
    → Passes typ (ok s ∷ given) (s ∷ responders) a
Passes-cons typ s given responders pending h = ap (λ xs. ok s ∷ xs) h
Passes-cons typ s given responders (ready (err e)) (rest, h) = (rest, ap (λ xs. ok s ∷ xs) h)
Passes-cons typ s given responders (ready (ok t)) (ne, (rest, h)) =
    (ne, (rest, ap (λ xs. ok s ∷ xs) h))

-- Of the streams that the inner session gives, those of the heartbeat type get a responder each,
-- in order, and are not handed out; the answer is the first stream of another type or the first
-- error, and it is awaited while there is neither.
pub accept_typed-Passes :
    (typ : ℕ) (given : List (Result Error TypedStream))
    → AllOfType typ (accept_typed typ given).0
      × Passes typ given (accept_typed typ given).0 (accept_typed typ given).1
unfolding accept_typed
accept_typed-Passes typ [] = (tt, refl)
accept_typed-Passes typ (err e ∷ rest) = (tt, (rest, refl))
accept_typed-Passes typ (ok s ∷ rest) =
    let (all, passes) = accept_typed-Passes typ rest in
    elim (Bool-cases (s.typ == typ)) [
      | inl h ↦ simp (h, accept_typed) ((ground arith, all), Passes-cons typ s rest _ _ passes)
      | inr h ↦ simp (h, accept_typed) (tt, ((λ e. ground arith), (rest, refl)))
    ]
