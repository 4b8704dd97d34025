-- ===== src/Ngrok/Io.antt =====
-- The asynchronous calls of ngrok/src, as functions on the state of what is outside of the crate:
-- the transport, the channels between tasks, and the peer. A stream, a channel or a half of a muxado
-- session is named by its number there.
use ngrok_rs.Common.{Result, ok, err, ◌≡◌, refl, subst, Bool, true, false, if◌then◌else◌}
use ngrok_rs.Errors.{Error}

-- `AcceptError` of ngrok/src/tunnel.rs
pub data AcceptError : Type 0 where
  transport : Error → AcceptError

-- `io::Error`: one that an operation gives, or one made with `io::Error::new`, of the kind `Other`
-- or `NotConnected`.
pub data IoError (Cause : Type 0) : Type 0 where
  given other : Cause → IoError Cause
  not_connected : AcceptError → IoError Cause

-- How a call ends without its value.
pub data Failure (E : Type 0) : Type 0 where
  raised : E → Failure E
  panicked : Failure E

-- A call from its first poll to its end.
abbrev pub Async : Type 0 → Type 0 → Type 0 → Type 0
Async State E A = State → State × Result (Failure E) A

module _ {State E A : Type 0} where
  abbrev pub return : A → Async State E A
  return a state = (state, ok a)

  abbrev pub fail : E → Async State E A
  fail e state = (state, err (raised e))

  abbrev pub panic : Async State E A
  panic state = (state, err panicked)

  abbrev pub lift : Result E A → Async State E A
  lift (ok a) = return a
  lift (err e) = fail e

abbrev pub and_then :
    {E A B State : Type 0}
    → State × Result (Failure E) A
    → (A → Async State E B)
    → State × Result (Failure E) B
and_then (state, ok a) f = f a state
and_then (state, err e) f = (state, err e)

-- `.await?` before the rest of the block
infixl 5 ◌>>=◌ ◌>>◌
abbrev pub ◌>>=◌ :
    {State E A B : Type 0} → Async State E A → (A → Async State E B) → Async State E B
m >>= f = λ state. and_then (m state) f

abbrev pub ◌>>◌ :
    {State E B : Type 0} → Async State E (Unit {0}) → Async State E B → Async State E B
m >> k = m >>= λ _. k

abbrev pub convert :
    {E E' A State : Type 0}
    → (E → E')
    → State × Result (Failure E) A
    → State × Result (Failure E') A
convert f (state, ok a) = (state, ok a)
convert f (state, err (raised e)) = (state, err (raised (f e)))
convert f (state, err panicked) = (state, err panicked)

-- `map_err`, and the conversion of errors that `?` makes
abbrev pub map_err : {State E E' A : Type 0} → (E → E') → Async State E A → Async State E' A
map_err f m state = convert f (m state)

-- What holds of the state and the value of a call that returns.
abbrev pub OnReturn {ℓ} :
    {E A State : Type 0} → (State → A → Type ℓ) → State × Result (Failure E) A → Type ℓ
OnReturn P (state, ok a) = P state a
OnReturn P (state, err e) = Unit

pub OnReturn-bind {ℓ} :
    {E A B State : Type 0} (P : State → B → Type ℓ) (p : State × Result (Failure E) A)
    (f : A → Async State E B)
    → ((mid : State) (a : A) → p ≡ (mid, ok a) → OnReturn P (f a mid))
    → OnReturn P (and_then p f)
OnReturn-bind P (state, ok a) f h = h state a refl
OnReturn-bind P (state, err e) f h = tt

pub OnReturn-convert {ℓ} :
    {E E' A State : Type 0} (P : State → A → Type ℓ) (g : E → E') (p : State × Result (Failure E) A)
    → OnReturn P p
    → OnReturn P (convert g p)
OnReturn-convert P g (state, ok a) h = h
OnReturn-convert P g (state, err (raised e)) h = tt
OnReturn-convert P g (state, err panicked) h = tt

pub OnReturn-try {ℓ} :
    {E E' A B State : Type 0} (P : State → B → Type ℓ) (g : E → E')
    (p : State × Result (Failure E) A) (f : A → Async State E' B)
    → ((mid : State) (a : A) → p ≡ (mid, ok a) → OnReturn P (f a mid))
    → OnReturn P (and_then (convert g p) f)
OnReturn-try P g (state, ok a) f h = h state a refl
OnReturn-try P g (state, err (raised e)) f h = tt
OnReturn-try P g (state, err panicked) f h = tt

pub OnReturn-lift {ℓ} :
    {E A State : Type 0} (P : State → A → Type ℓ) (r : Result E A) (state : State)
    → ((a : A) → r ≡ ok a → P state a)
    → OnReturn P (lift r state)
OnReturn-lift P (ok a) state h = h a refl
OnReturn-lift P (err e) state h = tt

pub OnReturn-self {ℓ} :
    {E A State : Type 0} (P : State → A → Type ℓ) (p : State × Result (Failure E) A)
    → ((state : State) (a : A) → p ≡ (state, ok a) → P state a)
    → OnReturn P p
OnReturn-self P (state, ok a) h = h state a refl
OnReturn-self P (state, err e) h = tt

pub OnReturn-ok {ℓ} :
    {E A State : Type 0} (P : State → A → Type ℓ) {p : State × Result (Failure E) A} {state : State}
    {a : A}
    → p ≡ (state, ok a)
    → OnReturn P p
    → P state a
OnReturn-ok P e h = subst (OnReturn P) e h

-- A text or a message is decoded without a change of the state.
pub OnReturn-lift_try {ℓ} :
    {E E' A B State : Type 0} (P : State → B → Type ℓ) (g : E → E') (r : Result E A) (state : State)
    (f : A → Async State E' B)
    → ((a : A) → r ≡ ok a → OnReturn P (f a state))
    → OnReturn P (and_then (convert g (lift r state)) f)
OnReturn-lift_try P g (ok a) state f h = h a refl
OnReturn-lift_try P g (err e) state f h = tt

pub OnReturn-if {ℓ} :
    {E A State : Type 0} (P : State → A → Type ℓ) (b : Bool) (x y : Async State E A) (state : State)
    → (b ≡ true → OnReturn P (x state))
    → (b ≡ false → OnReturn P (y state))
    → OnReturn P ((if b then x else y) state)
OnReturn-if P true x y state hx hy = hx refl
OnReturn-if P false x y state hx hy = hy refl

pub OnReturn-weaken {ℓ} :
    {E A State : Type 0} (P Q : State → A → Type ℓ) (p : State × Result (Failure E) A)
    → ((state : State) (a : A) → P state a → Q state a)
    → OnReturn P p
    → OnReturn Q p
OnReturn-weaken P Q (state, ok a) f h = f state a h
OnReturn-weaken P Q (state, err e) f h = tt
