-- ===== src/Common/Results.antt =====
-- Rust's `Result`, with its early return, and `Poll`.
use mathlib.Core.Path.{◌≡◌, refl, sym, subst}
use mathlib.Core.Bool.{Bool, true, false}
use ngrok_rs.Common.Tests.{if◌then◌else◌}
use mathlib.Core.Logic.{◌⊎◌, inl, inr}

pub data Result {ℓ κ} (E : Type κ) (A : Type ℓ) : Type (ℓ ⊔ κ) where
  ok : A → Result E A
  err : E → Result E A

-- `?` on a result of the same error type.
infixl 5 ◌>>=◌ ◌>>◌
abbrev pub ◌>>=◌ {ℓ κ μ} :
    {E : Type κ} {A : Type ℓ} {B : Type μ} → Result E A → (A → Result E B) → Result E B
ok a >>= f = f a
err e >>= f = err e

abbrev pub ◌>>◌ {κ μ} : {E : Type κ} {B : Type μ} → Result E (Unit {0}) → Result E B → Result E B
m >> k = m >>= λ _. k

pub data Poll {ℓ} (A : Type ℓ) : Type ℓ where
  ready : A → Poll A
  pending : Poll A

-- To split on a computed result and keep the equation.
pub Result-cases {ℓ κ} :
    {E : Type κ} {A : Type ℓ} (r : Result E A) → ((a : A) × (r ≡ ok a)) ⊎ ((e : E) × (r ≡ err e))
Result-cases (ok a) = inl (a, refl)
Result-cases (err e) = inr (e, refl)

-- A Rust panic, as the error of a computation that may panic.
pub data Panic : Type 0 where
  panic : Panic

-- What holds of the value of a computation, if it has one.
abbrev pub OnOk {ℓ κ μ} : {E : Type κ} {A : Type ℓ} → (A → Type μ) → Result E A → Type μ
OnOk P (ok a) = P a
OnOk P (err e) = Unit

pub OnOk-ok {ℓ κ μ} :
    {E : Type κ} {A : Type ℓ} (P : A → Type μ) (r : Result E A) (a : A) → r ≡ ok a → OnOk P r → P a
OnOk-ok P r a e h = subst (OnOk P) e h

pub OnOk-if {ℓ κ μ} :
    {E : Type κ} {A : Type ℓ} (P : A → Type μ) (b : Bool) (x y : Result E A)
    → OnOk P x
    → OnOk P y
    → OnOk P (if b then x else y)
OnOk-if P true x y hx hy = hx
OnOk-if P false x y hx hy = hy

-- The computation has a value, and this holds of it.
abbrev pub Succeeds {ℓ κ} : {E : Type κ} {A : Type ℓ} → (A → Type 0) → Result E A → Type 0
Succeeds P (ok a) = P a
Succeeds P (err e) = ⊥

pub Succeeds-if {ℓ κ} :
    {E : Type κ} {A : Type ℓ} (P : A → Type 0) (b : Bool) (x y : Result E A)
    → (b ≡ true → Succeeds P x)
    → (b ≡ false → Succeeds P y)
    → Succeeds P (if b then x else y)
Succeeds-if P true x y hx hy = hx refl
Succeeds-if P false x y hx hy = hy refl

pub Succeeds-ok {ℓ κ} :
    {E : Type κ} {A : Type ℓ} (P : A → Type 0) (r : Result E A)
    → Succeeds P r
    → (a : A) × (r ≡ ok a) × P a
Succeeds-ok P (ok a) h = (a, refl, h)
Succeeds-ok P (err e) h = elim h [ ]

pub Poll-cases {ℓ} : {A : Type ℓ} (p : Poll A) → (p ≡ pending) ⊎ ((a : A) × (p ≡ ready a))
Poll-cases pending = inl refl
Poll-cases (ready a) = inr (a, refl)

pub OnOk-bind {ℓ κ μ} :
    {E : Type κ} {A B : Type ℓ} (P : A → Type μ) (Q : B → Type μ) (r : Result E A)
    (f : A → Result E B)
    → OnOk P r
    → ((a : A) → P a → OnOk Q (f a))
    → OnOk Q (r >>= f)
OnOk-bind P Q (ok a) f h k = k a h
OnOk-bind P Q (err e) f h k = tt

pub OnOk-weaken {ℓ κ μ} :
    {E : Type κ} {A : Type ℓ} (P Q : A → Type μ) (r : Result E A)
    → ((a : A) → P a → Q a)
    → OnOk P r
    → OnOk Q r
OnOk-weaken P Q (ok a) f h = f a h
OnOk-weaken P Q (err e) f h = tt

pub OnOk-sym {ℓ κ μ} :
    {E : Type κ} {A : Type ℓ} (P : A → Type μ) (x y : Result E A) → x ≡ y → OnOk P y → OnOk P x
OnOk-sym P x y e h = subst (OnOk P) (sym e) h

pub Succeeds-sym {ℓ κ} :
    {E : Type κ} {A : Type ℓ} (P : A → Type 0) (x y : Result E A)
    → x ≡ y
    → Succeeds P y
    → Succeeds P x
Succeeds-sym P x y e h = subst (Succeeds P) (sym e) h

pub Succeeds-weaken {ℓ κ} :
    {E : Type κ} {A : Type ℓ} (P Q : A → Type 0) (r : Result E A)
    → ((a : A) → P a → Q a)
    → Succeeds P r
    → Succeeds Q r
Succeeds-weaken P Q (ok a) f h = f a h
Succeeds-weaken P Q (err e) f h = h

pub Succeeds-bind {ℓ κ} :
    {E : Type κ} {A B : Type ℓ} (P : A → Type 0) (Q : B → Type 0) (r : Result E A)
    (f : A → Result E B)
    → Succeeds P r
    → ((a : A) → P a → Succeeds Q (f a))
    → Succeeds Q (r >>= f)
Succeeds-bind P Q (ok a) f h k = k a h
Succeeds-bind P Q (err e) f h k = elim h [ ]
