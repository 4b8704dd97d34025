-- ===== src/Common/Names.antt =====
-- A hash map with texts for keys, as the list of its entries. The order of the entries is the one
-- in which an iterator gives them.
use ngrok_rs.Common.Tests.{if◌then◌else◌}
use Prim.Native.String.{String}
use text.Mathlib.Text.{◌==◌}
use text.Mathlib.TextEquality.{eq_iff}
use text.Mathlib.TextPositions.{eq_refl}
use mathlib.Core.Path.{◌≡◌, refl, subst}
use mathlib.Core.Bool.{Bool, true, false}
use mathlib.Core.Option.{Option, none, some}
use mathlib.Core.List.{List, [], ◌∷◌}
use native.Mathlib.Omega.{arith}

-- The texts are equal.
abbrev pub same : String → String → Bool
same a b = a == b

module _ {ℓ} {Value : Type ℓ} where
  unfoldable pub get : List (String × Value) → String → Option Value
  get [] name = none
  get ((first, value) ∷ entries) name = if same first name then some value else get entries name

  unfoldable pub set : List (String × Value) → String → Value → List (String × Value)
  set [] name value = (name, value) ∷ []
  set ((first, old) ∷ entries) name value =
      if same first name then (name, value) ∷ entries else (first, old) ∷ set entries name value

  unfoldable pub delete : List (String × Value) → String → List (String × Value)
  delete [] name = []
  delete ((first, old) ∷ entries) name =
      if same first name then delete entries name else (first, old) ∷ delete entries name

  pub get-set :
      (entries : List (String × Value)) (name asked : String) (value : Value)
      → get (set entries name value) asked
        ≡ (if same name asked then some value else get entries asked)
  unfolding get set
  get-set [] name asked value = refl
  get-set ((first, old) ∷ entries) name asked value = ground (
    arith,
    eq_iff name asked,
    eq_iff first name,
    eq_iff first asked,
    get-set entries name asked value,
  )

  pub get-delete :
      (entries : List (String × Value)) (name asked : String)
      → get (delete entries name) asked ≡ (if same name asked then none else get entries asked)
  unfolding get delete
  get-delete [] name asked = ground arith
  get-delete ((first, old) ∷ entries) name asked = ground (
    arith,
    eq_iff name asked,
    eq_iff first name,
    eq_iff first asked,
    get-delete entries name asked,
  )

  pub get-set_self :
      (entries : List (String × Value)) (name : String) (value : Value)
      → get (set entries name value) name ≡ some value
  get-set_self entries name value = simp (get-set, eq_refl)

  pub get-delete_self :
      (entries : List (String × Value)) (name : String) → get (delete entries name) name ≡ none
  get-delete_self entries name = simp (get-delete, eq_refl)

  -- Each name has one entry.
  abbrev pub Distinct : List (String × Value) → Type ℓ
  Distinct [] = Unit
  Distinct ((name, value) ∷ entries) = (get entries name ≡ none) × Distinct entries

  Distinct-if :
      (b : Bool) (x y : List (String × Value))
      → (b ≡ true → Distinct x)
      → (b ≡ false → Distinct y)
      → Distinct (if b then x else y)
  Distinct-if true x y hx hy = hx refl
  Distinct-if false x y hx hy = hy refl

  pub Distinct-set :
      (entries : List (String × Value)) (name : String) (value : Value)
      → Distinct entries
      → Distinct (set entries name value)
  unfolding get set
  Distinct-set [] name value h = (refl, tt)
  Distinct-set ((first, old) ∷ entries) name value (n, d) =
      Distinct-if (same first name) ((name, value) ∷ entries)
        ((first, old) ∷ set entries name value) (λ e. (ground (arith, eq_iff first name), d))
        (λ e. (
          ground (arith, eq_iff first name, eq_iff name first, get-set entries name first value),
          Distinct-set entries name value d,
        ))

  pub Distinct-delete :
      (entries : List (String × Value)) (name : String)
      → Distinct entries
      → Distinct (delete entries name)
  unfolding get delete
  Distinct-delete [] name h = tt
  Distinct-delete ((first, old) ∷ entries) name (n, d) =
      Distinct-if (same first name) (delete entries name) ((first, old) ∷ delete entries name)
        (λ e. Distinct-delete entries name d)
        (λ e. (ground (arith, get-delete entries name first), Distinct-delete entries name d))

  some_injective : {a b : Value} → some a ≡ some b → a ≡ b
  some_injective e = cc

  -- What holds of every value.
  abbrev pub AllValues {κ} : (Value → Type κ) → List (String × Value) → Type κ
  AllValues P [] = Unit
  AllValues P ((name, value) ∷ entries) = P value × AllValues P entries

  AllValues-if {κ} :
      (P : Value → Type κ) (b : Bool) (x y : List (String × Value))
      → AllValues P x
      → AllValues P y
      → AllValues P (if b then x else y)
  AllValues-if P true x y hx hy = hx
  AllValues-if P false x y hx hy = hy

  pub AllValues-set {κ} :
      (P : Value → Type κ) (entries : List (String × Value)) (name : String) (value : Value)
      → AllValues P entries
      → P value
      → AllValues P (set entries name value)
  unfolding set
  AllValues-set P [] name value h p = (p, tt)
  AllValues-set P ((first, old) ∷ entries) name value (o, h) p =
      AllValues-if P (same first name) ((name, value) ∷ entries)
        ((first, old) ∷ set entries name value) (p, h) (o, AllValues-set P entries name value h p)

  pub AllValues-delete {κ} :
      (P : Value → Type κ) (entries : List (String × Value)) (name : String)
      → AllValues P entries
      → AllValues P (delete entries name)
  unfolding delete
  AllValues-delete P [] name h = tt
  AllValues-delete P ((first, old) ∷ entries) name (o, h) =
      AllValues-if P (same first name) (delete entries name) ((first, old) ∷ delete entries name)
        (AllValues-delete P entries name h) (o, AllValues-delete P entries name h)

  AllValues-found {κ} :
      (P : Value → Type κ) (b : Bool) (old : Value) (rest : Option Value) (value : Value)
      → P old
      → (rest ≡ some value → P value)
      → (if b then some old else rest) ≡ some value
      → P value
  AllValues-found P true old rest value o h e = subst P (some_injective e) o
  AllValues-found P false old rest value o h e = h e

  pub AllValues-get {κ} :
      (P : Value → Type κ) (entries : List (String × Value)) (name : String) (value : Value)
      → AllValues P entries
      → get entries name ≡ some value
      → P value
  unfolding get
  AllValues-get P [] name value h e = cc
  AllValues-get P ((first, old) ∷ entries) name value (o, h) e =
      AllValues-found P (same first name) old (get entries name) value o
        (λ e'. AllValues-get P entries name value h e') e
