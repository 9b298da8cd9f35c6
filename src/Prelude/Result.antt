-- ===== src/Prelude/Result.antt =====
-- The exceptions that the modelled code raises, and the values of code that may raise them.
use eva.Prelude.{◌≡◌, refl, ap, Bool, true, false, Option, none, some}

pub data Error : Type 0 where
  assertion_error index_error key_error attribute_error runtime_error type_error : Error
  binder_error value_error unbound_local_error not_implemented_error zero_division_error : Error
  -- the source goes on with values that the model does not have
  unsupported : Error

-- what a call gives back: its value, or the exception that left it
pub data Result {ℓ} (Value : Type ℓ) : Type ℓ where
  err : (raised : Error) → Result Value
  ok : (value : Value) → Result Value

-- a value that is there, or the exception of its absence
abbrev pub or_raise {ℓ} : {X : Type ℓ} → Error → Option X → Result X
or_raise raised none = err raised
or_raise raised (some x) = ok x

-- a Python `assert`
abbrev pub assert : Bool → Result (Unit {0})
assert false = err assertion_error
assert true = ok tt

abbrev pub is_ok {ℓ} : {X : Type ℓ} → Result X → Bool
is_ok (err raised) = false
is_ok (ok x) = true

-- an exception leaves out what follows
infixl 5 ◌>>=◌ ◌>>◌
abbrev pub ◌>>=◌ {ℓ κ} : {X : Type ℓ} {Y : Type κ} → Result X → (X → Result Y) → Result Y
err raised >>= next = err raised
ok x >>= next = next x

abbrev pub ◌>>◌ {ℓ κ} : {X : Type ℓ} {Y : Type κ} → Result X → Result Y → Result Y
first >> second = first >>= λ ignored. second

pub ok-injective {ℓ} : {X : Type ℓ} {x y : X} → ok x ≡ ok y → x ≡ y
ok-injective same = cc

-- a call followed by another returns only where both do
pub >>=-eq-ok {ℓ κ} :
    {X : Type ℓ} {Y : Type κ} (first : Result X) (next : X → Result Y) {y : Y}
    → (first >>= next) ≡ ok y
    → (x : X) × (first ≡ ok x) × (next x ≡ ok y)
>>=-eq-ok (err raised) next returned = cc
>>=-eq-ok (ok x) next returned = (x, refl, returned)

pub or_raise-eq-ok {ℓ} :
    {X : Type ℓ} (raised : Error) (o : Option X) {x : X} → or_raise raised o ≡ ok x → o ≡ some x
or_raise-eq-ok raised none h = absurd (cc)
or_raise-eq-ok raised (some x) h = ap some (ok-injective h)
