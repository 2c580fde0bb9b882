-- ===== src/Prelude/Results.antt =====
-- Go's `(value, error)` results: an error carries its message.
use Prim.Native.String.{String}
use mathlib.Core.Bool.{Bool, true, false}
use mathlib.Core.Path.{◌≡◌, refl, subst}
use mathlib.Core.Logic.{◌⊎◌, inl, inr}

pub data Result {κ} (Value : Type κ) : Type κ where
  err : String → Result Value
  ok : Value → Result Value

-- What a result is: a value without an error, or an error.
pub Result-cases {κ} :
    {Value : Type κ} (r : Result Value)
    → ((v : Value) × (r ≡ ok v)) ⊎ ((message : String) × (r ≡ err message))
Result-cases (err message) = inr (message, refl)
Result-cases (ok v) = inl (v, refl)

-- `if bad { return errors.New(message) }`
abbrev pub fail_if : Bool → String → Result (Unit {0})
fail_if bad message = elim bad [ true ↦ err message | false ↦ ok tt ]

module _ {κ μ} {Value : Type κ} {Next : Type μ} where
  infixl 5 ◌>>=◌
  -- `if err != nil { return err }`, and the rest otherwise.
  abbrev pub ◌>>=◌ : Result Value → (Value → Result Next) → Result Next
  err message >>= rest = err message
  ok v >>= rest = rest v

module _ {μ} {Next : Type μ} where
  infixl 5 ◌>>◌
  abbrev pub ◌>>◌ : Result (Unit {0}) → Result Next → Result Next
  check >> rest = check >>= (λ passed. rest)

-- What a `json.RawMessage` decodes to: nothing, text that Unmarshal refuses, or a value.
pub data Raw {ℓ} (A : Type ℓ) : Type ℓ where
  absent : Raw A
  malformed : Raw A
  decoded : A → Raw A

-- The result, if there is one, satisfies `P`.
abbrev pub Ensures {ℓ κ} : {A : Type ℓ} → (A → Type κ) → Result A → Type κ
Ensures P (ok a) = P a
Ensures P (err e) = Unit

module _ {ℓ κ μ ν} {A : Type ℓ} {B : Type κ} (P : A → Type μ) (Q : B → Type ν) where
  pub >>=-Ensures :
      (m : Result A) (f : A → Result B)
      → Ensures P m
      → ((a : A) → P a → Ensures Q (f a))
      → Ensures Q (m >>= f)
  >>=-Ensures (ok a) f h k = k a h
  >>=-Ensures (err e) f h k = tt

pub fail_if-Ensures {κ ν} :
    {B : Type κ} (Q : B → Type ν) (bad : Bool) (message : String) (rest : Result B)
    → (bad ≡ false → Ensures Q rest)
    → Ensures Q (fail_if bad message >> rest)
fail_if-Ensures Q true message rest k = tt
fail_if-Ensures Q false message rest k = k refl

pub Ensures_ok {ℓ κ} :
    {A : Type ℓ} (P : A → Type κ) {r : Result A} {a : A} → Ensures P r → r ≡ ok a → P a
Ensures_ok P {r} {a} h e = subst (Ensures P) e h

pub Ensures-map {ℓ κ μ} :
    {A : Type ℓ} (P : A → Type κ) (Q : A → Type μ) (r : Result A)
    → Ensures P r
    → ((a : A) → P a → Q a)
    → Ensures Q r
Ensures-map P Q (ok a) h k = k a h
Ensures-map P Q (err e) h k = tt

pub Ensures-any {ℓ} : {A : Type ℓ} (r : Result A) → Ensures (λ _. Unit {0}) r
Ensures-any (ok a) = tt
Ensures-any (err e) = tt
