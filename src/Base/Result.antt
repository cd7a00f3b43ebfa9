-- ===== src/Base/Result.antt =====
-- Errors as values: `AppError` of backend/app/core/errors.py, and the exceptions that it carries.
use Prim.Native.Nat.{ℕ}
use mathlib.Core.Path.{◌≡◌, refl}
use mathlib.Core.Bool.{Bool, true, false}
use mathlib.Core.Option.{Option, none, some}
use mathlib.Core.Logic.{◌⊎◌, inl, inr}
pub mod Codes
pub use Codes.{Code}

-- The status and the code of an `AppError`; its message is a text for the client.
abbrev pub AppError : Type 0
AppError = ℕ × Code

pub data Result {ℓ} (A : Type ℓ) : Type ℓ where
  ok : A → Result A
  err : AppError → Result A

-- `if c: raise AppError(status_code=status, code=code)`
abbrev pub raise_if : Bool → ℕ → Code → Result (Unit {0})
raise_if true status code = err (status, code)
raise_if false status code = ok tt

-- The statements of a function run in their order, up to the first exception.
module _ {ℓ κ} {A : Type ℓ} {B : Type κ} where
  infixl 5 ◌>>=◌
  abbrev pub ◌>>=◌ : Result A → (A → Result B) → Result B
  ok value >>= next = next value
  err raised >>= next = err raised

  -- A function that returns has run each of its statements.
  pub >>=-eq-ok :
      (first : Result A) (next : A → Result B) {result : B}
      → (first >>= next) ≡ ok result
      → (value : A) × (first ≡ ok value) × (next value ≡ ok result)
  >>=-eq-ok (ok value) next h = (value, refl, h)
  >>=-eq-ok (err raised) next h = absurd (cc)

infixl 5 ◌>>◌
abbrev pub ◌>>◌ {κ} : {B : Type κ} → Result (Unit {0}) → Result B → Result B
check >> rest = check >>= λ _. rest

-- What follows a check that raised nothing.
pub passed {κ} :
    {B : Type κ} (c : Bool) (status : ℕ) (code : Code) (rest : Result B) {result : B}
    → (raise_if c status code >> rest) ≡ ok result
    → (c ≡ false) × (rest ≡ ok result)
passed true status code rest h = absurd (cc)
passed false status code rest h = (refl, h)

-- The value of an optional field, or the exception that its absence raises.
abbrev pub or_raise {ℓ} : {A : Type ℓ} → Option A → ℕ → Code → Result A
or_raise none status code = err (status, code)
or_raise (some a) status code = ok a

-- What a request leaves behind: the committed state, and the error that it raised after it had
-- committed, if any. An error that is raised before the commit is an `err`: nothing is stored.
pub record Reply (S : Type 0) : Type 0 where
  pub store : S
  pub raised : Option AppError

module _ {S : Type 0} where
  abbrev pub done : S → Reply S
  done s = record { store = s; raised = none }

  abbrev pub raised_after_commit : S → ℕ → Code → Reply S
  raised_after_commit s status code = record { store = s; raised = some (status, code) }

-- A request that commits `s` first: an error that it raises afterwards does not undo that.
abbrev pub commit_first : {S : Type 0} → S → Result S → Reply S
commit_first s (ok s') = record { store = s'; raised = none }
commit_first s (err e) = record { store = s; raised = some e }

pub Result-cases {ℓ} :
    {A : Type ℓ} (m : Result A) → ((a : A) × (m ≡ ok a)) ⊎ ((e : AppError) × (m ≡ err e))
Result-cases (ok a) = inl (a, refl)
Result-cases (err e) = inr (e, refl)
