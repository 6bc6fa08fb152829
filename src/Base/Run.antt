-- ===== src/Base/Run.antt =====
-- Calls that may stop the program: `abort` is a failed assertion, undefined behaviour or a call of `exit`.
use mathlib.Core.Path.{◌≡◌, refl}
use mathlib.Core.Bool.{Bool, true, false}
use mathlib.Core.Logic.{◌⊎◌, inl, inr}

pub data Run {ℓ} (A : Type ℓ) : Type ℓ where
  abort : Run A
  ok : A → Run A

-- `assert(b)`
abbrev pub check : Bool → Run (Unit {0})
check false = abort
check true = ok tt

module _ {ℓ κ} {A : Type ℓ} {B : Type κ} where
  infixl 5 ◌>>=◌
  abbrev pub ◌>>=◌ : Run A → (A → Run B) → Run B
  abort >>= next = abort
  ok a >>= next = next a

  -- A sequence that went through, taken apart and put together.
  pub >>=-eq-ok :
      (call : Run A) (next : A → Run B) {b : B}
      → (call >>= next) ≡ ok b
      → (a : A) × (call ≡ ok a) × (next a ≡ ok b)
  >>=-eq-ok abort next went = cc
  >>=-eq-ok (ok a) next went = (a, refl, went)

  pub >>=-ok : {call : Run A} (next : A → Run B) {a : A} → call ≡ ok a → (call >>= next) ≡ next a
  >>=-ok next went = rw went

infixl 5 ◌>>◌
abbrev pub ◌>>◌ {ℓ} : {B : Type ℓ} → Run (Unit {0}) → Run B → Run B
call >> next = call >>= λ t. next

module _ {ℓ} {A : Type ℓ} where
  pub Run-cases : (call : Run A) → ((a : A) × (call ≡ ok a)) ⊎ (call ≡ abort)
  Run-cases abort = inr refl
  Run-cases (ok a) = inl (a, refl)

  pub ok-injective : {a b : A} → ok a ≡ ok b → a ≡ b
  ok-injective same = cc
