-- ===== src/Errors.antt =====
-- benchhandoff/errors.py: the typed failures, and results of code that may raise.
use benchhandoff.Prelude.{ℕ, ◌≡◌, refl, ◌⊎◌, inl, inr, Bool, true, false}

-- The exception classes of errors.py, the private `_InvalidRequest` of controller_step.py, and two
-- classes for all others: `operational` is one of KeyError, IndexError, TypeError, ValueError and
-- OSError, which the engine's public functions convert, and `unexpected` is any other.
pub data Failure : Type 0 where
  benchhandoff_error configuration_error boundary_error task_execution_error evidence_error :
      Failure
  invalid_request operational unexpected : Failure

-- `exit_code` of the class; only subclasses of BenchHandoffError have one.
unfoldable pub exit_code : Failure → ℕ
exit_code task_execution_error = 20
exit_code evidence_error = 30
exit_code _ = 10

-- isinstance(exc, BenchHandoffError)
unfoldable pub is_benchhandoff : Failure → Bool
is_benchhandoff invalid_request = false
is_benchhandoff operational = false
is_benchhandoff unexpected = false
is_benchhandoff _ = true

pub data Result {ℓ} (A : Type ℓ) : Type ℓ where
  ok : A → Result A
  err : Failure → Result A

-- Code that goes on with a value, and code that goes on without one.
module _ {ℓ κ} {A : Type ℓ} {B : Type κ} where
  infixl 5 ◌>>=◌
  abbrev pub ◌>>=◌ : Result A → (A → Result B) → Result B
  ok value >>= next = next value
  err failure >>= next = err failure

module _ {ℓ} {B : Type ℓ} where
  infixl 5 ◌>>◌
  abbrev pub ◌>>◌ : Result (Unit {0}) → Result B → Result B
  first >> second = first >>= λ _. second

-- `if not test: raise failure`
abbrev pub require : Bool → Failure → Result (Unit {0})
require true e = ok tt
require false e = err e

-- `if test: raise failure`
abbrev pub refuse : Bool → Failure → Result (Unit {0})
refuse true e = err e
refuse false e = ok tt

-- `except` for a class of failures that the handler raises anew.
abbrev pub convert {ℓ} : {A : Type ℓ} → (Failure → Failure) → Result A → Result A
convert f (ok a) = ok a
convert f (err e) = err (f e)

-- Whether code came to an end, for the audits that only raise or return.
abbrev pub accepts {ℓ} : {A : Type ℓ} → Result A → Bool
accepts (ok a) = true
accepts (err e) = false

module _ {ℓ κ} {A : Type ℓ} {B : Type κ} where
  -- A chain that ends well had a first step that did, and went on from its value.
  pub >>=-eq-ok :
      (first : Result A) (next : A → Result B) {last : B}
      → (first >>= next) ≡ ok last
      → (middle : A) × (first ≡ ok middle) × (next middle ≡ ok last)
  >>=-eq-ok (err failure) next ended = cc
  >>=-eq-ok (ok middle) next ended = (middle, refl, ended)

module _ {ℓ} {B : Type ℓ} where
  pub require-eq-ok :
      (t : Bool) (e : Failure) (k : Result B) {b : B}
      → (require t e >> k) ≡ ok b
      → (t ≡ true) × (k ≡ ok b)
  require-eq-ok true e k h = (refl, h)
  require-eq-ok false e k h = cc

  pub refuse-eq-ok :
      (t : Bool) (e : Failure) (k : Result B) {b : B}
      → (refuse t e >> k) ≡ ok b
      → (t ≡ false) × (k ≡ ok b)
  refuse-eq-ok true e k h = cc
  refuse-eq-ok false e k h = (refl, h)

pub Result-cases {ℓ} :
    {A : Type ℓ} (r : Result A) → ((a : A) × (r ≡ ok a)) ⊎ ((e : Failure) × (r ≡ err e))
Result-cases (ok a) = inl (a, refl)
Result-cases (err e) = inr (e, refl)

pub ok-injective {ℓ} : {A : Type ℓ} {a b : A} → ◌≡◌ {A = Result A} (ok a) (ok b) → a ≡ b
ok-injective p = cc

pub ok-ne-err {ℓ} : {A : Type ℓ} {a : A} {e : Failure} → ¬ (◌≡◌ {A = Result A} (ok a) (err e))
ok-ne-err p = cc

-- The same for a test that stands last.
pub require_last : (t : Bool) (e : Failure) {b : Unit {0}} → require t e ≡ ok b → t ≡ true
require_last true e h = refl
require_last false e h = cc

pub refuse_last : (t : Bool) (e : Failure) {b : Unit {0}} → refuse t e ≡ ok b → t ≡ false
refuse_last true e h = cc
refuse_last false e h = refl

abbrev pub Failed {ℓ} : {A : Type ℓ} → Result A → Type ℓ
Failed x = (e : Failure) × (x ≡ err e)
