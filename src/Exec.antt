-- ===== src/Exec.antt =====
-- Statements that change an object and may raise. What was changed before a raise stays changed, so
-- the object comes back beside the failure too.
use benchhandoff.Prelude.{◌≡◌, refl}
use benchhandoff.Errors.{Failure, Result, ok, err}

abbrev pub Exec {ℓ} : Type ℓ → Type ℓ → Type ℓ
Exec S A = S → Result A × S

module _ {ℓ} {S A : Type ℓ} where
  abbrev pub pure : A → Exec S A
  pure a s = (ok a, s)

  abbrev pub raise : Failure → Exec S A
  raise e s = (err e, s)

  abbrev pub lift : Result A → Exec S A
  lift r s = (r, s)

  abbrev pub gets : (S → A) → Exec S A
  gets f s = (ok (f s), s)

module _ {ℓ} {S : Type ℓ} where
  abbrev pub modify : (S → S) → S → Result (Unit {0}) × S
  modify f s = (ok tt, f s)

module _ {S A B : Type 0} where
  abbrev pub resume_with : (A → Exec S B) → Result A × S → Result B × S
  resume_with f (ok a, s) = f a s
  resume_with f (err e, s) = (err e, s)

  infixl 5 ◌>>=◌ ◌>>◌
  abbrev pub ◌>>=◌ : Exec S A → (A → Exec S B) → Exec S B
  ◌>>=◌ m f s = resume_with f (m s)

  abbrev pub ◌>>◌ : Exec S A → Exec S B → Exec S B
  ◌>>◌ m n s = resume_with (λ _. n) (m s)

module _ {S A : Type 0} where
  abbrev pub undo_on_failure : (S → S) → Result A × S → Result A × S
  undo_on_failure undo (ok a, s) = (ok a, s)
  undo_on_failure undo (err e, s) = (err e, undo s)

  -- try: m except: undo(); raise
  abbrev pub on_failure : Exec S A → (S → S) → Exec S A
  on_failure m undo s = undo_on_failure undo (m s)

module _ {S A : Type 0} where
  abbrev pub closing : Result A → Result (Unit {0}) × S → Result A × S
  closing r (ok _, s) = (r, s)
  closing r (err e, s) = (err e, s)

  -- try: m finally: close()
  abbrev pub finally : Exec S A → Exec S (Unit {0}) → Exec S A
  finally m close s = let (r, after) = m s in closing r (close after)

  -- A chain that ends well had a first part that did, and went on from its value and its state.
  pub closing-eq-ok :
      (r : Result A) (c : Result (Unit {0}) × S) {a : A} → (closing r c).0 ≡ ok a → r ≡ ok a
  closing-eq-ok r (ok _, s) h = h
  closing-eq-ok r (err e, s) h = cc

module _ {S A B : Type 0} where
  pub resume-eq-ok :
      (f : A → Exec S B) (m : Result A × S) {b : B}
      → (resume_with f m).0 ≡ ok b
      → (a : A) × (m.0 ≡ ok a) × ((f a m.1).0 ≡ ok b)
  resume-eq-ok f (ok a, s) h = (a, refl, h)
  resume-eq-ok f (err e, s) h = cc

module _ {S A : Type 0} where
  abbrev pub converted : (Failure → Failure) → Result A × S → Result A × S
  converted f (ok a, s) = (ok a, s)
  converted f (err e, s) = (err (f e), s)

  -- try: m except ...: raise another failure
  abbrev pub converting : (Failure → Failure) → Exec S A → Exec S A
  converting f m s = converted f (m s)

  pub converted-eq-ok :
      (f : Failure → Failure) (m : Result A × S) {a : A}
      → (converted f m).0 ≡ ok a
      → (m.0 ≡ ok a) × ((converted f m).1 ≡ m.1)
  converted-eq-ok f (ok a, s) h = (h, refl)
  converted-eq-ok f (err e, s) h = cc

module _ {S A B : Type 0} where
  -- What holds of a failure, and of what follows a value, holds of the chain.
  pub resume-holds :
      (Holds : Result B × S → Type 0) (f : A → Exec S B) (m : Result A × S)
      → ((e : Failure) (s : S) → Holds (err e, s))
      → ((a : A) → m.0 ≡ ok a → Holds (f a m.1))
      → Holds (resume_with f m)
  resume-holds Holds f (ok a, s) failed went_on = went_on a refl
  resume-holds Holds f (err e, s) failed went_on = failed e s

  -- A chain by the two ways in which its first part may end.
  pub resume-cases :
      (Holds : Result B × S → Type 0) (f : A → Exec S B) (m : Result A × S)
      → ((e : Failure) → m.0 ≡ err e → Holds (err e, m.1))
      → ((a : A) → m.0 ≡ ok a → Holds (f a m.1))
      → Holds (resume_with f m)
  resume-cases Holds f (ok a, s) failed went_on = went_on a refl
  resume-cases Holds f (err e, s) failed went_on = failed e refl

  pub converted-cases :
      (Holds : Result B × S → Type 0) (f : A → Exec S B) (g : Failure → Failure) (m : Result A × S)
      → ((e : Failure) → m.0 ≡ err e → Holds (err (g e), m.1))
      → ((a : A) → m.0 ≡ ok a → Holds (f a m.1))
      → Holds (resume_with f (converted g m))
  converted-cases Holds f g (ok a, s) failed went_on = went_on a refl
  converted-cases Holds f g (err e, s) failed went_on = failed e refl
