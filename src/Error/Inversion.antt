-- ===== src/Error/Inversion.antt =====
-- What the result of an operation over the errors of src/ops-service/src/error.rs says about its parts:
-- each rule takes a statement off the front of an operation that returned a value.
use ops_service.Prelude.{◌≡◌, refl, Bool, true, false, Option, none, some}
use ops_service.Error.{
  AppError, R, ok, err, panicked, Act, then_run, or_fail, refuse_if, execute, fetch,
}

module _ {ℓ} {S A B : Type 0} {b : B} {Q : Type ℓ} where
  pub after_run :
      (m : S × R A) (f : A → Act S B)
      → ((a : A) → m.1 ≡ ok a → (f a m.0).1 ≡ ok b → Q)
      → (then_run m f).1 ≡ ok b
      → Q
  after_run (s, ok a) f k h = k a refl h
  after_run (s, err e) f k h = absurd cc
  after_run (s, panicked) f k h = absurd cc

  pub after_or_fail :
      (o : Option A) (e : AppError) (s : S) (f : A → Act S B)
      → ((a : A) → o ≡ some a → (f a s).1 ≡ ok b → Q)
      → (then_run (or_fail o e s) f).1 ≡ ok b
      → Q
  after_or_fail none e s f k h = absurd cc
  after_or_fail (some a) e s f k h = k a refl h

  pub after_fetch :
      (answered : Bool) (e : AppError) (read : S → A) (s : S) (f : A → Act S B)
      → (answered ≡ true → (f (read s) s).1 ≡ ok b → Q)
      → (then_run (fetch answered e read s) f).1 ≡ ok b
      → Q
  after_fetch true e read s f k h = k refl h
  after_fetch false e read s f k h = absurd cc

module _ {ℓ} {S B : Type 0} {b : B} {Q : Type ℓ} where
  pub after_refuse_if :
      (test : Bool) (e : AppError) (s : S) (f : Unit {0} → Act S B)
      → (test ≡ false → (f tt s).1 ≡ ok b → Q)
      → (then_run (refuse_if test e s) f).1 ≡ ok b
      → Q
  after_refuse_if true e s f k h = absurd cc
  after_refuse_if false e s f k h = k refl h

  pub after_execute :
      (answered : Bool) (e : AppError) (write : S → S) (s : S) (f : Unit {0} → Act S B)
      → (answered ≡ true → (f tt (write s)).1 ≡ ok b → Q)
      → (then_run (execute answered e write s) f).1 ≡ ok b
      → Q
  after_execute true e write s f k h = k refl h
  after_execute false e write s f k h = absurd cc
