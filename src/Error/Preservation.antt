-- ===== src/Error/Preservation.antt =====
-- What an operation over the errors of src/ops-service/src/error.rs keeps of the state: a statement that
-- only tests leaves it to the rest of the operation.
use ops_service.Prelude.{Bool, true, false, Option, none, some}
use ops_service.Error.{
  AppError, R, ok, err, panicked, Act, then_run, or_fail, refuse_if, fetch, execute,
}

module _ {ℓ} {S : Type 0} (P : S → Type ℓ) where
  pub keeps_execute :
      (answered : Bool) (e : AppError) (g : S → S) (s : S)
      → P s
      → P (g s)
      → P (execute answered e g s).0
  keeps_execute true e g s p q = q
  keeps_execute false e g s p q = p

module _ {ℓ} {S A B : Type 0} (P : S → Type ℓ) where
  pub keeps_or_fail :
      (o : Option A) (e : AppError) (s : S) (f : A → Act S B)
      → P s
      → ((a : A) → P (f a s).0)
      → P (then_run (or_fail o e s) f).0
  keeps_or_fail none e s f p k = p
  keeps_or_fail (some a) e s f p k = k a

  pub keeps_fetch :
      (answered : Bool) (e : AppError) (read : S → A) (s : S) (f : A → Act S B)
      → P s
      → P (f (read s) s).0
      → P (then_run (fetch answered e read s) f).0
  keeps_fetch true e read s f p q = q
  keeps_fetch false e read s f p q = p

module _ {ℓ} {S B : Type 0} (P : S → Type ℓ) where
  pub keeps_refuse_if :
      (test : Bool) (e : AppError) (s : S) (f : Unit {0} → Act S B)
      → P s
      → P (f tt s).0
      → P (then_run (refuse_if test e s) f).0
  keeps_refuse_if true e s f p k = p
  keeps_refuse_if false e s f p k = k

  pub keeps_execute_then :
      (answered : Bool) (e : AppError) (g : S → S) (s : S) (f : Unit {0} → Act S B)
      → P s
      → P (f tt (g s)).0
      → P (then_run (execute answered e g s) f).0
  keeps_execute_then true e g s f p q = q
  keeps_execute_then false e g s f p q = p

  pub keeps_answer :
      (answer : R (Unit {0})) (s : S) (f : Unit {0} → Act S B)
      → P s
      → P (f tt s).0
      → P (then_run (s, answer) f).0
  keeps_answer (ok u) s f p q = q
  keeps_answer (err e) s f p q = p
  keeps_answer panicked s f p q = p
