-- ===== src/Error.antt =====
-- src/ops-service/src/error.rs: the error type of the service with its codes, and the result of an
-- operation over a database. `R` is what a Rust function returns: `panicked` stands for a panic,
-- which unwinds without returning. `Act S A` is an operation over the tables `S`; `?` is its bind.
pub mod Inversion
pub mod Preservation
use ops_service.Prelude.{ℕ, Bool, Option, none, some, List, [], ◌∷◌, String, if◌then◌else◌}
use Prim.Native.String.{◌++◌ as str_append}

pub data AppError : Type 0 where
  database_error : AppError
  config : String → AppError
  unauthorized : AppError
  authentication : String → AppError
  forbidden : AppError
  not_found : String → AppError
  bad_request : String → AppError
  validation : String → AppError
  rate_limit_exceeded : AppError
  timeout_error : String → AppError
  internal : String → AppError
  ssh_connection_error : String → AppError
  ssh_authentication_error : String → AppError
  ssh_execution_error : String → AppError

-- `AppError::code`, by way of `status_code`.
unfoldable pub code : AppError → ℕ
code database_error = 500
code (config m) = 500
code unauthorized = 401
code (authentication m) = 401
code forbidden = 403
code (not_found m) = 404
code (bad_request m) = 400
code (validation m) = 400
code rate_limit_exceeded = 429
code (timeout_error m) = 408
code (internal m) = 500
code (ssh_connection_error m) = 500
code (ssh_authentication_error m) = 500
code (ssh_execution_error m) = 500

-- `AppError::database`, which builds an internal error.
abbrev pub database : String → AppError
database m = internal (str_append "Database error: " m)

pub data R {ℓ} (A : Type ℓ) : Type ℓ where
  ok : A → R A
  err : AppError → R A
  panicked : R A

-- An operation over the tables `S`.
abbrev pub Act : Type 0 → Type 0 → Type 0
Act S A = S → S × R A

abbrev pub then_run : {S A B : Type 0} → S × R A → (A → Act S B) → S × R B
then_run (s, ok a) f = f a s
then_run (s, err e) f = (s, err e)
then_run (s, panicked) f = (s, panicked)

infixl 5 ◌>>=◌ ◌>>◌
abbrev pub ◌>>=◌ : {S A B : Type 0} → Act S A → (A → Act S B) → Act S B
◌>>=◌ m f s = then_run (m s) f

abbrev pub ◌>>◌ : {S B : Type 0} → Act S (Unit {0}) → Act S B → Act S B
◌>>◌ m k s = then_run (m s) (λ _. k)

abbrev pub pure : {S A : Type 0} → A → Act S A
pure a s = (s, ok a)

-- An early `return Err(e)`.
abbrev pub fail : {S A : Type 0} → AppError → Act S A
fail e s = (s, err e)

-- `if test { return Err(e) }`.
abbrev pub refuse_if : {S : Type 0} → Bool → AppError → Act S (Unit {0})
refuse_if test e s = (s, if test then err e else ok tt)

abbrev pub or_fail : {S A : Type 0} → Option A → AppError → Act S A
or_fail none e s = (s, err e)
or_fail (some a) e s = (s, ok a)

-- A statement that changes the tables. `answered` says whether the database carries it out; one
-- that it does not carry out changes nothing and fails with `e`.
abbrev pub execute : {S : Type 0} → Bool → AppError → (S → S) → Act S (Unit {0})
execute answered e f s = if answered then (f s, ok tt) else (s, err e)

-- A statement that reads them.
abbrev pub fetch : {S A : Type 0} → Bool → AppError → (S → A) → Act S A
fetch answered e f s = (s, if answered then ok (f s) else err e)

-- `tx.commit().await?` after the body, whose changes are dropped with the transaction on every
-- earlier return. What the body returns is what the caller goes on with.
abbrev pub commit_or_drop : {S A : Type 0} → S → Bool → S × R A → S × R A
commit_or_drop before committed (s, ok a) =
    if committed then (s, ok a) else (before, err (database "Failed to commit transaction"))
commit_or_drop before committed (s, err e) = (before, err e)
commit_or_drop before committed (s, panicked) = (before, panicked)

-- `self.db.begin()`, the body, `tx.commit()`.
abbrev pub transaction : {S A : Type 0} → Bool → Bool → Act S A → Act S A
transaction begun committed body s =
    if begun
    then commit_or_drop s committed (body s)
    else (s, err (database "Failed to begin transaction"))

-- `for x in xs { body(x)?; }`
abbrev pub for_each : {S A : Type 0} → (A → Act S (Unit {0})) → List A → Act S (Unit {0})
for_each body [] s = (s, ok tt)
for_each body (x ∷ xs) s = then_run (body x s) (λ _. for_each body xs)
