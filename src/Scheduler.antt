-- ===== src/Scheduler.antt =====
-- `RunnerScheduler` of src/ops-service/src/services/runner_service.rs over the table `runners`,
-- whose rows come in the order of the list. `f32` is a parameter.
pub mod Orders
pub mod Choice
pub mod Assignment
pub mod Registry
pub mod Registered
pub mod Enabling
mod Registrations
mod Examples
use ops_service.Prelude.{
  ℕ, zero, suc, Uuid, DateTime, ◌+◌, ◌<◌, ◌*◌, Bool, true, false, not, ◌&&◌, ◌||◌, Option, none,
  some, List, [], ◌∷◌, ◌++◌, if◌then◌else◌, ◌==◌, ltb, leb, any, find, is_empty, get_or,
  update_where, retain, map,
}
use Prim.Native.Nat.{Ordering, lt, eq, gt, compare}
use ops_service.Prelude.Int.{ℤ, pos, negsuc, pos_part, neg_part, ltb_ℤ, leb_ℤ}
use ops_service.Prelude.Bytes.{Bytes, codes, bytes_eq}
use ops_service.Error.{
  Act, ◌>>=◌, ◌>>◌, then_run, pure, refuse_if, or_fail, fetch, execute, internal,
}

pub data RunnerStatus : Type 0 where
  active maintenance disabled : RunnerStatus

-- A row of `runners`; the capabilities are `none` where they are no list of texts.
pub record Runner : Type 0 where
  pub id : Uuid
  pub name : Bytes
  pub capabilities : Option (List Bytes)
  pub max_concurrent_jobs : ℤ
  pub current_jobs : ℤ
  pub status : RunnerStatus
  pub last_heartbeat : Option DateTime

pub record RunnerCandidate (F : Type 0) : Type 0 where
  pub id : Uuid
  pub name : Bytes
  pub capabilities : List Bytes
  pub max_concurrent_jobs : ℤ
  pub current_jobs : ℤ
  pub load_score : F

pub record ScheduleResult : Type 0 where
  pub runner_id : Uuid
  pub runner_name : Bytes
  pub routing_key : Bytes

pub record RunnerInfo : Type 0 where
  pub id : Uuid
  pub name : Bytes
  pub capabilities : List Bytes
  pub status : RunnerStatus
  pub max_concurrent_jobs : ℤ
  pub current_jobs : ℤ

-- The database's answers and clock, and `f32`.
pub record Env (F : Type 0) : Type 0 where
  pub answers : Bool
  pub now : DateTime
  pub one : F
  pub divide : ℤ → ℤ → F
  pub partial_cmp : F → F → Option Ordering

abbrev pub is_active : RunnerStatus → Bool
is_active active = true
is_active _ = false

-- `last_heartbeat > NOW() - INTERVAL '2 minutes'`
abbrev pub is_alive : DateTime → Option DateTime → Bool
is_alive now none = false
is_alive now (some beat) = ltb now (beat + 120)

abbrev pub all_required : Bytes → List Bytes → List Bytes
all_required build_type required = required ++ (build_type ∷ codes "general" ∷ [])

-- `Vec::contains`
abbrev pub includes : List Bytes → Bytes → Bool
includes texts text = any (λ t. bytes_eq t text) texts

abbrev pub has_matching_capability : List Bytes → List Bytes → Bool
has_matching_capability required capabilities =
    any (λ req. includes capabilities req || includes capabilities (codes "general")) required

-- `as_bytes().cmp`: `str` compares bytes.
abbrev pub cmp_bytes : Bytes → Bytes → Ordering
cmp_bytes [] [] = eq
cmp_bytes [] (y ∷ ys) = lt
cmp_bytes (x ∷ xs) [] = gt
cmp_bytes (x ∷ xs) (y ∷ ys) = elim (compare x y) [ lt ↦ lt | eq ↦ cmp_bytes xs ys | gt ↦ gt ]

abbrev pub cmp_ℤ : ℤ → ℤ → Ordering
cmp_ℤ a b = compare (pos_part a + neg_part b) (pos_part b + neg_part a)

-- `then_with`, and the `match` on the comparison of the scores.
abbrev pub then_with : Ordering → Ordering → Ordering
then_with lt o = lt
then_with eq o = o
then_with gt o = gt

abbrev pub place {ℓ} : {A : Type ℓ} → Ordering → A → A → List A → List A → List A
place gt x y ys later = y ∷ later
place _ x y ys later = x ∷ y ∷ ys

-- `sort_by`, which is stable.
unfoldable pub insert_by {ℓ} : {A : Type ℓ} → (A → A → Ordering) → A → List A → List A
insert_by cmp x [] = x ∷ []
insert_by cmp x (y ∷ ys) = place (cmp x y) x y ys (insert_by cmp x ys)

unfoldable pub sort_by {ℓ} : {A : Type ℓ} → (A → A → Ordering) → List A → List A
unfolding insert_by
sort_by cmp [] = []
sort_by cmp (x ∷ xs) = insert_by cmp x (sort_by cmp xs)

-- `into_iter().next()`
abbrev pub next {ℓ} : {A : Type ℓ} → List A → Option A
next [] = none
next (x ∷ xs) = some x

abbrev pub suc_ℤ : ℤ → ℤ
suc_ℤ (pos n) = pos (suc n)
suc_ℤ (negsuc zero) = pos 0
suc_ℤ (negsuc (suc n)) = negsuc n

-- `GREATEST(0, n - 1)`
abbrev pub pred_or_zero : ℤ → ℤ
pred_or_zero (pos zero) = pos 0
pred_or_zero (pos (suc n)) = pos n
pred_or_zero (negsuc n) = pos 0

-- The counts are `INT`, in whose range the statement is assumed to be answered.
unfoldable pub increment_current_jobs : Bool → Uuid → Act (List Runner) (Unit {0})
increment_current_jobs answered runner_id =
    execute answered (internal "Failed to increment current jobs") (
      update_where (λ r. r.id == runner_id) (λ r. record r { current_jobs = suc_ℤ r.current_jobs }))

unfoldable pub decrement_current_jobs : Bool → Uuid → Act (List Runner) (Unit {0})
decrement_current_jobs answered runner_id =
    execute answered (internal "Failed to decrement current jobs") (
      update_where (λ r. r.id == runner_id)
        (λ r. record r { current_jobs = pred_or_zero r.current_jobs }))

-- The row with a name, which is unique.
unfoldable pub get_runner_by_name : Bool → Bytes → Act (List Runner) (Option RunnerInfo)
get_runner_by_name answered name =
    fetch answered (internal "Failed to query runner by name") λ runners.
      elim (find (λ r. bytes_eq r.name name && is_active r.status) runners) [
        | none ↦ none
        | some r ↦ some (record {
          id = r.id;
          name = r.name;
          capabilities = get_or r.capabilities [];
          status = r.status;
          max_concurrent_jobs = r.max_concurrent_jobs;
          current_jobs = r.current_jobs;
        })
      ]

module _ {F : Type 0} (env : Env F) where
  unfoldable pub calculate_load_score : ℤ → ℤ → F
  calculate_load_score current_jobs max_concurrent_jobs =
      if leb_ℤ max_concurrent_jobs (pos 0)
      then env.one
      else env.divide current_jobs max_concurrent_jobs

  abbrev pub cmp_candidates : RunnerCandidate F → RunnerCandidate F → Ordering
  cmp_candidates a b =
      then_with (get_or (env.partial_cmp a.load_score b.load_score) eq)
        (then_with (cmp_ℤ b.max_concurrent_jobs a.max_concurrent_jobs) (cmp_bytes a.name b.name))

  unfoldable pub select_best_runner :
      List (RunnerCandidate F) → Act (List Runner) (RunnerCandidate F)
  unfolding sort_by
  select_best_runner candidates =
      or_fail (next (sort_by cmp_candidates candidates)) (internal "No runner candidates available")

  -- A row that the query selects, with room and a capability.
  abbrev pub is_eligible : List Bytes → Runner → Bool
  is_eligible required r =
      is_active r.status
      && (is_alive env.now r.last_heartbeat
          && (has_matching_capability required (get_or r.capabilities [])
              && not (leb_ℤ r.max_concurrent_jobs r.current_jobs)))

  unfoldable pub candidate_of : Runner → RunnerCandidate F
  unfolding calculate_load_score
  candidate_of r = record {
    id = r.id;
    name = r.name;
    capabilities = get_or r.capabilities [];
    max_concurrent_jobs = r.max_concurrent_jobs;
    current_jobs = r.current_jobs;
    load_score = calculate_load_score r.current_jobs r.max_concurrent_jobs;
  }

  -- `find_candidates`
  abbrev pub find_candidates : Bytes → List Bytes → Act (List Runner) (List (RunnerCandidate F))
  find_candidates build_type required =
      fetch env.answers (internal "Failed to query runners") λ runners.
        map candidate_of (retain (is_eligible (all_required build_type required)) runners)

  abbrev pub routing_key_of : Bytes → Bytes → Bytes
  routing_key_of build_type name = codes "build." ++ (build_type ++ (codes "." ++ name))

  abbrev pub result_of : Bytes → RunnerCandidate F → ScheduleResult
  result_of build_type selected = record {
    runner_id = selected.id;
    runner_name = selected.name;
    routing_key = routing_key_of build_type selected.name;
  }

  -- The part of `schedule_build` after the search.
  unfoldable pub schedule_from : Bytes → List (RunnerCandidate F) → Act (List Runner) ScheduleResult
  unfolding select_best_runner
  schedule_from build_type candidates = do
    refuse_if (is_empty candidates) (internal "No available runners for build type: ")
    selected ← select_best_runner candidates
    pure (result_of build_type selected)

  unfoldable pub schedule_build : Bytes → List Bytes → Act (List Runner) ScheduleResult
  unfolding schedule_from
  schedule_build build_type required = do
    candidates ← find_candidates build_type required
    schedule_from build_type candidates
