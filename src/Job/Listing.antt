-- ===== src/Job/Listing.antt =====
-- `list_jobs` of src/ops-service/src/services/job_service.rs: the conditions that it adds to the
-- query, each with the number of its placeholder, and the values that it binds, in their order.
use ops_service.Prelude.{
  ℕ, zero, suc, Uuid, DateTime, ◌+◌, ◌≡◌, Bool, Option, none, some, List, [], ◌∷◌, ◌++◌,
  if◌then◌else◌, is_some, length, All, arith,
}
use ops_service.Prelude.Bytes.{Bytes, codes}
use ops_service.Job.{JobType, JobStatus}

pub record JobListFilters : Type 0 where
  pub job_type : Option JobType
  pub status : Option JobStatus
  pub created_by : Option Uuid
  pub search : Option Bytes
  pub date_from : Option DateTime
  pub date_to : Option DateTime

pub data Condition : Type 0 where
  of_type of_status of_creator matching since up_to : Condition

pub data Bound : Type 0 where
  type_value : JobType → Bound
  status_value : JobStatus → Bound
  creator_value : Uuid → Bound
  pattern_value : Bytes → Bound
  from_value to_value : DateTime → Bound

-- `count += 1; query.push_str(…)`, if the filter is given.
abbrev pub add_condition : Condition → Bool → ℕ × List (Condition × ℕ) → ℕ × List (Condition × ℕ)
add_condition c given (n, cs) = if given then (n + 1, cs ++ (c, n + 1) ∷ []) else (n, cs)

unfoldable pub conditions : JobListFilters → ℕ × List (Condition × ℕ)
conditions f = add_condition up_to (is_some f.date_to) (
    add_condition since (is_some f.date_from) (
      add_condition matching (is_some f.search) (
        add_condition of_creator (is_some f.created_by) (
          add_condition of_status (is_some f.status)
            (add_condition of_type (is_some f.job_type) (0, []))))))

abbrev pub bind_one : {A : Type 0} → (A → Bound) → Option A → List Bound
bind_one value none = []
bind_one value (some a) = value a ∷ []

-- `format!("%{}%", s)`
abbrev pub search_pattern : Bytes → Bytes
search_pattern text = codes "%" ++ (text ++ codes "%")

abbrev pub bind_search : Option Bytes → List Bound
bind_search none = []
bind_search (some text) =
    pattern_value (search_pattern text) ∷ pattern_value (search_pattern text) ∷ []

unfoldable pub bound_values : JobListFilters → List Bound
bound_values f =
    bind_one type_value f.job_type
    ++ (bind_one status_value f.status
        ++ (bind_one creator_value f.created_by
            ++ (bind_search f.search
                ++ (bind_one from_value f.date_from ++ bind_one to_value f.date_to))))

-- The value that a placeholder stands for; the first is number 1.
abbrev pub value_at : ℕ → List Bound → Option Bound
value_at n [] = none
value_at zero (v ∷ vs) = none
value_at (suc zero) (v ∷ vs) = some v
value_at (suc (suc n)) (v ∷ vs) = value_at (suc n) vs

-- The value that a condition is meant to compare with.
abbrev pub meant_for : JobListFilters → Condition → Option Bound
meant_for f of_type = elim f.job_type [ none ↦ none | some v ↦ some (type_value v) ]
meant_for f of_status = elim f.status [ none ↦ none | some v ↦ some (status_value v) ]
meant_for f of_creator = elim f.created_by [ none ↦ none | some v ↦ some (creator_value v) ]
meant_for f matching = elim f.search [
  | none ↦ none
  | some v ↦ some (pattern_value (search_pattern v))
]
meant_for f since = elim f.date_from [ none ↦ none | some v ↦ some (from_value v) ]
meant_for f up_to = elim f.date_to [ none ↦ none | some v ↦ some (to_value v) ]

abbrev pub IsMeant : JobListFilters → Condition × ℕ → Type 0
IsMeant f (c, n) = value_at n (bound_values f) ≡ meant_for f c

-- The placeholder of the earliest date stands for the pattern of the search.
abbrev pub IsShifted : Bytes → JobListFilters → Condition × ℕ → Type 0
IsShifted text f (since, n) =
    value_at n (bound_values f) ≡ some (pattern_value (search_pattern text))
IsShifted text f _ = Unit

-- Without a search, every placeholder stands for the value of its own condition, and there are as
-- many values as placeholders.
pub list_jobs_binds :
    (f : JobListFilters)
    → f.search ≡ none
    → All (IsMeant f) (conditions f).1 × (length (bound_values f) ≡ (conditions f).0)
unfolding conditions bound_values
list_jobs_binds f h = ground arith

-- With a search there is one value more than placeholders, and the condition on the
-- earliest date, if one is given, is compared with the pattern of the search.
pub list_jobs_search_shifts :
    (f : JobListFilters) (text : Bytes)
    → f.search ≡ some text
    → (length (bound_values f) ≡ (conditions f).0 + 1) × All (IsShifted text f) (conditions f).1
unfolding conditions bound_values
list_jobs_search_shifts f text h = ground arith
