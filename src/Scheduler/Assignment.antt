-- ===== src/Scheduler/Assignment.antt =====
-- `schedule_build`: which runner a build gets, and the counts of its jobs.
use ops_service.Prelude.{
  ◌≡◌, ◌≢◌, ◌∙◌, refl, sym, ap, subst, inl, inr, true, List, [], ◌∷◌, All, arith, Bool-cases,
  if◌then◌else◌, Uuid, update_where, ◌==◌,
}
use mathlib.Core.List.{Memᴰ}
use Prim.Native.Nat.{gt}
use ops_service.Prelude.Int.{ℤ, pos, negsuc, ◌≤ℤ◌}
use ops_service.Prelude.Bytes.{Bytes}
use ops_service.Error.{ok, ◌>>◌}
use ops_service.Scheduler.{
  Runner, Env, cmp_candidates, is_eligible, candidate_of, all_required, increment_current_jobs,
  decrement_current_jobs, suc_ℤ, pred_or_zero,
}

-- The runner that a build is given: it is eligible, and no eligible runner comes before it, by the
-- load first, then the greater limit, then the name.
abbrev pub IsBest : {F : Type 0} → Env F → Bytes → List Bytes → List Runner → Runner → Type 0
IsBest env build_type required runners r =
    Memᴰ r runners
    × (is_eligible env (all_required build_type required) r ≡ true)
    × All
        (λ q.
          is_eligible env (all_required build_type required) q ≡ true
          → cmp_candidates env (candidate_of env r) (candidate_of env q) ≢ gt)
        runners

pred-suc : (n : ℤ) → pos 0 ≤ℤ n → pred_or_zero (suc_ℤ n) ≡ n
pred-suc (pos n) h = refl
pred-suc (negsuc n) h = absurd (omega arith)

abbrev with_one_more : Runner → Runner
with_one_more r = record r { current_jobs = suc_ℤ r.current_jobs }

abbrev with_one_less : Runner → Runner
with_one_less r = record r { current_jobs = pred_or_zero r.current_jobs }

row-undo :
    (runner_id : Uuid) (r : Runner)
    → pos 0 ≤ℤ r.current_jobs
    → let q = if r.id == runner_id then with_one_more r else r in
      (if q.id == runner_id then with_one_less q else q) ≡ r
row-undo runner_id r h = elim (Bool-cases (r.id == runner_id)) [
  | inl hit ↦
      subst
        (λ b.
          let q = if b then with_one_more r else r in
          (if q.id == runner_id then with_one_less q else q) ≡ r)
        (sym hit)
        (subst (λ b. (if b then with_one_less (with_one_more r) else with_one_more r) ≡ r) (sym hit)
          (ap (λ n. record r { current_jobs = n }) (pred-suc r.current_jobs h)))
  | inr miss ↦
      subst
        (λ b.
          let q = if b then with_one_more r else r in
          (if q.id == runner_id then with_one_less q else q) ≡ r)
        (sym miss) (subst (λ b. (if b then with_one_less r else r) ≡ r) (sym miss) refl)
]

update_where-undo :
    (runner_id : Uuid) (runners : List Runner)
    → All (λ r. pos 0 ≤ℤ r.current_jobs) runners
    → update_where
        (λ r. r.id == runner_id)
        (λ r. record r { current_jobs = pred_or_zero r.current_jobs })
        (update_where
          (λ r. r.id == runner_id)
          (λ r. record r { current_jobs = suc_ℤ r.current_jobs })
          runners)
      ≡ runners
update_where-undo runner_id [] h = refl
update_where-undo runner_id (r ∷ rs) (first, h) =
    let rest =
      update_where (λ q. q.id == runner_id) with_one_less
        (update_where (λ q. q.id == runner_id) with_one_more rs) in
    ap (λ q. q ∷ rest) (row-undo runner_id r first) ∙ ap (◌∷◌ r) (update_where-undo runner_id rs h)

-- The count of a runner's jobs is as before once a job that was counted is taken off again, where no
-- count is negative and the database carries both out.
pub decrement-increment :
    (runner_id : Uuid) (runners : List Runner)
    → All (λ r. pos 0 ≤ℤ r.current_jobs) runners
    → (increment_current_jobs true runner_id >> decrement_current_jobs true runner_id) runners
      ≡ (runners, ok tt)
unfolding increment_current_jobs decrement_current_jobs
decrement-increment runner_id runners h =
    ap (λ rs. (rs, ok tt)) (update_where-undo runner_id runners h)
