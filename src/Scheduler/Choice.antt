-- ===== src/Scheduler/Choice.antt =====
-- What `select_best_runner` brings to the front, and the candidates that it chooses from.
use ops_service.Prelude.{
  ◌≡◌, ◌≢◌, ◌⊎◌, refl, sym, ap, subst, inl, inr, true, Option, none, some, List, [], ◌∷◌, All,
  All-imp, arith, Bool-cases, Bool-cases, retain, map, get_or,
}
use mathlib.Core.List.{Memᴰ}
use Prim.Native.Nat.{Ordering, lt, eq, gt}
use ops_service.Prelude.Bytes.{Bytes}
use ops_service.Scheduler.{
  Runner, RunnerCandidate, Env, place, insert_by, sort_by, next, cmp_candidates, is_eligible,
  candidate_of,
}
use ops_service.Scheduler.Orders.{
  IsOrder, Ordering-cases, then_with-IsOrder, by-IsOrder, flip-IsOrder, cmp_bytes-IsOrder,
  cmp_ℤ-IsOrder,
}

module _ {A : Type 0} (cmp : A → A → Ordering) (order : IsOrder cmp) where
  -- An element that a list has, and none of which comes before.
  abbrev pub First : List A → Option A → Type 0
  First xs none = xs ≡ []
  First xs (some x) = Memᴰ x xs × All (λ y. cmp x y ≢ gt) xs

  own : (x : A) → cmp x x ≢ gt
  own x = ground (arith, order.reverses x x)

  in_front :
      (x y : A) (ys : List A)
      → (cmp x y ≡ lt) ⊎ (cmp x y ≡ eq)
      → next (insert_by cmp x (y ∷ ys)) ≡ some x
  unfolding insert_by
  in_front x y ys (inl e) = ap (λ o. next (place o x y ys (insert_by cmp x ys))) e
  in_front x y ys (inr e) = ap (λ o. next (place o x y ys (insert_by cmp x ys))) e

  behind : (x y : A) (ys : List A) → cmp x y ≡ gt → next (insert_by cmp x (y ∷ ys)) ≡ some y
  unfolding insert_by
  behind x y ys e = ap (λ o. next (place o x y ys (insert_by cmp x ys))) e

  insert_by-First :
      (x : A) (xs ys : List A) → First xs (next ys) → First (x ∷ xs) (next (insert_by cmp x ys))
  unfolding insert_by
  insert_by-First x xs [] h = (Memᴰ.head refl, (own x, subst (All (λ y. cmp x y ≢ gt)) (sym h) tt))
  insert_by-First x xs (y ∷ ys) (m, h) =
      let before : cmp x y ≢ gt → First (x ∷ xs) (some x) =
        λ le. (Memᴰ.head refl, (own x, All-imp xs (λ z hz. order.chains x y z le hz) h)) in
      elim (Ordering-cases (cmp x y)) [
        | inl e ↦
            subst (First (x ∷ xs)) (sym (in_front x y ys (inl e))) (before (ground (arith, e)))
        | inr (inl e) ↦
            subst (First (x ∷ xs)) (sym (in_front x y ys (inr e))) (before (ground (arith, e)))
        | inr (inr e) ↦
            subst (First (x ∷ xs)) (sym (behind x y ys e))
              (Memᴰ.tail m, (ground (arith, e, order.reverses x y), h))
      ]

  pub sort_by-First : (xs : List A) → First xs (next (sort_by cmp xs))
  unfolding sort_by
  sort_by-First [] = refl
  sort_by-First (x ∷ xs) = insert_by-First x xs (sort_by cmp xs) (sort_by-First xs)

Memᴰ-cons : {A : Type 0} {a x : A} {xs : List A} → Memᴰ a (x ∷ xs) → (a ≡ x) ⊎ Memᴰ a xs
Memᴰ-cons (Memᴰ.head e) = inl e
Memᴰ-cons (Memᴰ.tail m) = inr m

pub Memᴰ-candidates :
    {F : Type 0} (env : Env F) (required : List Bytes) (runners : List Runner)
    (c : RunnerCandidate F)
    → Memᴰ c (map (candidate_of env) (retain (is_eligible env required) runners))
    → (r : Runner) × Memᴰ r runners × (is_eligible env required r ≡ true) × (candidate_of env r ≡ c)
Memᴰ-candidates env required [] c m = elim m [ ]
Memᴰ-candidates env required (r ∷ rs) c m =
    let go : List Runner → Type 0 = λ xs. Memᴰ c (map (candidate_of env) xs) in
    elim (Bool-cases (is_eligible env required r)) [
      | inr out ↦
          let skipped : retain (is_eligible env required) (r ∷ rs)
              ≡ retain (is_eligible env required) rs =
            rw out refl in
          let (q, found, good, e) = Memᴰ-candidates env required rs c (subst go skipped m) in
          (q, Memᴰ.tail found, good, e)
      | inl fits ↦
          let kept : retain (is_eligible env required) (r ∷ rs)
              ≡ r ∷ retain (is_eligible env required) rs =
            rw fits refl in
          elim (Memᴰ-cons (subst go kept m)) [
            | inl e ↦ (r, Memᴰ.head refl, fits, sym e)
            | inr k ↦
                let (q, found, good, e) = Memᴰ-candidates env required rs c k in
                (q, Memᴰ.tail found, good, e)
          ]
    ]

-- What holds of every candidate holds of every eligible runner.
pub All-candidates :
    {F : Type 0} (env : Env F) (required : List Bytes) (P : RunnerCandidate F → Type 0)
    (runners : List Runner)
    → All P (map (candidate_of env) (retain (is_eligible env required) runners))
    → All (λ r. is_eligible env required r ≡ true → P (candidate_of env r)) runners
All-candidates env required P [] h = tt
All-candidates env required P (r ∷ rs) h =
    let go : List Runner → Type 0 = λ xs. All P (map (candidate_of env) xs) in
    elim (Bool-cases (is_eligible env required r)) [
      | inr out ↦
          let skipped : retain (is_eligible env required) (r ∷ rs)
              ≡ retain (is_eligible env required) rs =
            rw out refl in
          (
            λ fits. absurd (ground (arith, out, fits)),
            All-candidates env required P rs (subst go skipped h),
          )
      | inl fits ↦
          let kept : retain (is_eligible env required) (r ∷ rs)
              ≡ r ∷ retain (is_eligible env required) rs =
            rw fits refl in
          let both = subst go kept h in (λ k. both.0, All-candidates env required P rs both.1)
    ]

pub cmp_candidates-IsOrder :
    {F : Type 0} (env : Env F)
    → IsOrder (λ a b. get_or (env.partial_cmp a b) eq)
    → IsOrder (cmp_candidates env)
cmp_candidates-IsOrder env scores =
    then_with-IsOrder (by-IsOrder RunnerCandidate.load_score scores) (
      then_with-IsOrder
        (flip-IsOrder (by-IsOrder RunnerCandidate.max_concurrent_jobs cmp_ℤ-IsOrder))
        (by-IsOrder RunnerCandidate.name cmp_bytes-IsOrder))
