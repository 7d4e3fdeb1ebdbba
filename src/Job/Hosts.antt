-- ===== src/Job/Hosts.antt =====
-- `resolve_target_hosts` of src/ops-service/src/services/job_service.rs: the active hosts that are
-- named directly or by their group, sorted by id and without repetitions.
use ops_service.Prelude.{
  ℕ, Uuid, ◌≤◌, ◌≡◌, refl, Bool, true, false, ◌&&◌, ◌||◌, ◌∙◌, suc, List, [], ◌∷◌, ◌++◌, leb,
  if◌then◌else◌, ◌==◌, any, retain, is_empty, arith,
}
use ops_service.Error.{ok, Act, ◌>>=◌, pure, fetch, database}
use ops_service.Job.{Host, Store, Env, direct_hosts, group_hosts}

-- `= ANY($1)`
abbrev pub is_any : List Uuid → Uuid → Bool
is_any ids id = any (λ i. i == id) ids

-- `sort_by_key(|h| h.id)`, which is stable.
unfoldable pub insert_host : Host → List Host → List Host
insert_host h [] = h ∷ []
insert_host h (x ∷ xs) = if leb h.id x.id then h ∷ x ∷ xs else x ∷ insert_host h xs

unfoldable pub sort_hosts : List Host → List Host
sort_hosts [] = []
sort_hosts (h ∷ hs) = insert_host h (sort_hosts hs)

-- `dedup_by_key(|h| h.id)`: of neighbours with one key the first is kept.
unfoldable pub dedup_after : Host → List Host → List Host
dedup_after h [] = h ∷ []
dedup_after h (x ∷ xs) = if h.id == x.id then dedup_after h xs else h ∷ dedup_after x xs

unfoldable pub dedup_hosts : List Host → List Host
unfolding dedup_after
dedup_hosts [] = []
dedup_hosts (h ∷ hs) = dedup_after h hs

-- A list is asked for only if it names something.
abbrev pub select_hosts : Bool → Bool → (Host → Bool) → Act Store (List Host)
select_hosts skipped answered test =
    if skipped
    then pure []
    else fetch answered (database "Failed to fetch hosts") (λ s. retain test s.hosts)

abbrev pub is_direct : List Uuid → Host → Bool
is_direct ids h = is_any ids h.id && h.active

abbrev pub is_grouped : List Uuid → Host → Bool
is_grouped groups h = is_any groups h.group_id && h.active

unfoldable pub resolve_target_hosts : Env → List Uuid → List Uuid → Act Store (List Host)
resolve_target_hosts env ids groups = do
  direct ← select_hosts (is_empty ids) (env.answered direct_hosts) (is_direct ids)
  grouped ← select_hosts (is_empty groups) (env.answered group_hosts) (is_grouped groups)
  pure (dedup_hosts (sort_hosts (direct ++ grouped)))

-- The ids rise, and in the second predicate strictly.
abbrev pub Rising : ℕ → List Host → Type 0
Rising n [] = Unit {0}
Rising n (h ∷ hs) = (n ≤ h.id) × Rising (h.id) hs

abbrev pub StrictlyAbove : ℕ → List Host → Type 0
StrictlyAbove n [] = Unit {0}
StrictlyAbove n (h ∷ hs) = (n ≤ h.id) × StrictlyAbove (suc h.id) hs

Rising-le : (m n : ℕ) (hs : List Host) → m ≤ n → Rising n hs → Rising m hs
Rising-le m n [] le r = tt
Rising-le m n (h ∷ hs) le r = (omega arith, r.1)

insert-Rising :
    (n : ℕ) (h : Host) (hs : List Host) → n ≤ h.id → Rising n hs → Rising n (insert_host h hs)
unfolding insert_host
insert-Rising n h [] le r = (le, tt)
insert-Rising n h (x ∷ xs) le r = ground (arith, insert-Rising x.id h xs)

sort-Rising : (hs : List Host) → Rising 0 (sort_hosts hs)
unfolding sort_hosts
sort-Rising [] = tt
sort-Rising (h ∷ hs) = insert-Rising 0 h (sort_hosts hs) (omega arith) (sort-Rising hs)

dedup_after-StrictlyAbove :
    (n : ℕ) (h : Host) (hs : List Host)
    → n ≤ h.id
    → Rising h.id hs
    → StrictlyAbove n (dedup_after h hs)
unfolding dedup_after
dedup_after-StrictlyAbove n h [] le r = (le, tt)
dedup_after-StrictlyAbove n h (x ∷ xs) le r = ground (
  arith,
  Rising-le h.id x.id xs,
  dedup_after-StrictlyAbove n h xs le,
  dedup_after-StrictlyAbove (suc h.id) x xs,
)

dedup-StrictlyAbove : (hs : List Host) → Rising 0 hs → StrictlyAbove 0 (dedup_hosts hs)
unfolding dedup_hosts
dedup-StrictlyAbove [] r = tt
dedup-StrictlyAbove (h ∷ hs) r = dedup_after-StrictlyAbove 0 h hs r.0 r.1

abbrev has_id : ℕ → List Host → Bool
has_id k = any (λ h. h.id == k)

has_id-insert :
    (k : ℕ) (h : Host) (hs : List Host) → has_id k (insert_host h hs) ≡ has_id k (h ∷ hs)
unfolding insert_host
has_id-insert k h [] = refl
has_id-insert k h (x ∷ xs) = ground (arith, has_id-insert k h xs)

has_id-sort : (k : ℕ) (hs : List Host) → has_id k (sort_hosts hs) ≡ has_id k hs
unfolding sort_hosts
has_id-sort k [] = refl
has_id-sort k (h ∷ hs) = ground (arith, has_id-insert k h (sort_hosts hs), has_id-sort k hs)

has_id-dedup_after :
    (k : ℕ) (h : Host) (hs : List Host) → has_id k (dedup_after h hs) ≡ has_id k (h ∷ hs)
unfolding dedup_after
has_id-dedup_after k h [] = refl
has_id-dedup_after k h (x ∷ xs) =
    ground (arith, has_id-dedup_after k h xs, has_id-dedup_after k x xs)

has_id-dedup : (k : ℕ) (hs : List Host) → has_id k (dedup_hosts hs) ≡ has_id k hs
unfolding dedup_hosts
has_id-dedup k [] = refl
has_id-dedup k (h ∷ hs) = has_id-dedup_after k h hs

-- A host that the request selects.
abbrev pub is_selected : List Uuid → List Uuid → Host → Bool
is_selected ids groups h = is_direct ids h || is_grouped groups h

has_id-append : (k : ℕ) (xs ys : List Host) → has_id k (xs ++ ys) ≡ (has_id k xs || has_id k ys)
has_id-append k [] ys = refl
has_id-append k (x ∷ xs) ys = ground (arith, has_id-append k xs ys)

has_id-retain :
    (k : ℕ) (ids groups : List Uuid) (hs : List Host)
    → (has_id k (retain (is_direct ids) hs) || has_id k (retain (is_grouped groups) hs))
      ≡ has_id k (retain (is_selected ids groups) hs)
has_id-retain k ids groups [] = refl
has_id-retain k ids groups (h ∷ hs) = ground (arith, has_id-retain k ids groups hs)

retain_nothing : (hs : List Host) → retain (λ h. false && h.active) hs ≡ []
retain_nothing [] = refl
retain_nothing (h ∷ hs) = retain_nothing hs

resolve_value :
    (env : Env) (ids groups : List Uuid) (s : Store)
    → env.answered direct_hosts ≡ true
    → env.answered group_hosts ≡ true
    → resolve_target_hosts env ids groups s ≡ (
      s,
      ok (
          dedup_hosts
            (sort_hosts (retain (is_direct ids) s.hosts ++ retain (is_grouped groups) s.hosts))),
    )
unfolding resolve_target_hosts
resolve_value env [] [] s a b = rw (retain_nothing s.hosts)
resolve_value env [] (g ∷ groups) s a b = rw (b, retain_nothing s.hosts)
resolve_value env (i ∷ ids) [] s a b = rw (a, retain_nothing s.hosts)
resolve_value env (i ∷ ids) (g ∷ groups) s a b = rw (a, b)

-- With its queries answered, the resolution changes nothing and gives hosts whose ids rise strictly,
-- so that none comes twice; and an id is among them exactly if an active host of the table that is
-- named directly or by its group has it.
pub resolve_sound :
    (env : Env) (ids groups : List Uuid) (s : Store)
    → env.answered direct_hosts ≡ true
    → env.answered group_hosts ≡ true
    → (hosts : List Host) × (resolve_target_hosts env ids groups s ≡ (s, ok hosts))
      × StrictlyAbove 0 hosts
      × ((k : ℕ)
          → any (λ h. h.id == k) hosts
            ≡ any (λ h. h.id == k) (retain (is_selected ids groups) s.hosts))
resolve_sound env ids groups s a b =
    let direct = retain (is_direct ids) s.hosts in
    let grouped = retain (is_grouped groups) s.hosts in
    (
      dedup_hosts (sort_hosts (direct ++ grouped)),
      resolve_value env ids groups s a b,
      dedup-StrictlyAbove _ (sort-Rising (direct ++ grouped)),
      λ k.
          has_id-dedup k _
          ∙ has_id-sort k (direct ++ grouped)
          ∙ has_id-append k direct grouped
          ∙ has_id-retain k ids groups s.hosts,
    )
