-- ===== src/Concurrency/Balance.antt =====
-- No permit is lost and none is given twice.
use ops_service.Prelude.{
  ℕ, ◌+◌, ◌-◌, ◌≡◌, refl, ap, inl, inr, Bool, true, false, ◌&&◌, if◌then◌else◌, ltb, arith,
  Bool-cases,
}
use ops_service.Prelude.Bytes.{bytes_eq, bytes_eq_sound}
use ops_service.Concurrency.{
  ConcurrencyConfig, Scope, global, group, environment, ConcurrencyController, new_controller,
  semaphore_of, put, try_acquire_owned, release,
}

-- The free permits of a scope.
abbrev pub free : ConcurrencyConfig → Scope → ConcurrencyController → ℕ
free config scope c = (semaphore_of config scope c).1

-- All the permits of a scope.
abbrev pub capacity : ConcurrencyConfig → Scope → ℕ
capacity config scope = free config scope (new_controller config)

abbrev pub is_scope : Scope → Scope → Bool
is_scope global global = true
is_scope (group g) (group h) = bytes_eq g h
is_scope (environment g) (environment h) = bytes_eq g h
is_scope _ _ = false

abbrev pub one_if : Bool → ℕ
one_if true = 1
one_if false = 0

is_scope_sound : (j k : Scope) → is_scope j k ≡ true → j ≡ k
is_scope_sound global global h = refl
is_scope_sound global (group g) h = cc
is_scope_sound global (environment g) h = cc
is_scope_sound (group g) global h = cc
is_scope_sound (group g) (group h) e = ap group (bytes_eq_sound g h e)
is_scope_sound (group g) (environment h) e = cc
is_scope_sound (environment g) global e = cc
is_scope_sound (environment g) (group h) e = cc
is_scope_sound (environment g) (environment h) e = ap environment (bytes_eq_sound g h e)

free-put :
    (config : ConcurrencyConfig) (j k : Scope) (n : ℕ) (c : ConcurrencyController)
    → free config j (put config k n c) ≡ (if is_scope j k then n else free config j c)
free-put config global global n c = refl
free-put config global (group g) n c = refl
free-put config global (environment g) n c = refl
free-put config (group g) global n c = ground arith
free-put config (group g) (group h) n c = ground arith
free-put config (group g) (environment h) n c = ground arith
free-put config (environment g) global n c = ground arith
free-put config (environment g) (group h) n c = ground arith
free-put config (environment g) (environment h) n c = ground arith

-- To create a semaphore changes no number of free permits.
free-semaphore_of :
    (config : ConcurrencyConfig) (j k : Scope) (c : ConcurrencyController)
    → free config j (semaphore_of config k c).0 ≡ free config j c
free-semaphore_of config j global c = refl
free-semaphore_of config global (group h) c = ground arith
free-semaphore_of config global (environment h) c = ground arith
free-semaphore_of config (group g) (group h) c = elim (Bool-cases (bytes_eq g h)) [
  | inl hit ↦ ground (arith, bytes_eq_sound g h hit)
  | inr miss ↦ ground arith
]
free-semaphore_of config (group g) (environment h) c = ground arith
free-semaphore_of config (environment g) (group h) c = ground arith
free-semaphore_of config (environment g) (environment h) c = elim (Bool-cases (bytes_eq g h)) [
  | inl hit ↦ ground (arith, bytes_eq_sound g h hit)
  | inr miss ↦ ground arith
]

-- What an attempt takes is missing afterwards; it succeeds where a permit is free.
pub try_acquire_owned_lem :
    (config : ConcurrencyConfig) (j k : Scope) (c : ConcurrencyController)
    → let (d, got) = try_acquire_owned config k c in
      (free config j d + one_if (got && is_scope j k) ≡ free config j c)
      × (got ≡ ltb 0 (free config k c))
unfolding try_acquire_owned
try_acquire_owned_lem config j k c =
    let d = (semaphore_of config k c).0 in
    let n = free config k c in
    let there = free-semaphore_of config j k c in
    elim (Bool-cases (ltb 0 n)) [
      | inr none_free ↦ rw none_free (ground (arith, there), refl)
      | inl some_free ↦ rw some_free (
        elim (Bool-cases (is_scope j k)) [
          | inl same ↦
              let e = is_scope_sound j k same in
              ground (arith, free-put config j k (n - 1) d, ap (λ i. free config i c) e)
          | inr other ↦ ground (arith, free-put config j k (n - 1) d, there)
        ],
        refl,
      )
    ]

pub release_lem :
    (config : ConcurrencyConfig) (j k : Scope) (c : ConcurrencyController)
    → free config j (release config k c) ≡ free config j c + one_if (is_scope j k)
unfolding release
release_lem config j k c =
    let d = (semaphore_of config k c).0 in
    let n = free config k c in
    elim (Bool-cases (is_scope j k)) [
      | inl same ↦
          let e = is_scope_sound j k same in
          ground (arith, free-put config j k (n + 1) d, ap (λ i. free config i c) e)
      | inr other ↦ ground (arith, free-put config j k (n + 1) d, free-semaphore_of config j k c)
    ]
