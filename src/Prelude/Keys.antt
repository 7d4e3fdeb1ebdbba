-- ===== src/Prelude/Keys.antt =====
-- Tables with a primary key: no two rows have the same one.
use Prim.Native.Nat.{ℕ, ◌+◌}
use mathlib.Core.Path.{◌≡◌, refl, subst}
use mathlib.Core.Bool.{Bool, true}
use mathlib.Core.Logic.{inl, inr}
use mathlib.Core.Option.{none, some}
use mathlib.Core.List.{List, [], ◌∷◌, ◌++◌}
use native.Mathlib.Omega.{arith}
use ops_service.Prelude.Tests.{◌==◌, Bool-cases}
use ops_service.Prelude.Lists.{find, count, update_where, All, find-update_where-none}

module _ {A : Type 0} where
  pub All-find {κ} :
      (P : A → Type κ) (p : A → Bool) (xs : List A) (a : A) → All P xs → find p xs ≡ some a → P a
  All-find P p [] a h e = cc
  All-find P p (x ∷ xs) a h e = ground (arith, All-find P p xs a h.1)

  pub All-update_where {κ} :
      (P : A → Type κ) (p : A → Bool) (f : A → A) (xs : List A)
      → ((x : A) → P x → p x ≡ true → P (f x))
      → All P xs
      → All P (update_where p f xs)
  All-update_where P p f [] keep h = tt
  All-update_where P p f (x ∷ xs) keep h =
      ground (arith, keep x h.0, All-update_where P p f xs keep h.1)

  pub count-append : (p : A → Bool) (xs ys : List A) → count p (xs ++ ys) ≡ count p xs + count p ys
  count-append p [] ys = omega arith
  count-append p (x ∷ xs) ys = ground (arith, count-append p xs ys)

  pub find-append_none :
      (p : A → Bool) (xs ys : List A) → find p xs ≡ none → find p (xs ++ ys) ≡ find p ys
  find-append_none p [] ys h = refl
  find-append_none p (x ∷ xs) ys h = ground (arith, find-append_none p xs ys)

  -- An update that keeps the tested field keeps what is found, up to the update.
  pub find-none-update_where :
      (p q : A → Bool) (f : A → A) (xs : List A)
      → ((x : A) → q (f x) ≡ q x)
      → find q xs ≡ none
      → find q (update_where p f xs) ≡ none
  find-none-update_where p q f [] same h = refl
  find-none-update_where p q f (x ∷ xs) same h =
      ground (arith, same x, find-none-update_where p q f xs same)

module _ {A : Type 0} (key : A → ℕ) where
  abbrev pub Keyed : List A → Type 0
  Keyed [] = Unit
  Keyed (x ∷ xs) = (find (λ y. key y == key x) xs ≡ none) × Keyed xs

  pub Keyed-update_where :
      (p : A → Bool) (f : A → A) (xs : List A)
      → ((x : A) → key (f x) ≡ key x)
      → Keyed xs
      → Keyed (update_where p f xs)
  Keyed-update_where p f [] same h = tt
  Keyed-update_where p f (x ∷ xs) same h = ground (
    arith,
    same x,
    find-none-update_where p (λ (y : A). key y == key x) f xs (λ (y : A). rw (same y)) h.0,
    Keyed-update_where p f xs same h.1,
  )

  pub Keyed-append_one :
      (xs : List A) (y : A) → Keyed xs → find (λ x. key x == key y) xs ≡ none → Keyed (xs ++ y ∷ [])
  Keyed-append_one [] y h fresh = (refl, tt)
  Keyed-append_one (x ∷ xs) y h fresh = ground (
    arith,
    find-append_none (λ (z : A). key z == key x) xs (y ∷ []) h.0,
    Keyed-append_one xs y h.1,
  )

  -- An update at a key reaches the row that a search for the key finds, and no other.
  pub All-update_key {κ} :
      (P : A → Type κ) (k : ℕ) (f : A → A) (xs : List A) (a : A)
      → Keyed xs
      → find (λ x. key x == k) xs ≡ some a
      → P (f a)
      → All P xs
      → All P (update_where (λ x. key x == k) f xs)
  All-update_key P k f [] a u e pa h = tt
  All-update_key P k f (x ∷ xs) a u e pa h = elim (Bool-cases (key x == k)) [
    | inl hit ↦
        let same : key x ≡ k = ground arith in
        let rest : update_where (λ x. key x == k) f xs ≡ xs =
          find-update_where-none (λ x. key x == k) f xs
            (subst (λ n. find (λ y. key y == n) xs ≡ none) same u.0) in
        rw (hit, rest) (subst (λ y. P (f y)) (ground arith) pa, h.1)
    | inr miss ↦ rw miss (h.0, All-update_key P k f xs a u.1 (ground arith) pa h.1)
  ]
