-- ===== src/Scheduler/Orders.antt =====
-- Comparisons that are orders, the two that `RunnerScheduler` puts one after the other, and what a
-- stable sort by one brings to the front.
use ops_service.Prelude.{◌≡◌, ◌≢◌, ◌⊎◌, refl, inl, inr, [], ◌∷◌, arith}
use Prim.Native.Nat.{Ordering, lt, eq, gt}
use ops_service.Prelude.Bytes.{Bytes}
use ops_service.Scheduler.{cmp_bytes, cmp_ℤ, then_with}

abbrev pub reverse : Ordering → Ordering
reverse lt = gt
reverse eq = eq
reverse gt = lt

-- A comparison that is a total preorder.
pub record IsOrder {A : Type 0} (cmp : A → A → Ordering) : Type 0 where
  pub reverses : (a b : A) → cmp b a ≡ reverse (cmp a b)
  pub chains : (a b c : A) → cmp a b ≢ gt → cmp b c ≢ gt → cmp a c ≢ gt

pub Ordering-cases : (o : Ordering) → (o ≡ lt) ⊎ ((o ≡ eq) ⊎ (o ≡ gt))
Ordering-cases lt = inl refl
Ordering-cases eq = inr (inl refl)
Ordering-cases gt = inr (inr refl)

pub cmp_ℤ-IsOrder : IsOrder cmp_ℤ
cmp_ℤ-IsOrder = record { reverses = λ a b. ground arith; chains = λ a b c h k. ground arith }

cmp_bytes-reverse : (a b : Bytes) → cmp_bytes b a ≡ reverse (cmp_bytes a b)
cmp_bytes-reverse [] [] = refl
cmp_bytes-reverse [] (y ∷ ys) = refl
cmp_bytes-reverse (x ∷ xs) [] = refl
cmp_bytes-reverse (x ∷ xs) (y ∷ ys) = ground (arith, cmp_bytes-reverse xs ys)

cmp_bytes-chain : (a b c : Bytes) → cmp_bytes a b ≢ gt → cmp_bytes b c ≢ gt → cmp_bytes a c ≢ gt
cmp_bytes-chain [] b [] h k = λ e. cc
cmp_bytes-chain [] b (z ∷ zs) h k = λ e. cc
cmp_bytes-chain (x ∷ xs) [] c h k = absurd (h refl)
cmp_bytes-chain (x ∷ xs) (y ∷ ys) [] h k = absurd (k refl)
cmp_bytes-chain (x ∷ xs) (y ∷ ys) (z ∷ zs) h k = ground (arith, cmp_bytes-chain xs ys zs)

pub cmp_bytes-IsOrder : IsOrder cmp_bytes
cmp_bytes-IsOrder = record { reverses = cmp_bytes-reverse; chains = cmp_bytes-chain }

-- One comparison, and another where the first finds no difference.
pub then_with-IsOrder :
    {A : Type 0} {f g : A → A → Ordering}
    → IsOrder f
    → IsOrder g
    → IsOrder (λ a b. then_with (f a b) (g a b))
then_with-IsOrder {f} {g} first second = record {
  reverses = λ a b. ground (arith, first.reverses a b, second.reverses a b);
  chains = λ a b c h k. ground (
    arith,
    first.reverses a b,
    first.reverses b c,
    first.reverses a c,
    first.chains a b c,
    first.chains b c a,
    first.chains c a b,
    second.chains a b c,
  );
}

-- An order on what is read off.
pub by-IsOrder :
    {A B : Type 0} {f : B → B → Ordering} (key : A → B)
    → IsOrder f
    → IsOrder (λ a b. f (key a) (key b))
by-IsOrder key order = record {
  reverses = λ a b. order.reverses (key a) (key b);
  chains = λ a b c. order.chains (key a) (key b) (key c);
}

pub flip-IsOrder : {A : Type 0} {f : A → A → Ordering} → IsOrder f → IsOrder (λ a b. f b a)
flip-IsOrder order = record {
  reverses = λ a b. order.reverses b a;
  chains = λ a b c h k. order.chains c b a k h;
}
