-- ===== src/Middleware/Limits.antt =====
-- The limit of requests for each address in src/ops-service/src/middleware/mod.rs, against the limiter of
-- src/ops-service/src/concurrency/mod.rs.
use ops_service.Prelude.{
  ℕ, ◌-◌, ◌≤◌, ◌≡◌, refl, ap, sym, ◌∙◌, subst, inl, inr, Bool, true, false, none, some, List, [],
  ◌∷◌, ◌++◌, if◌then◌else◌, ltb, leb, arith, Bool-cases, All, retain, length,
}
use mathlib.Core.List.{append_assoc}
use ops_service.Concurrency.Rate.{
  RateLimiter, is_active, check, accepted, with_passed, Ascending, limit_exceeded,
}
use ops_service.Middleware.{IpLimiterState, pop_expired, check_state}

All-append-left : (P : ℕ → Type 0) (xs ys : List ℕ) → All P (xs ++ ys) → All P xs
All-append-left P [] ys h = tt
All-append-left P (x ∷ xs) ys h = (h.0, All-append-left P xs ys h.1)

Ascending-left : (xs ys : List ℕ) → Ascending (xs ++ ys) → Ascending xs
Ascending-left [] ys h = tt
Ascending-left (x ∷ xs) ys h = (All-append-left _ xs ys h.0, Ascending-left xs ys h.1)

All-retain_append :
    (P : ℕ → Type 0) (p : ℕ → Bool) (xs ys : List ℕ) → All P (xs ++ ys) → All P (retain p xs ++ ys)
All-retain_append P p [] ys h = h
All-retain_append P p (x ∷ xs) ys h = elim (Bool-cases (p x)) [
  | inl kept ↦ rw kept (h.0, All-retain_append P p xs ys h.1)
  | inr gone ↦ rw gone (All-retain_append P p xs ys h.1)
]

Ascending-retain_append :
    (p : ℕ → Bool) (xs ys : List ℕ) → Ascending (xs ++ ys) → Ascending (retain p xs ++ ys)
Ascending-retain_append p [] ys h = h
Ascending-retain_append p (x ∷ xs) ys h = elim (Bool-cases (p x)) [
  | inl kept ↦ rw kept (All-retain_append _ p xs ys h.0, Ascending-retain_append p xs ys h.1)
  | inr gone ↦ rw gone (Ascending-retain_append p xs ys h.1)
]

All-drop_middle :
    (P : ℕ → Type 0) (xs : List ℕ) (y : ℕ) (ys : List ℕ) → All P (xs ++ y ∷ ys) → All P (xs ++ ys)
All-drop_middle P [] y ys h = h.1
All-drop_middle P (x ∷ xs) y ys h = (h.0, All-drop_middle P xs y ys h.1)

Ascending-drop_middle :
    (xs : List ℕ) (y : ℕ) (ys : List ℕ) → Ascending (xs ++ y ∷ ys) → Ascending (xs ++ ys)
Ascending-drop_middle [] y ys h = h.1
Ascending-drop_middle (x ∷ xs) y ys h =
    (All-drop_middle _ xs y ys h.0, Ascending-drop_middle xs y ys h.1)

-- Requests that came later than a recent one are recent.
retain-later :
    (window now front : ℕ) (xs : List ℕ)
    → ltb (now - front) window ≡ true
    → All (λ u. front ≤ u) xs
    → retain (is_active window now) xs ≡ xs
retain-later window now front [] fresh h = refl
retain-later window now front (x ∷ xs) fresh h =
    ground (arith, retain-later window now front xs fresh h.1)

-- For requests in the order of time, what is taken off the front is all that has expired.
pop_expired-retain :
    (window now : ℕ) (xs : List ℕ)
    → Ascending xs
    → pop_expired window now xs ≡ retain (is_active window now) xs
unfolding pop_expired
pop_expired-retain window now [] h = refl
pop_expired-retain window now (x ∷ xs) h = elim (Bool-cases (ltb (now - x) window)) [
  | inl fresh ↦ rw fresh (ap (◌∷◌ x) (sym (retain-later window now x xs fresh h.0)))
  | inr expired ↦ rw expired (pop_expired-retain window now xs h.1)
]

-- The times at which one state lets requests pass.
abbrev pub pass_if : ℕ → Bool → List ℕ → List ℕ
pass_if now allowed rest = if allowed then now ∷ rest else rest

unfoldable pub passed : IpLimiterState → List ℕ → List ℕ
passed state [] = []
passed state (now ∷ times) =
    let (next, allowed) = check_state state now in
    let rest = passed next times in pass_if now allowed rest

module _ (window max : ℕ) where
  abbrev pub state_with : List ℕ → IpLimiterState
  state_with rs = record { requests = rs; window_duration = window; max_requests = max }

  abbrev pub limiter_with : List ℕ → RateLimiter
  limiter_with rs = record { requests = rs; window_duration = window; max_requests = max }

  not_full : (xs : List ℕ) → ltb (length xs) max ≡ true → leb max (length xs) ≡ false
  not_full xs h = ground arith

  is_full : (xs : List ℕ) → ltb (length xs) max ≡ false → leb max (length xs) ≡ true
  is_full xs h = ground arith

  pub passed-accepted :
      (rs times : List ℕ)
      → Ascending (rs ++ times)
      → passed (state_with rs) times ≡ accepted (limiter_with rs) times
  unfolding passed accepted check check_state
  passed-accepted rs [] h = refl
  passed-accepted rs (now ∷ times) h =
      let active = retain (is_active window now) rs in
      let same = pop_expired-retain window now rs (Ascending-left rs (now ∷ times) h) in
      let kept = Ascending-retain_append (is_active window now) rs (now ∷ times) h in
      elim (Bool-cases (ltb (length active) max)) [
        | inl room ↦
            let here : check_state (state_with rs) now ≡ (state_with (active ++ now ∷ []), true) =
              rw (same, room) refl in
            let there : check (limiter_with rs) now ≡ (limiter_with (active ++ now ∷ []), none) =
              rw (not_full active room) refl in
            ap (λ p. pass_if now p.1 (passed p.0 times)) here
            ∙ ap (◌∷◌ now) (
                passed-accepted (active ++ now ∷ []) times
                  (subst Ascending (sym (append_assoc active (now ∷ []) times)) kept))
            ∙ sym (ap (λ p. with_passed now p.1 (accepted p.0 times)) there)
        | inr full ↦
            let here : check_state (state_with rs) now ≡ (state_with active, false) =
              rw (same, full) refl in
            let there : check (limiter_with rs) now
                ≡ (limiter_with active, some (limit_exceeded max window)) =
              rw (is_full active full) refl in
            ap (λ p. pass_if now p.1 (passed p.0 times)) here
            ∙ passed-accepted active times (Ascending-drop_middle active now times kept)
            ∙ sym (ap (λ p. with_passed now p.1 (accepted p.0 times)) there)
      ]
