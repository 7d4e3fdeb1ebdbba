-- ===== src/Concurrency/Rate.antt =====
-- `RateLimiter` of src/ops-service/src/concurrency/mod.rs. An `Instant` is a number of seconds of the
-- monotonic clock, and `duration_since` of a later one is 0.
use ops_service.Prelude.{
  ℕ, ◌+◌, ◌-◌, ◌≤◌, ◌<◌, ◌≡◌, ◌↔◌, refl, ap, inl, inr, Bool, true, false, ◌&&◌, Option, none, some,
  List, [], ◌∷◌, ◌++◌, if◌then◌else◌, ltb, leb, arith, Bool-cases, All, All-imp, retain, count,
  length,
}
use ops_service.Prelude.Keys.{count-append}

pub record RateLimiter : Type 0 where
  pub requests : List ℕ
  pub window_duration : ℕ
  pub max_requests : ℕ

pub data RateLimitError : Type 0 where
  limit_exceeded : (max_requests window_duration_secs : ℕ) → RateLimitError

pub record RateLimitStats : Type 0 where
  pub max_requests : ℕ
  pub current_requests : ℕ
  pub window_duration_secs : ℕ

abbrev pub new_limiter : ℕ → ℕ → RateLimiter
new_limiter window_duration_secs max_requests = record {
  requests = [];
  window_duration = window_duration_secs;
  max_requests = max_requests;
}

-- `now.duration_since(timestamp) < self.window_duration`
abbrev pub is_active : ℕ → ℕ → ℕ → Bool
is_active window now timestamp = ltb (now - timestamp) window

-- `check`: `none` is `Ok`.
unfoldable pub check : RateLimiter → ℕ → RateLimiter × Option RateLimitError
check limiter now =
    let active = retain (is_active limiter.window_duration now) limiter.requests in
    if leb limiter.max_requests (length active)
    then (
      record limiter { requests = active },
      some (limit_exceeded limiter.max_requests limiter.window_duration),
    )
    else (record limiter { requests = active ++ now ∷ [] }, none)

unfoldable pub rate_stats : RateLimiter → ℕ → RateLimitStats
rate_stats limiter now = record {
  max_requests = limiter.max_requests;
  current_requests = count (is_active limiter.window_duration now) limiter.requests;
  window_duration_secs = limiter.window_duration;
}

abbrev pub with_passed : ℕ → Option RateLimitError → List ℕ → List ℕ
with_passed now none rest = now ∷ rest
with_passed now (some e) rest = rest

-- The times at which checks are passed, one check after the other.
unfoldable pub accepted : RateLimiter → List ℕ → List ℕ
unfolding check
accepted limiter [] = []
accepted limiter (now ∷ times) =
    let (next, answer) = check limiter now in
    let rest = accepted next times in with_passed now answer rest

-- The clock does not go back.
abbrev pub Ascending : List ℕ → Type 0
Ascending [] = Unit
Ascending (t ∷ ts) = All (λ u. t ≤ u) ts × Ascending ts

-- A time in the window that ends at `now`.
abbrev pub is_within : ℕ → ℕ → ℕ → Bool
is_within window now timestamp = leb timestamp now && is_active window now timestamp

length-retain : {A : Type 0} (p : A → Bool) (xs : List A) → length (retain p xs) ≡ count p xs
length-retain p [] = refl
length-retain p (x ∷ xs) = ground (arith, length-retain p xs)

-- What has expired by a time is in no later window.
count-retain_active :
    (window now t : ℕ) (xs : List ℕ)
    → now ≤ t
    → count (is_within window t) (retain (is_active window now) xs) ≡ count (is_within window t) xs
count-retain_active window now t [] h = refl
count-retain_active window now t (x ∷ xs) h = ground (arith, count-retain_active window now t xs h)

count_le_length : {A : Type 0} (p : A → Bool) (xs : List A) → count p xs ≤ length xs
count_le_length p [] = omega arith
count_le_length p (x ∷ xs) = ground (arith, count_le_length p xs)

-- Checks from a time on pass at no earlier time.
accepted_later :
    (window t : ℕ) (limiter : RateLimiter) (times : List ℕ)
    → All (λ u. t < u) times
    → count (is_within window t) (accepted limiter times) ≡ 0
unfolding accepted
accepted_later window t limiter [] h = refl
accepted_later window t limiter (u ∷ us) h =
    ground (arith, accepted_later window t (check limiter u).0 us h.1)

-- A check passes exactly where the statistics of its moment are below the limit.
pub check_agrees :
    (limiter : RateLimiter) (now : ℕ)
    → ((check limiter now).1 ≡ none)
      ↔ ((rate_stats limiter now).current_requests < limiter.max_requests)
unfolding check rate_stats
check_agrees limiter now =
    let size = length-retain (is_active limiter.window_duration now) limiter.requests in
    (λ h. ground (arith, size, h), λ h. ground (arith, size, h))

module _ (window max t : ℕ) where
  abbrev limiter_with : List ℕ → RateLimiter
  limiter_with rs = record { requests = rs; window_duration = window; max_requests = max }

  -- The part of a run after the time.
  passed_after :
      (rs : List ℕ) (now : ℕ) (times : List ℕ)
      → t < now
      → All (λ u. now ≤ u) times
      → count (is_within window t) (accepted (limiter_with rs) (now ∷ times)) ≡ 0
  passed_after rs now times h latest =
      accepted_later window t (limiter_with rs) (now ∷ times)
        (h, All-imp times (λ u g. omega arith) latest)

  accepted-full :
      (rs : List ℕ) (now : ℕ) (times : List ℕ)
      → let active = retain (is_active window now) rs in
        leb max (length active) ≡ true
        → accepted (limiter_with rs) (now ∷ times) ≡ accepted (limiter_with active) times
  unfolding accepted
  accepted-full rs now times full =
      let checked : check (limiter_with rs) now
          ≡ (limiter_with (retain (is_active window now) rs), some (limit_exceeded max window)) =
        rw full refl in
      ap (λ p. with_passed now p.1 (accepted p.0 times)) checked

  accepted-room :
      (rs : List ℕ) (now : ℕ) (times : List ℕ)
      → let active = retain (is_active window now) rs in
        leb max (length active) ≡ false
        → accepted (limiter_with rs) (now ∷ times)
          ≡ now ∷ accepted (limiter_with (active ++ now ∷ [])) times
  unfolding accepted
  accepted-room rs now times room =
      let checked : check (limiter_with rs) now
          ≡ (limiter_with (retain (is_active window now) rs ++ now ∷ []), none) =
        rw room refl in
      ap (λ p. with_passed now p.1 (accepted p.0 times)) checked

  -- Passed checks are in no window of the length more than the limit, those on record included.
  accepted_within :
      (rs times : List ℕ)
      → Ascending times
      → count (is_within window t) rs ≤ max
      → count (is_within window t) rs
          + count (is_within window t) (accepted (limiter_with rs) times)
        ≤ max
  unfolding accepted
  accepted_within rs [] sorted few = omega arith
  accepted_within rs (now ∷ times) (latest, sorted) few =
      let active = retain (is_active window now) rs in
      elim (Bool-cases (leb now t)) [
        | inr gone ↦ omega (arith, passed_after rs now times (ground arith) latest)
        | inl reached ↦
            let kept = count-retain_active window now t rs (ground arith) in
            elim (Bool-cases (leb max (length active))) [
              | inl full ↦
                  rw (accepted-full rs now times full)
                    (omega (arith, kept, accepted_within active times sorted (omega (arith, kept))))
              | inr fits ↦
                  let size = count_le_length (is_within window t) active in
                  let one = count-append (is_within window t) active (now ∷ []) in
                  let room : length active < max = ground arith in
                  let last = count_le_length (is_within window t) (now ∷ []) in
                  let rest =
                    accepted_within (active ++ now ∷ []) times sorted
                      (omega (arith, one, size, room, last)) in
                  rw (accepted-room rs now times fits) (ground (arith, kept, one, rest))
            ]
      ]

-- Of checks one after the other at a new limiter, with a clock that does not go back, in every stretch
-- of time of the window's length that ends at any time at most as many pass as the limit.
pub rate_limited :
    (window_duration_secs max_requests : ℕ) (times : List ℕ) (t : ℕ)
    → Ascending times
    → count
        (is_within window_duration_secs t)
        (accepted (new_limiter window_duration_secs max_requests) times)
      ≤ max_requests
rate_limited window_duration_secs max_requests times t sorted =
    omega (arith, accepted_within window_duration_secs max_requests t [] times sorted (omega arith))
