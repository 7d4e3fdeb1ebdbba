-- ===== src/Signature/Times.antt =====
-- The timestamp of a webhook: what `parse::<i64>` gives and what its skew says, wrap-around included.
use ops_service.Prelude.{
  ℕ, zero, suc, ◌+◌, ◌≤◌, ◌<◌, ◌^◌, ◌≡◌, ◌↔◌, false, Option, none, some, [], ◌∷◌, ltb, arith,
}
use ops_service.Prelude.Int.{ℤ, pos, pos_part, neg_part}
use ops_service.Prelude.Bytes.{Bytes}
use ops_service.Signature.{
  parse_i64, skew_of, i64_limit, positive_i64, negative_i64, negated, read_number,
}

-- A value of `i64`.
abbrev pub IsI64 : ℤ → Type 0
IsI64 t = (pos_part t < i64_limit) × (neg_part t ≤ i64_limit)

-- Two times are at most so many seconds apart.
abbrev pub Within : ℕ → ℤ → ℤ → Type 0
Within secs a b =
    (pos_part a + neg_part b ≤ secs + (pos_part b + neg_part a))
    × (pos_part b + neg_part a ≤ secs + (pos_part a + neg_part b))

positive_i64-IsI64 : (n : Option ℕ) (t : ℤ) → positive_i64 n ≡ some t → IsI64 t
positive_i64-IsI64 none t h = cc
positive_i64-IsI64 (some n) t h = ground arith

negated-IsI64 : (n : ℕ) → n ≤ i64_limit → IsI64 (negated n)
negated-IsI64 zero h = (omega arith, omega arith)
negated-IsI64 (suc n) h = (omega arith, omega arith)

negative_i64-IsI64 : (n : Option ℕ) (t : ℤ) → negative_i64 n ≡ some t → IsI64 t
negative_i64-IsI64 none t h = cc
negative_i64-IsI64 (some n) t h = ground (arith, negated-IsI64 n)

pub parse_i64-IsI64 : (text : Bytes) (t : ℤ) → parse_i64 text ≡ some t → IsI64 t
unfolding parse_i64
parse_i64-IsI64 [] t h = cc
parse_i64-IsI64 (c ∷ cs) t h = ground (
  arith,
  negative_i64-IsI64 (read_number cs) t,
  positive_i64-IsI64 (read_number cs) t,
  positive_i64-IsI64 (read_number (c ∷ cs)) t,
)

-- Where the clock and the greatest skew are below 2 ^ 62, the test of the skew, whose arithmetic
-- wraps around, passes a timestamp that is parsed exactly if it is within the skew of the clock.
pub skew_decides :
    (now max_skew : ℕ) (text : Bytes) (t : ℤ)
    → now < 2 ^ 62
    → max_skew < 2 ^ 62
    → parse_i64 text ≡ some t
    → (ltb max_skew (skew_of (pos now) t) ≡ false) ↔ Within max_skew (pos now) t
unfolding skew_of
skew_decides now max_skew text t h g e =
    let range = parse_i64-IsI64 text t e in
    (
      λ (p : ltb max_skew (skew_of (pos now) t) ≡ false). ground (arith, range),
      λ p. ground (arith, range),
    )
