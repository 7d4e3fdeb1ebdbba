-- ===== src/Prelude/Bytes.antt =====
-- Texts as their UTF-8 bytes, with the searches of Rust's `str`.
use Prim.Native.Nat.{ℕ}
use Prim.Native.String.{String}
use Prim.Native.Char.{code}
use mathlib.Core.Path.{◌≡◌, refl, ap}
use mathlib.Core.Logic.{◌≢◌, inl, inr}
use mathlib.Core.Bool.{Bool, true, false, ◌&&◌, ◌||◌}
use mathlib.Core.List.{List, [], ◌∷◌, ◌++◌}
use native.Mathlib.Omega.{arith}
use ops_service.Prelude.Tests.{◌==◌, Bool-cases}
use ops_service.Prelude.Lists.{All}

abbrev pub Bytes : Type 0
Bytes = List ℕ

-- The bytes of an ASCII text.
abbrev pub codes : String → Bytes
codes String.[] = []
codes (String.◌∷◌ c s) = code c ∷ codes s

-- `==` on texts.
abbrev pub bytes_eq : Bytes → Bytes → Bool
bytes_eq [] [] = true
bytes_eq [] (y ∷ ys) = false
bytes_eq (x ∷ xs) [] = false
bytes_eq (x ∷ xs) (y ∷ ys) = x == y && bytes_eq xs ys

-- `str::starts_with`.
abbrev pub starts_with : Bytes → Bytes → Bool
starts_with [] [] = true
starts_with (x ∷ xs) [] = true
starts_with [] (y ∷ ys) = false
starts_with (x ∷ xs) (y ∷ ys) = x == y && starts_with xs ys

-- `str::contains`.
abbrev pub contains : Bytes → Bytes → Bool
contains [] ys = starts_with [] ys
contains (x ∷ xs) ys = starts_with (x ∷ xs) ys || contains xs ys

pub bytes_eq_sound : (xs ys : Bytes) → bytes_eq xs ys ≡ true → xs ≡ ys
bytes_eq_sound [] [] h = refl
bytes_eq_sound [] (y ∷ ys) h = cc
bytes_eq_sound (x ∷ xs) [] h = cc
bytes_eq_sound (x ∷ xs) (y ∷ ys) h = ground (arith, bytes_eq_sound xs ys)

pub bytes_eq_refl : (xs : Bytes) → bytes_eq xs xs ≡ true
bytes_eq_refl [] = refl
bytes_eq_refl (x ∷ xs) = ground (arith, bytes_eq_refl xs)

pub bytes_eq_comm : (xs ys : Bytes) → bytes_eq xs ys ≡ bytes_eq ys xs
bytes_eq_comm [] [] = refl
bytes_eq_comm [] (y ∷ ys) = refl
bytes_eq_comm (x ∷ xs) [] = refl
bytes_eq_comm (x ∷ xs) (y ∷ ys) = ground (arith, bytes_eq_comm xs ys)

pub starts_with_sound :
    (xs ys : Bytes) → starts_with xs ys ≡ true → (rest : Bytes) × (xs ≡ ys ++ rest)
starts_with_sound [] [] h = ([], refl)
starts_with_sound (x ∷ xs) [] h = (x ∷ xs, refl)
starts_with_sound [] (y ∷ ys) h = ([], cc)
starts_with_sound (x ∷ xs) (y ∷ ys) h =
    let tails : starts_with xs ys ≡ true = ground arith in
    let (rest, e) = starts_with_sound xs ys tails in (rest, ground arith)

pub starts_with-append : (ys rest : Bytes) → starts_with (ys ++ rest) ys ≡ true
starts_with-append [] [] = refl
starts_with-append [] (r ∷ rest) = refl
starts_with-append (y ∷ ys) rest = ground (arith, starts_with-append ys rest)

-- A text contains another if it splits around it.
abbrev pub Splits : Bytes → Bytes → Type 0
Splits xs ys = (before : Bytes) × (after : Bytes) × (xs ≡ before ++ (ys ++ after))

pub contains_sound : (xs ys : Bytes) → contains xs ys ≡ true → Splits xs ys
contains_sound [] ys h = let (rest, e) = starts_with_sound [] ys h in ([], rest, e)
contains_sound (x ∷ xs) ys h = elim (Bool-cases (starts_with (x ∷ xs) ys)) [
  | inl here ↦ let (rest, e) = starts_with_sound (x ∷ xs) ys here in ([], rest, e)
  | inr later ↦
      let (before, after, e) = contains_sound xs ys (ground arith) in
      (x ∷ before, after, ap (◌∷◌ x) e)
]

contains_at_head : (ys after : Bytes) → contains (ys ++ after) ys ≡ true
contains_at_head [] [] = refl
contains_at_head [] (a ∷ after) = refl
contains_at_head (y ∷ ys) after = ground (arith, starts_with-append (y ∷ ys) after)

pub contains_complete : (before ys after : Bytes) → contains (before ++ (ys ++ after)) ys ≡ true
contains_complete [] ys after = contains_at_head ys after
contains_complete (b ∷ before) ys after = ground (arith, contains_complete before ys after)

-- A text without a byte.
abbrev pub Lacks : ℕ → Bytes → Type 0
Lacks sep text = All (λ c. c ≢ sep) text

pub Lacks-sep : (sep : ℕ) (a b : Bytes) → Lacks sep (a ++ sep ∷ b) → ⊥
Lacks-sep sep [] b h = h.0 refl
Lacks-sep sep (c ∷ a) b h = Lacks-sep sep a b h.1

-- What stands before the first separator, and the rest.
pub split_once :
    (sep : ℕ) (a b x y : Bytes)
    → Lacks sep a
    → Lacks sep b
    → a ++ sep ∷ x ≡ b ++ sep ∷ y
    → (a ≡ b) × (x ≡ y)
split_once sep [] [] x y p q h = (refl, cc)
split_once sep [] (c ∷ b) x y p q h = absurd (q.0 cc)
split_once sep (c ∷ a) [] x y p q h = absurd (p.0 cc)
split_once sep (c ∷ a) (d ∷ b) x y p q h =
    let (same, rest) = split_once sep a b x y p.1 q.1 cc in (cc, rest)
