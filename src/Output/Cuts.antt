-- ===== src/Output/Cuts.antt =====
-- Cutting an output: bounds, what is kept, and when it panics.
use ops_service.Prelude.{
  ℕ, zero, suc, ◌+◌, ◌≤◌, ◌<◌, ◌≡◌, ◌↔◌, ◌≢◌, ◌⊎◌, inl, inr, refl, true, false, List, [], ◌∷◌,
  length, arith, All, length-append,
}
use ops_service.Prelude.Bytes.{Bytes, codes}
use ops_service.Error.{ok, panicked}
use ops_service.Output.{
  SanitizeRule, OutputArchive, sanitize, contains_sensitive, take, is_char_boundary, processed,
  process_output,
}

length-take-le : (n : ℕ) (xs : Bytes) → length (take n xs) ≤ n
length-take-le zero xs = omega arith
length-take-le (suc n) [] = omega arith
length-take-le (suc n) (x ∷ xs) = omega (arith, length-take-le n xs)

-- Whenever masking and cutting return, the summary is the masked text itself, which is within its
-- limit, or the text is longer than the limit and the summary at most three bytes longer.
pub summary_bounded :
    (archive : OutputArchive) (output : Bytes) {summary detail : Bytes}
    → process_output archive output ≡ ok (summary, detail)
    → ((length (processed archive output) ≤ archive.max_summary_length)
        × (summary ≡ processed archive output))
      ⊎ ((archive.max_summary_length < length (processed archive output))
          × (length summary ≤ archive.max_summary_length + 3))
unfolding process_output
summary_bounded archive output h = ground (
  arith,
  length-take-le archive.max_summary_length (processed archive output),
  length-append (take archive.max_summary_length (processed archive output)) (codes "..."),
)

abbrev pub IsAscii : Bytes → Type 0
IsAscii = All (λ b. b < 128)

ascii_boundary : (xs : Bytes) (n : ℕ) → IsAscii xs → n ≤ length xs → is_char_boundary xs n ≡ true
ascii_boundary xs zero a h = refl
ascii_boundary [] (suc n) a h = absurd (omega arith)
ascii_boundary (x ∷ []) (suc zero) a h = refl
ascii_boundary (x ∷ y ∷ ys) (suc zero) a h = ground arith
ascii_boundary (x ∷ []) (suc (suc n)) a h = absurd (omega arith)
ascii_boundary (x ∷ y ∷ ys) (suc (suc n)) a h = ascii_boundary (y ∷ ys) (suc n) a.1 (omega arith)

-- A limit that is exceeded at a place inside a character.
abbrev pub SplitsChar : ℕ → Bytes → Type 0
SplitsChar max text = (max < length text) × (is_char_boundary text max ≡ false)

-- Processing panics exactly if a limit that applies falls inside a character of the masked text;
-- otherwise it returns. A detail limit of 0 never applies.
pub panics_iff :
    (archive : OutputArchive) (output : Bytes)
    → let text = processed archive output in
      (process_output archive output ≡ panicked) ↔ (
        SplitsChar archive.max_summary_length text
        ⊎ ((0 < archive.max_detail_length) × SplitsChar archive.max_detail_length text))
unfolding process_output
panics_iff archive output = ((λ h. ground arith), (λ h. ground arith))

-- ASCII output is processed without a panic, whatever the limits.
pub ascii_returns :
    (archive : OutputArchive) (output : Bytes)
    → IsAscii (processed archive output)
    → process_output archive output ≢ panicked
ascii_returns archive output ascii h = elim ((panics_iff archive output).0 h) [
  | inl (over, inside) ↦
      ground (arith, ascii_boundary (processed archive output) archive.max_summary_length ascii)
  | inr (_, (over, inside)) ↦
      ground (arith, ascii_boundary (processed archive output) archive.max_detail_length ascii)
]

-- The `regex` crate's promise for `Regex::replace_all`: without a match it returns the text itself.
abbrev pub KeepsUnmatched : SanitizeRule → Type 0
KeepsUnmatched r = (text : Bytes) → r.is_match text ≡ false → r.replace_all text ≡ text

-- Masking leaves a text in which no rule finds anything as it is.
pub sanitize_clean :
    (rules : List SanitizeRule) (text : Bytes)
    → All KeepsUnmatched rules
    → contains_sensitive rules text ≡ false
    → sanitize rules text ≡ text
unfolding sanitize contains_sensitive
sanitize_clean [] text keeps clean = refl
sanitize_clean (r ∷ rules) text keeps clean =
    let same : r.replace_all text ≡ text = keeps.0 text (ground arith) in
    rw same (sanitize_clean rules text keeps.1 (ground arith))
