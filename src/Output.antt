-- ===== src/Output.antt =====
-- src/ops-service/src/output/mod.rs: masking and cutting of a command's output. A text is its UTF-8
-- bytes. `&text[..n]` panics unless `n` is a character boundary, so cutting returns an `R`. The
-- regular expressions are of the `regex` crate: a rule carries its two functions.
pub mod Cuts
mod Examples
use ops_service.Prelude.{
  ℕ, zero, suc, ◌+◌, ◌-◌, ◌*◌, ◌/◌, ◌%◌, ◌≡◌, Bool, true, false, ◌||◌, ◌&&◌, List, [], ◌∷◌, ◌++◌,
  if◌then◌else◌, ltb, leb, ◌==◌, length, any, String,
}
use ops_service.Prelude.Bytes.{Bytes, codes}
use ops_service.Error.{R, ok, err, panicked}

pub record SanitizeRule : Type 0 where
  pub name : String
  pub replace_all : Bytes → Bytes
  pub is_match : Bytes → Bool

pub record OutputArchive : Type 0 where
  pub max_summary_length : ℕ
  pub max_detail_length : ℕ
  pub enable_sanitization : Bool
  pub rules : List SanitizeRule

abbrev pub default_config : List SanitizeRule → OutputArchive
default_config rules = record {
  max_summary_length = 1000;
  max_detail_length = 100_000;
  enable_sanitization = true;
  rules = rules;
}

-- `OutputSanitizer::sanitize`.
unfoldable pub sanitize : List SanitizeRule → Bytes → Bytes
sanitize [] text = text
sanitize (r ∷ rules) text = sanitize rules (r.replace_all text)

-- `OutputSanitizer::contains_sensitive`.
unfoldable pub contains_sensitive : List SanitizeRule → Bytes → Bool
contains_sensitive rules text = any (λ r. r.is_match text) rules

abbrev pub take : ℕ → Bytes → Bytes
take zero xs = []
take (suc n) [] = []
take (suc n) (x ∷ xs) = x ∷ take n xs

-- A byte that begins a character.
abbrev pub is_leading : ℕ → Bool
is_leading b = ltb b 128 || leb 192 b

-- `str::is_char_boundary`.
abbrev pub is_char_boundary : Bytes → ℕ → Bool
is_char_boundary xs zero = true
is_char_boundary [] (suc n) = false
is_char_boundary (x ∷ []) (suc zero) = true
is_char_boundary (x ∷ y ∷ ys) (suc zero) = is_leading y
is_char_boundary (x ∷ xs) (suc (suc n)) = is_char_boundary xs (suc n)

-- `&text[..n]`
abbrev pub slice_to : Bytes → ℕ → R Bytes
slice_to text n = if is_char_boundary text n then ok (take n text) else panicked

abbrev pub bind {ℓ κ} : {A : Type ℓ} {B : Type κ} → R A → (A → R B) → R B
bind (ok a) f = f a
bind (err e) f = err e
bind panicked f = panicked

-- The decimal digits of a number; a number has at most as many as itself and one more.
abbrev pub digits : ℕ → ℕ → Bytes → Bytes
digits zero n rest = rest
digits (suc f) n rest =
    let more = digits f (n / 10) ((48 + n % 10) ∷ rest) in
    if ltb n 10 then (48 + n) ∷ rest else more

unfoldable pub decimal : ℕ → Bytes
decimal n = digits (suc n) n []

-- `if text.len() > max { format!("{}...", &text[..max]) } else { text }`
abbrev pub summarize : ℕ → Bytes → R Bytes
summarize max text =
    if ltb max (length text) then bind (slice_to text max) (λ t. ok (t ++ codes "...")) else ok text

pub notice : ℕ → ℕ → Bytes
notice total shown =
    codes "...\n\n[Output truncated: "
    ++ (decimal total
        ++ (codes " bytes total, showing first " ++ (decimal shown ++ codes " bytes]")))

abbrev pub detail_of : ℕ → Bytes → R Bytes
detail_of max text =
    if ltb 0 max && ltb max (length text)
    then bind (slice_to text max) (λ t. ok (t ++ notice (length text) max))
    else ok text

-- `OutputArchive`'s text after masking, if that is enabled.
abbrev pub processed : OutputArchive → Bytes → Bytes
processed archive output =
    if archive.enable_sanitization then sanitize archive.rules output else output

-- `process_output`, which gives the summary and the detail.
unfoldable pub process_output : OutputArchive → Bytes → R (Bytes × Bytes)
process_output archive output =
    bind (summarize archive.max_summary_length (processed archive output)) λ summary.
      bind (detail_of archive.max_detail_length (processed archive output))
        λ detail. ok (summary, detail)

-- `create_summary`.
unfoldable pub create_summary : OutputArchive → Bytes → R Bytes
create_summary archive output = summarize archive.max_summary_length (processed archive output)

-- `sanitize_and_summarize`.
unfoldable pub sanitize_and_summarize : List SanitizeRule → Bytes → ℕ → R (Bytes × Bytes)
sanitize_and_summarize rules output max =
    bind (summarize max (sanitize rules output)) (λ summary. ok (sanitize rules output, summary))

-- `publish_task_output` of src/ops-service/src/services/job_service.rs cuts at 4096 bytes.
unfoldable pub truncated_output : Bytes → R Bytes
truncated_output output =
    if ltb 4096 (length output)
    then bind (slice_to output 4096) (λ t.
      ok (t ++ (codes "...(truncated, " ++ (decimal (length output) ++ codes " bytes total)"))))
    else ok output
