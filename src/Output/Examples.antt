-- ===== src/Output/Examples.antt =====
-- Runs of the output processing at concrete inputs.
use ops_service.Prelude.{◌<◌, ◌≡◌, refl, true, false, [], ◌∷◌, length, inl, arith, if◌then◌else◌}
use ops_service.Prelude.Bytes.{Bytes, codes, contains}
use ops_service.Error.{ok, panicked}
use ops_service.Output.{
  SanitizeRule, OutputArchive, sanitize, is_char_boundary, processed, process_output,
}
use ops_service.Output.Cuts.{panics_iff, IsAscii, KeepsUnmatched}

-- A rule that blots out a text with the word in it.
abbrev blot : SanitizeRule
blot = record {
  name = "word";
  replace_all = λ text. if contains text (codes "pwd") then codes "***" else text;
  is_match = λ text. contains text (codes "pwd");
}

abbrev short : OutputArchive
short = record {
  max_summary_length = 3;
  max_detail_length = 20;
  enable_sanitization = true;
  rules = blot ∷ [];
}

cut : process_output short (codes "hello") ≡ ok (codes "hel...", codes "hello")
unfolding process_output sanitize
cut = refl

-- Two letters and an e with an acute accent, which takes two bytes.
abbrev accented : Bytes
accented = 99 ∷ 97 ∷ 195 ∷ 169 ∷ []

inside :
    (3 < length (processed short accented))
    × (is_char_boundary (processed short accented) 3 ≡ false)
unfolding sanitize
inside = (omega arith, refl)

panics_iff_example : process_output short accented ≡ panicked
panics_iff_example = (panics_iff short accented).1 (inl inside)

plain : IsAscii (processed short (codes "hello"))
unfolding sanitize
plain = omega arith

blot_keeps : KeepsUnmatched blot
blot_keeps text h = rw h
