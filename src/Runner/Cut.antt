-- ===== src/Runner/Cut.antt =====
-- A log whose cut falls inside a character.
use ops_service.Prelude.{
  ℕ, zero, suc, ◌+◌, ◌≤◌, ◌≡◌, refl, ap, Bool, true, false, List, [], ◌∷◌, ◌++◌, leb, length,
  is_empty, arith,
}
use ops_service.Prelude.Bytes.{Bytes}
use ops_service.Error.{ok}
use ops_service.Runner.{BuildTaskMessage, BuildStep, LogLevel, Message, Store, Env}
use ops_service.Runner.Logs.{take, drop, chunks, is_utf8_from, is_utf8, publish_log_by}
use ops_service.Runner.Transport.{
  contents, IsAscii, chunk_messages, publish_chunks_value, chunks-nil,
}

-- An ASCII text, a character of two bytes and an ASCII text.
abbrev pub around : Bytes → Bytes → Bytes
around before after = before ++ (195 ∷ 169 ∷ after)

cut_around :
    (before after : Bytes)
    → (take (suc (length before)) (around before after) ≡ before ++ (195 ∷ []))
      × (drop (suc (length before)) (around before after) ≡ 169 ∷ after)
cut_around [] after = (refl, refl)
cut_around (x ∷ xs) after = let (front, back) = cut_around xs after in (ap (◌∷◌ x) front, back)

open_character : (before : Bytes) → IsAscii before → is_utf8 (before ++ (195 ∷ [])) ≡ false
unfolding is_utf8_from
open_character [] a = refl
open_character (x ∷ xs) a = ground (arith, open_character xs)

take_all : (n : ℕ) (xs : Bytes) → length xs ≤ n → (take n xs ≡ xs) × (drop n xs ≡ [])
take_all zero [] h = (refl, refl)
take_all zero (x ∷ xs) h = absurd (omega arith)
take_all (suc n) [] h = (refl, refl)
take_all (suc n) (x ∷ xs) h =
    let (front, back) = take_all n xs (omega arith) in (ap (◌∷◌ x) front, back)

length-around :
    (before after : Bytes) → length (around before after) ≡ suc (suc (length before + length after))
length-around [] after = omega arith
length-around (x ∷ xs) after = ground (arith, length-around xs after)

is_empty-around : (before after : Bytes) → is_empty (around before after) ≡ false
is_empty-around [] after = refl
is_empty-around (x ∷ xs) after = refl

two_chunks :
    (before after : Bytes) (fuel : ℕ)
    → length after ≤ length before
    → chunks (suc (suc fuel)) (suc (length before)) (around before after)
      ≡ (before ++ (195 ∷ [])) ∷ (169 ∷ after) ∷ []
unfolding chunks
two_chunks before after fuel short =
    let (front, back) = cut_around before after in
    let (whole, nothing) = take_all (suc (length before)) (169 ∷ after) (omega arith) in
    rw
      (
        is_empty-around before after,
        front,
        back,
        ap (◌∷◌ 169) (take_all (length before) after short).0,
        nothing,
        chunks-nil fuel (suc (length before)),
      )
      refl

-- A delivered log is lost whole where the limit of the first chunk falls inside a character: an ASCII
-- text of one byte less than the limit, a character of two bytes, and less than a chunk after it.
pub split_character_loses_log :
    (env : Env) (delivered : (n : ℕ) (m : Message) → env.delivers n m ≡ true)
    (task : BuildTaskMessage) (step : BuildStep) (level : LogLevel) (offset : ℕ) (is_final : Bool)
    (before after : Bytes) (s : Store)
    → IsAscii before
    → length after ≤ length before
    → (ms : List Message) × (publish_log_by
          (suc (length before))
          env
          task
          step
          (around before after)
          level
          offset
          is_final
          s
        ≡ (record s { sent = s.sent ++ ms }, ok tt))
      × (contents ms ≡ [])
unfolding publish_log_by is_utf8_from
split_character_loses_log env delivered task step level offset is_final before after s ascii short =
    let size = suc (length before) in
    let long : leb (length (around before after)) size ≡ false =
      ground (arith, length-around before after) in
    let two = two_chunks before after (length before + length after) short in
    let cut : chunks (length (around before after)) size (around before after)
        ≡ (before ++ (195 ∷ [])) ∷ (169 ∷ after) ∷ [] =
      rw (length-around before after) two in
    (
      chunk_messages task step level size offset is_final 0
          ((before ++ (195 ∷ [])) ∷ (169 ∷ after) ∷ []),
      rw (long, cut)
          (publish_chunks_value env delivered task step level size offset is_final 0
            ((before ++ (195 ∷ [])) ∷ (169 ∷ after) ∷ []) s),
      rw (open_character before ascii) refl,
    )
