-- ===== src/Runner/Logs.antt =====
-- `publish_log` of src/ops-runner/src/publisher.rs: long logs are cut into chunks of 256 KiB, and a
-- chunk that is not UTF-8 by itself is sent as an empty text. The fuel of the cut is the log's
-- length, which is enough since every chunk takes a byte.
use ops_service.Prelude.{
  ℕ, zero, suc, ◌+◌, ◌*◌, Bool, false, ◌&&◌, Option, none, some, List, [], ◌∷◌, if◌then◌else◌, ◌==◌,
  ltb, leb, length, is_empty,
}
use ops_service.Prelude.Bytes.{Bytes}
use ops_service.Error.{Act, ◌>>◌, pure}
use ops_service.Runner.{
  BuildTaskMessage, BuildStep, LogLevel, Message, log_message, Store, Env, basic_publish,
}

abbrev pub take : ℕ → Bytes → Bytes
take zero xs = []
take (suc n) [] = []
take (suc n) (x ∷ xs) = x ∷ take n xs

abbrev pub drop : ℕ → Bytes → Bytes
drop zero xs = xs
drop (suc n) [] = []
drop (suc n) (x ∷ xs) = drop n xs

-- `slice::chunks`, for a positive size.
unfoldable pub chunks : ℕ → ℕ → Bytes → List Bytes
chunks zero size xs = []
chunks (suc fuel) size xs =
    let rest = chunks fuel size (drop size xs) in if is_empty xs then [] else take size xs ∷ rest

-- A byte that begins a character: how many bytes follow, and the bounds of the first of these.
abbrev pub lead : ℕ → Option (ℕ × ℕ × ℕ)
lead b =
    if ltb b 128
    then some (0, 128, 191)
    else if ltb b 194
    then none
    else if ltb b 224
    then some (1, 128, 191)
    else if b == 224
    then some (2, 160, 191)
    else if b == 237
    then some (2, 128, 159)
    else if ltb b 240
    then some (2, 128, 191)
    else if b == 240
    then some (3, 144, 191)
    else if ltb b 244
    then some (3, 128, 191)
    else if b == 244
    then some (3, 128, 143)
    else none

-- `std::str::from_utf8` accepts the bytes, of which `n` still belong to a character.
unfoldable pub is_utf8_from : ℕ → ℕ → ℕ → Bytes → Bool
is_utf8_from n low high [] = n == 0
is_utf8_from zero low high (b ∷ bs) = elim (lead b) [
  | none ↦ false
  | some (n, l, h) ↦ is_utf8_from n l h bs
]
is_utf8_from (suc n) low high (b ∷ bs) =
    let rest = is_utf8_from n 128 191 bs in leb low b && (leb b high && rest)

abbrev pub is_utf8 : Bytes → Bool
is_utf8 = is_utf8_from 0 128 191

-- `from_utf8(chunk).unwrap_or("")`
abbrev pub text_or_empty : Bytes → Bytes
text_or_empty chunk = if is_utf8 chunk then chunk else []

abbrev pub max_chunk_size : ℕ
max_chunk_size = 262144

abbrev pub log_chunk : BuildTaskMessage → BuildStep → Bytes → LogLevel → ℕ → Bool → Message
log_chunk task step content level offset is_final = log_message (record {
  task_id = task.task_id;
  job_id = task.job_id;
  step_id = step.id;
  level = level;
  content = content;
  offset = offset;
  is_final = is_final;
})

abbrev pub publish_log_chunk :
    Env → BuildTaskMessage → BuildStep → Bytes → LogLevel → ℕ → Bool → Act Store (Unit {0})
publish_log_chunk env task step content level offset is_final =
    basic_publish env "Failed to publish log message"
      (log_chunk task step content level offset is_final)

-- The loop over the chunks, the first of which is number `i`.
unfoldable pub publish_chunks :
    Env
    → BuildTaskMessage
    → BuildStep
    → LogLevel
    → ℕ
    → ℕ
    → Bool
    → ℕ
    → List Bytes
    → Act Store (Unit {0})
publish_chunks env task step level size offset is_final i [] = pure tt
publish_chunks env task step level size offset is_final i (c ∷ cs) = do
  publish_log_chunk env task step (text_or_empty c) level (offset + i * size)
      (is_final && is_empty cs)
  publish_chunks env task step level size offset is_final (i + 1) cs

-- `publish_log` with chunks of a given size.
unfoldable pub publish_log_by :
    ℕ → Env → BuildTaskMessage → BuildStep → Bytes → LogLevel → ℕ → Bool → Act Store (Unit {0})
publish_log_by size env task step content level offset is_final =
    if leb (length content) size
    then publish_log_chunk env task step content level offset is_final
    else publish_chunks env task step level size offset is_final 0
        (chunks (length content) size content)

abbrev pub publish_log :
    Env → BuildTaskMessage → BuildStep → Bytes → LogLevel → ℕ → Bool → Act Store (Unit {0})
publish_log = publish_log_by max_chunk_size
