-- ===== src/Runner/Transport.antt =====
-- Logs survive their cut into chunks: what a receiver puts together from the messages.
use ops_service.Prelude.{
  ℕ, zero, suc, ◌+◌, ◌*◌, ◌≤◌, ◌<◌, ◌≡◌, ◌⊎◌, inl, inr, refl, ap, subst, Bool, true, ◌&&◌, List, [],
  ◌∷◌, ◌++◌, leb, length, is_empty, All, arith, ◌∙◌, Bool-cases,
}
use ops_service.Prelude.Bytes.{Bytes}
use ops_service.Error.{ok}
use mathlib.Core.List.{append_assoc, append-nil}
use ops_service.Runner.{
  BuildTaskMessage, BuildStep, LogLevel, Message, log_message, status_message, Store, Env,
}
use ops_service.Runner.Logs.{
  take, drop, chunks, is_utf8_from, is_utf8, text_or_empty, log_chunk, publish_chunks,
  publish_log_by,
}

-- What the log messages of a list carry, one after the other.
abbrev pub contents : List Message → Bytes
contents [] = []
contents (log_message m ∷ ms) = m.content ++ contents ms
contents (status_message m ∷ ms) = contents ms

-- Each log message is placed where the ones before it end.
abbrev pub Placed : ℕ → List Message → Type 0
Placed o [] = Unit
Placed o (log_message m ∷ ms) = (m.offset ≡ o) × Placed (o + length m.content) ms
Placed o (status_message m ∷ ms) = Placed o ms

-- Only the last message is marked as the final one, if one is to be.
abbrev pub Closed : Bool → List Message → Type 0
Closed is_final [] = Unit
Closed is_final (log_message m ∷ ms) = (m.is_final ≡ (is_final && is_empty ms)) × Closed is_final ms
Closed is_final (status_message m ∷ ms) = Closed is_final ms

abbrev pub IsAscii : Bytes → Type 0
IsAscii = All (λ b. b < 128)

take-drop : (n : ℕ) (xs : Bytes) → take n xs ++ drop n xs ≡ xs
take-drop zero xs = refl
take-drop (suc n) [] = refl
take-drop (suc n) (x ∷ xs) = ap (◌∷◌ x) (take-drop n xs)

length-drop : (n : ℕ) (xs : Bytes) → length (drop n xs) ≤ length xs
length-drop zero xs = omega arith
length-drop (suc n) [] = omega arith
length-drop (suc n) (x ∷ xs) = omega (arith, length-drop n xs)

length-take-full : (n : ℕ) (xs : Bytes) → (drop n xs ≡ []) ⊎ (length (take n xs) ≡ n)
length-take-full zero xs = inr refl
length-take-full (suc n) [] = inl refl
length-take-full (suc n) (x ∷ xs) = elim (length-take-full n xs) [
  | inl e ↦ inl e
  | inr e ↦ inr (omega (arith, e))
]

take-IsAscii : (n : ℕ) (xs : Bytes) → IsAscii xs → IsAscii (take n xs)
take-IsAscii zero xs a = tt
take-IsAscii (suc n) [] a = tt
take-IsAscii (suc n) (x ∷ xs) a = (a.0, take-IsAscii n xs a.1)

drop-IsAscii : (n : ℕ) (xs : Bytes) → IsAscii xs → IsAscii (drop n xs)
drop-IsAscii zero xs a = a
drop-IsAscii (suc n) [] a = tt
drop-IsAscii (suc n) (x ∷ xs) a = drop-IsAscii n xs a.1

ascii_is_utf8 : (xs : Bytes) → IsAscii xs → is_utf8 xs ≡ true
unfolding is_utf8_from
ascii_is_utf8 [] a = refl
ascii_is_utf8 (x ∷ xs) a = ground (arith, ascii_is_utf8 xs)

length-drop-lt : (n x : ℕ) (xs : Bytes) → 0 < n → length (drop n (x ∷ xs)) ≤ length xs
length-drop-lt zero x xs h = absurd (omega arith)
length-drop-lt (suc n) x xs h = length-drop n xs

pub chunks-nil : (fuel size : ℕ) → chunks fuel size [] ≡ []
unfolding chunks
chunks-nil zero size = refl
chunks-nil (suc fuel) size = refl

next_offset : (offset i size : ℕ) → offset + i * size + size ≡ offset + (i + 1) * size
next_offset offset i size = omega arith

-- The messages of the loop over the chunks.
abbrev pub chunk_messages :
    BuildTaskMessage → BuildStep → LogLevel → ℕ → ℕ → Bool → ℕ → List Bytes → List Message
chunk_messages task step level size offset is_final i [] = []
chunk_messages task step level size offset is_final i (c ∷ cs) =
    log_chunk task step (text_or_empty c) level (offset + i * size) (is_final && is_empty cs)
    ∷ chunk_messages task step level size offset is_final (i + 1) cs

is_empty-chunk_messages :
    (task : BuildTaskMessage) (step : BuildStep) (level : LogLevel) (size offset : ℕ)
    (is_final : Bool) (i : ℕ) (cs : List Bytes)
    → is_empty (chunk_messages task step level size offset is_final i cs) ≡ is_empty cs
is_empty-chunk_messages task step level size offset is_final i [] = refl
is_empty-chunk_messages task step level size offset is_final i (c ∷ cs) = refl

module _ (env : Env) (delivered : (n : ℕ) (m : Message) → env.delivers n m ≡ true)
    (task : BuildTaskMessage) (step : BuildStep) (level : LogLevel) (size offset : ℕ)
    (is_final : Bool) where
  pub publish_chunks_value :
      (i : ℕ) (cs : List Bytes) (s : Store)
      → publish_chunks env task step level size offset is_final i cs s ≡ (
        record s { sent = s.sent ++ chunk_messages task step level size offset is_final i cs },
        ok tt,
      )
  unfolding publish_chunks
  publish_chunks_value i [] s = rw (append-nil s.sent) refl
  publish_chunks_value i (c ∷ cs) s =
      rw
        (delivered (length s.sent) (
          log_chunk task step (text_or_empty c) level (offset + i * size)
            (is_final && is_empty cs)))
        (publish_chunks_value (i + 1) cs _ ∙ rw (append_assoc s.sent) refl)

  chunk_messages_lem :
      (fuel : ℕ) (xs : Bytes) (i : ℕ)
      → 0 < size
      → length xs ≤ fuel
      → IsAscii xs
      → let ms = chunk_messages task step level size offset is_final i (chunks fuel size xs) in
        (contents ms ≡ xs) × Placed (offset + i * size) ms × Closed is_final ms
  unfolding chunks
  chunk_messages_lem zero [] i some_size enough ascii = (refl, tt, tt)
  chunk_messages_lem zero (x ∷ xs) i some_size enough ascii = absurd (omega arith)
  chunk_messages_lem (suc fuel) [] i some_size enough ascii = (refl, tt, tt)
  chunk_messages_lem (suc fuel) (x ∷ xs) i some_size enough ascii =
      let later = drop size (x ∷ xs) in
      let cs = chunks fuel size later in
      let (joined, placed, closed) =
        chunk_messages_lem fuel later (i + 1) some_size
          (omega (arith, length-drop-lt size x xs some_size)) (drop-IsAscii size (x ∷ xs) ascii) in
      let whole : text_or_empty (take size (x ∷ xs)) ≡ take size (x ∷ xs) =
        rw (ascii_is_utf8 (take size (x ∷ xs)) (take-IsAscii size (x ∷ xs) ascii)) refl in
      let rest = chunk_messages task step level size offset is_final (i + 1) cs in
      let next : Placed (offset + i * size + length (take size (x ∷ xs))) rest =
        elim (length-take-full size (x ∷ xs)) [
          | inl e ↦ rw (e, chunks-nil fuel size) tt
          | inr e ↦ rw (e, next_offset offset i size) placed
        ] in
      (
        rw (whole, joined) (take-drop size (x ∷ xs)),
        rw whole (refl, next),
        (rw (is_empty-chunk_messages task step level size offset is_final (i + 1) cs) refl, closed),
      )

-- An ASCII log, cut into chunks of any positive size and delivered, is what the messages carry one
-- after the other; each message is placed where the ones before it end, and only the last is marked
-- as final, if the caller marks the log so.
pub publish_log_roundtrip :
    (env : Env) (delivered : (n : ℕ) (m : Message) → env.delivers n m ≡ true)
    (task : BuildTaskMessage) (step : BuildStep) (level : LogLevel) (size offset : ℕ)
    (is_final : Bool) (content : Bytes) (s : Store)
    → 0 < size
    → IsAscii content
    → (ms : List Message) × (publish_log_by size env task step content level offset is_final s
        ≡ (record s { sent = s.sent ++ ms }, ok tt))
      × (contents ms ≡ content)
      × Placed offset ms
      × Closed is_final ms
unfolding publish_log_by
publish_log_roundtrip env delivered task step level size offset is_final content s some_size ascii =
    elim (Bool-cases (leb (length content) size)) [
      | inl short ↦ (
        log_chunk task step content level offset is_final ∷ [],
        rw (short, delivered (length s.sent) (log_chunk task step content level offset is_final))
            refl,
        append-nil content,
        (refl, tt),
        (ground arith, tt),
      )
      | inr long ↦
          let cs = chunks (length content) size content in
          let (joined, placed, closed) =
            chunk_messages_lem env delivered task step level size offset is_final (length content)
              content 0 some_size (omega arith) ascii in
          (
            chunk_messages task step level size offset is_final 0 cs,
            rw long
                (publish_chunks_value env delivered task step level size offset is_final 0 cs s),
            joined,
            subst (λ o. Placed o (chunk_messages task step level size offset is_final 0 cs))
                (omega arith) placed,
            closed,
          )
    ]
