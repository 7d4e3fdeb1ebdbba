-- ===== src/Signature.antt =====
-- src/ops-service/src/middleware/webhook_hmac.rs: the signed strings of the messages that a runner
-- sends by HTTP, and the store of their nonces. SHA-256 and the hexadecimal form of bytes, which are
-- of other crates, are parameters. An `Instant` is a number of nanoseconds.
pub mod Middleware
pub mod Times
pub mod Handled
pub mod Canonical
pub mod Replay
pub mod Resent
mod Examples
use ops_service.Prelude.{
  ℕ, zero, suc, ◌+◌, ◌-◌, ◌*◌, ◌^◌, Bool, true, false, ◌&&◌, Option, none, some, List, [], ◌∷◌,
  ◌++◌, if◌then◌else◌, ltb, leb, ◌==◌, any, retain, length, map,
}
use Prim.Native.Nat.{bit_xor}
use ops_service.Prelude.Int.{ℤ, pos, negsuc, pos_part, neg_part}
use ops_service.Prelude.Bytes.{Bytes, bytes_eq}

pub record NonceEntry : Type 0 where
  pub nonce : Bytes
  pub recorded_at : ℕ

pub record NonceStore : Type 0 where
  pub entries : List NonceEntry
  pub ttl : ℕ

abbrev pub nanos : ℕ → ℕ
nanos secs = secs * 1_000_000_000

-- `NonceStore::new`
unfoldable pub new_store : ℕ → NonceStore
new_store ttl_secs = record { entries = []; ttl = nanos ttl_secs }

-- `now.duration_since(*v) < self.ttl`: a later instant is no time ago.
abbrev pub is_fresh : ℕ → ℕ → NonceEntry → Bool
is_fresh ttl now e = ltb (now - e.recorded_at) ttl

-- One round of `cleanup_nonce_store_loop`, and the first step of a check.
unfoldable pub drop_expired : ℕ → NonceStore → NonceStore
drop_expired now store = record store { entries = retain (is_fresh store.ttl now) store.entries }

abbrev pub contains_key : Bytes → List NonceEntry → Bool
contains_key nonce es = any (λ e. bytes_eq e.nonce nonce) es

-- `check_and_record` at an instant: `true` if the nonce was new.
unfoldable pub check_and_record : NonceStore → Bytes → ℕ → NonceStore × Bool
unfolding drop_expired
check_and_record store nonce now =
    let kept = drop_expired now store in
    if contains_key nonce kept.entries then (kept, false) else (
      record kept { entries = kept.entries ++ record { nonce = nonce; recorded_at = now } ∷ [] },
      true,
    )

-- `to_uppercase` of a method, which is ASCII.
abbrev pub uppercase_byte : ℕ → ℕ
uppercase_byte c = if leb 97 c && leb c 122 then c - 32 else c

unfoldable pub to_uppercase : Bytes → Bytes
to_uppercase text = map uppercase_byte text

abbrev pub newline : ℕ
newline = 10

unfoldable pub build_canonical_string : Bytes → Bytes → Bytes → Bytes → Bytes → Bytes → Bytes
build_canonical_string method path timestamp body_sha256 runner_id nonce =
    to_uppercase method
    ++ newline
      ∷ (path
          ++ newline
            ∷ (timestamp ++ newline ∷ (body_sha256 ++ newline ∷ (runner_id ++ newline ∷ nonce))))

abbrev pub block_size : ℕ
block_size = 64

-- `key_padded`: a key of at most so many bytes, and zeros.
abbrev pub zero_padded : ℕ → Bytes → Bytes
zero_padded zero key = []
zero_padded (suc n) [] = 0 ∷ zero_padded n []
zero_padded (suc n) (k ∷ ks) = k ∷ zero_padded n ks

module _ (sha256 : Bytes → Bytes) where
  abbrev pub key_material : Bytes → Bytes
  key_material key = if ltb block_size (length key) then sha256 key else key

  -- The hash of 32 bytes fits in a block.
  unfoldable pub compute_hmac_sha256 : Bytes → Bytes → Bytes
  compute_hmac_sha256 key message =
      let key_padded = zero_padded block_size (key_material key) in
      let inner_key = map (λ b. bit_xor b 0x36) key_padded in
      let outer_key = map (λ b. bit_xor b 0x5c) key_padded in
      sha256 (outer_key ++ sha256 (inner_key ++ message))

-- `str::parse::<i64>`: a sign or none, at least one digit, and a value in the range.
abbrev pub digit_of : ℕ → Option ℕ
digit_of c = if leb 48 c && leb c 57 then some (c - 48) else none

unfoldable pub read_digits : Bytes → ℕ → Option ℕ
read_digits [] n = some n
read_digits (c ∷ cs) n = elim (digit_of c) [ none ↦ none | some d ↦ read_digits cs (n * 10 + d) ]

unfoldable pub read_number : Bytes → Option ℕ
unfolding read_digits
read_number [] = none
read_number (c ∷ cs) = read_digits (c ∷ cs) 0

abbrev pub i64_limit : ℕ
i64_limit = 2 ^ 63

abbrev pub positive_i64 : Option ℕ → Option ℤ
positive_i64 none = none
positive_i64 (some n) = if ltb n i64_limit then some (pos n) else none

abbrev pub negated : ℕ → ℤ
negated zero = pos 0
negated (suc n) = negsuc n

abbrev pub negative_i64 : Option ℕ → Option ℤ
negative_i64 none = none
negative_i64 (some n) = if leb n i64_limit then some (negated n) else none

unfoldable pub parse_i64 : Bytes → Option ℤ
unfolding read_number
parse_i64 [] = none
parse_i64 (c ∷ cs) =
    if c == 45
    then negative_i64 (read_number cs)
    else if c == 43
    then positive_i64 (read_number cs)
    else positive_i64 (read_number (c ∷ cs))

-- `(now - timestamp).abs() as u64` on `i64`, whose arithmetic wraps in a release: a difference out
-- of the range is off by 2 ^ 64.
unfoldable pub skew_of : ℤ → ℤ → ℕ
skew_of now timestamp =
    let a = pos_part now + neg_part timestamp in
    let b = pos_part timestamp + neg_part now in
    if leb b a
    then (if ltb (a - b) i64_limit then a - b else 2 ^ 64 - (a - b))
    else (if leb (b - a) i64_limit then b - a else 2 ^ 64 - (b - a))
