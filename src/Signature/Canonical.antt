-- ===== src/Signature/Canonical.antt =====
-- What a signed string of src/ops-service/src/middleware/webhook_hmac.rs says about its parts.
use ops_service.Prelude.{ℕ, ◌≡◌, ◌≢◌, [], ◌∷◌, arith}
use ops_service.Prelude.Bytes.{Bytes, Lacks, split_once}
use ops_service.Signature.{build_canonical_string, to_uppercase, newline, uppercase_byte}

abbrev pub NoNewline : Bytes → Type 0
NoNewline text = Lacks newline text

uppercase_byte-newline : (c : ℕ) → c ≢ newline → uppercase_byte c ≢ newline
uppercase_byte-newline c h = ground (arith)

to_uppercase-NoNewline : (text : Bytes) → NoNewline text → NoNewline (to_uppercase text)
unfolding to_uppercase
to_uppercase-NoNewline [] h = tt
to_uppercase-NoNewline (c ∷ cs) h = (uppercase_byte-newline c h.0, to_uppercase-NoNewline cs h.1)

-- A signed string determines what was signed: for methods, paths, timestamps, hashes and runners
-- without newlines, two equal strings are of the same method in upper case and of the same path,
-- timestamp, hash, runner and nonce, whatever the nonces contain.
pub build_canonical_string-injective :
    (method path timestamp hash runner nonce method' path' timestamp' hash' runner' nonce' : Bytes)
    → NoNewline method × NoNewline path × NoNewline timestamp × NoNewline hash × NoNewline runner
    → NoNewline method'
      × NoNewline path'
      × NoNewline timestamp'
      × NoNewline hash'
      × NoNewline runner'
    → build_canonical_string method path timestamp hash runner nonce
      ≡ build_canonical_string method' path' timestamp' hash' runner' nonce'
    → (to_uppercase method ≡ to_uppercase method')
      × (path ≡ path')
      × (timestamp ≡ timestamp')
      × (hash ≡ hash')
      × (runner ≡ runner')
      × (nonce ≡ nonce')
unfolding build_canonical_string
build_canonical_string-injective method path timestamp hash runner nonce method' path' timestamp'
      hash' runner' nonce' (m, p, t, b, r) (m', p', t', b', r') h =
    let (e0, h0) =
      split_once newline _ _ _ _ (to_uppercase-NoNewline method m)
        (to_uppercase-NoNewline method' m') h in
    let (e1, h1) = split_once newline path path' _ _ p p' h0 in
    let (e2, h2) = split_once newline timestamp timestamp' _ _ t t' h1 in
    let (e3, h3) = split_once newline hash hash' _ _ b b' h2 in
    let (e4, h4) = split_once newline runner runner' _ _ r r' h3 in (e0, e1, e2, e3, e4, h4)
