-- ===== src/Ssh/Loop.antt =====
-- The loop in which `SSHClient` of src/ops-service/src/ssh/executor.rs reads the output of a command.
use ops_service.Prelude.{
  ℕ, zero, suc, ◌+◌, ◌≤◌, ◌<◌, ◌≡◌, refl, ap, sym, ◌∙◌, subst, Bool, true, false, Option, none,
  some, [], ◌++◌, if◌then◌else◌, leb, ◌==◌, arith, inl, inr, Bool-cases,
}
use native.Mathlib.Nat.{add_assoc, zero-add}
use mathlib.Core.List.{append_assoc, append-nil}
use ops_service.Prelude.Int.{ℤ, pos, as_i32}
use ops_service.Prelude.Bytes.{Bytes}
use ops_service.Ssh.Client.{
  ChannelMsg, data_msg, extended_data, exit_status, eof, other, Arrival, Output, go_on, stop,
  receive, after_wait, follow, read_loop,
}

-- Messages after which the loop does not wait again, `none` being the end of the channel.
abbrev pub is_final : Option ChannelMsg → Bool
is_final none = true
is_final (some (exit_status n)) = true
is_final (some eof) = true
is_final (some (data_msg bytes)) = false
is_final (some (extended_data bytes ext)) = false
is_final (some other) = false

-- An arrival that ends the loop: it comes too late, or it is final.
abbrev pub IsLast : ℕ → Arrival → Type 0
IsLast limit a = (if leb a.gap limit then is_final a.message else true) ≡ true

abbrev pub Continues : ℕ → Arrival → Type 0
Continues limit a = (if leb a.gap limit then is_final a.message else true) ≡ false

-- What an arrival adds to the output.
abbrev pub stdout_part : Option ChannelMsg → Bytes
stdout_part (some (data_msg bytes)) = bytes
stdout_part _ = []

abbrev pub stderr_part : Option ChannelMsg → Bytes
stderr_part (some (extended_data bytes ext)) = if ext == 1 then bytes else []
stderr_part _ = []

-- Of so many arrivals from the i-th on.
unfoldable pub stdout_of : (ℕ → Arrival) → ℕ → ℕ → Bytes
stdout_of arrival i zero = []
stdout_of arrival i (suc k) = stdout_part (arrival i).message ++ stdout_of arrival (suc i) k

unfoldable pub stderr_of : (ℕ → Arrival) → ℕ → ℕ → Bytes
stderr_of arrival i zero = []
stderr_of arrival i (suc k) = stderr_part (arrival i).message ++ stderr_of arrival (suc i) k

unfoldable pub time_of : (ℕ → Arrival) → ℕ → ℕ → ℕ
time_of arrival i zero = 0
time_of arrival i (suc k) = (arrival i).gap + time_of arrival (suc i) k

-- The exit code that the last arrival gives, and the time until the loop ends.
abbrev pub status_part : Option ChannelMsg → ℤ
status_part (some (exit_status n)) = as_i32 n
status_part _ = pos 0

abbrev pub exit_code_at : ℕ → Arrival → ℤ
exit_code_at limit a = if leb a.gap limit then status_part a.message else pos 124

abbrev pub last_wait : ℕ → Arrival → ℕ
last_wait limit a = if leb a.gap limit then a.gap else limit

receive-final :
    (o : Output) (m : Option ChannelMsg)
    → is_final m ≡ true
    → o.exit_code ≡ pos 0
    → receive o m ≡ stop (record o { exit_code = status_part m })
receive-final o none h e = ap (λ c. stop (record o { exit_code = c })) e
receive-final o (some (exit_status n)) h e = refl
receive-final o (some eof) h e = ap (λ c. stop (record o { exit_code = c })) e
receive-final o (some (data_msg bytes)) h e = absurd cc
receive-final o (some (extended_data bytes ext)) h e = absurd cc
receive-final o (some other) h e = absurd cc

receive-more :
    (o : Output) (m : Option ChannelMsg)
    → is_final m ≡ false
    → receive o m
      ≡ go_on (record o { stdout = o.stdout ++ stdout_part m; stderr = o.stderr ++ stderr_part m })
receive-more o none h = absurd cc
receive-more o (some (exit_status n)) h = absurd cc
receive-more o (some eof) h = absurd cc
receive-more o (some (data_msg bytes)) h = simp append-nil
receive-more o (some (extended_data bytes ext)) h = elim (Bool-cases (ext == 1)) [
  | inl on ↦ simp (on, append-nil)
  | inr off ↦ simp (off, append-nil)
]
receive-more o (some other) h = simp append-nil

module _ (limit : ℕ) where
  pub after_wait-IsLast :
      (o : Output) (a : Arrival)
      → IsLast limit a
      → o.exit_code ≡ pos 0
      → after_wait limit o a
        ≡ stop
            (record o { exit_code = exit_code_at limit a; elapsed = o.elapsed + last_wait limit a })
  after_wait-IsLast o a h e = elim (Bool-cases (leb a.gap limit)) [
    | inl soon ↦ rw soon (
        receive-final (record o { elapsed = o.elapsed + a.gap }) a.message
          (subst (λ b. (if b then is_final a.message else true) ≡ true) soon h) e)
    | inr late ↦ rw late refl
  ]

  pub after_wait-Continues :
      (o : Output) (a : Arrival)
      → Continues limit a
      → after_wait limit o a
        ≡ go_on (record o {
          stdout = o.stdout ++ stdout_part a.message;
          stderr = o.stderr ++ stderr_part a.message;
          elapsed = o.elapsed + a.gap;
        })
  after_wait-Continues o a h = elim (Bool-cases (leb a.gap limit)) [
    | inl soon ↦ rw soon (
        receive-more (record o { elapsed = o.elapsed + a.gap }) a.message
          (subst (λ b. (if b then is_final a.message else true) ≡ false) soon h))
    | inr late ↦ absurd (
        let no_wait : true ≡ false =
          subst (λ b. (if b then is_final a.message else true) ≡ false) late h in
        cc)
  ]

  module _ (arrival : ℕ → Arrival) where
    -- What the loop has read when it ends at the n-th arrival, from the i-th on.
    abbrev pub ended : ℕ → ℕ → ℕ → Output → Output
    ended i k n o = record {
      stdout = o.stdout ++ stdout_of arrival i k;
      stderr = o.stderr ++ stderr_of arrival i k;
      exit_code = exit_code_at limit (arrival n);
      elapsed = o.elapsed + (time_of arrival i k + last_wait limit (arrival n));
    }

    ended-none :
        (i n : ℕ) (o : Output)
        → ended i 0 n o ≡ record o {
          exit_code = exit_code_at limit (arrival n);
          elapsed = o.elapsed + last_wait limit (arrival n);
        }
    unfolding stdout_of stderr_of time_of
    ended-none i n o = simp (append-nil, zero-add)

    ended-suc :
        (i k n : ℕ) (o : Output)
        → ended (suc i) k n (record o {
          stdout = o.stdout ++ stdout_part (arrival i).message;
          stderr = o.stderr ++ stderr_part (arrival i).message;
          elapsed = o.elapsed + (arrival i).gap;
        })
          ≡ ended i (suc k) n o
    unfolding stdout_of stderr_of time_of
    ended-suc i k n o = simp (append_assoc, add_assoc)

    -- The loop that ends at the n-th arrival, the first that ends it, has read the arrivals before.
    pub read_loop_from :
        (k i n fuel : ℕ) (o : Output)
        → i + k ≡ n
        → k < fuel
        → o.exit_code ≡ pos 0
        → ((j : ℕ) → i ≤ j → j < n → Continues limit (arrival j))
        → IsLast limit (arrival n)
        → read_loop fuel limit arrival i o ≡ some (ended i k n o)
    unfolding read_loop
    read_loop_from k i n zero o p h e more last = absurd (omega arith)
    read_loop_from zero i n (suc fuel) o p h e more last =
        let same : n ≡ i = omega (arith, p) in
        let here =
          after_wait-IsLast o (arrival i) (subst (λ m. IsLast limit (arrival m)) same last) e in
        ap (λ r. follow r (read_loop fuel limit arrival (suc i))) here
        ∙ ap some (sym (ended-none i i o) ∙ ap (λ m. ended i 0 m o) (sym same))
    read_loop_from (suc k) i n (suc fuel) o p h e more last =
        let here = after_wait-Continues o (arrival i) (more i (omega arith) (omega arith)) in
        ap (λ r. follow r (read_loop fuel limit arrival (suc i))) here
        ∙ read_loop_from k (suc i) n fuel _ (omega arith) (omega arith) e
            (λ j a b. more j (omega arith) b) last
        ∙ ap some (ended-suc i k n o)
