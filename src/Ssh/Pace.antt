-- ===== src/Ssh/Pace.antt =====
-- How often the callback of `execute_with_progress` in src/ops-service/src/ssh/executor.rs is called.
use ops_service.Prelude.{
  ℕ, zero, suc, ◌+◌, ◌*◌, ◌≤◌, ◌≡◌, subst, Bool, true, false, Option, none, some, [], ◌∷◌, leb,
  count, arith, inl, inr, Bool-cases,
}
use ops_service.Prelude.Keys.{count-append}
use ops_service.Ssh.Client.{
  ChannelMsg, data_msg, extended_data, exit_status, eof, other, Arrival, Server, Sent, login,
  command, output, Trace, Output, Round, go_on, stop, receive, after_wait, empty_output,
}
use ops_service.Ssh.Progress.{report, follow_with, progress_loop}

abbrev pub is_piece : Sent → Bool
is_piece (output text is_complete) = true
is_piece (login name auth) = false
is_piece (command text) = false

module _ (server : Server) (has_callback : Bool) where
  -- The time since the last callback pays for the next one.
  report-paid :
      (message : Option ChannelMsg) (o : Output) (last : ℕ) (s : Trace)
      → last ≤ o.elapsed
      → let (s', last') = report server has_callback message o last s in
        (last' ≤ o.elapsed) × (count is_piece s' * 500 + last ≤ count is_piece s * 500 + last')
  unfolding report
  report-paid none o last s h = (h, omega arith)
  report-paid (some (extended_data bytes ext)) o last s h = (h, omega arith)
  report-paid (some (exit_status n)) o last s h = (h, omega arith)
  report-paid (some eof) o last s h = (h, omega arith)
  report-paid (some other) o last s h = (h, omega arith)
  report-paid (some (data_msg bytes)) o last s h =
      let piece = output (server.from_utf8_lossy o.stdout) false in
      let more = count-append is_piece s (piece ∷ []) in ground (arith, more)

  abbrev Later : Output → Round → Type 0
  Later o (go_on next) = o.elapsed ≤ next.elapsed
  Later o (stop end) = o.elapsed ≤ end.elapsed

  receive-Later : (o : Output) (m : Option ChannelMsg) → Later o (receive o m)
  receive-Later o none = omega arith
  receive-Later o (some (data_msg bytes)) = omega arith
  receive-Later o (some (extended_data bytes ext)) = ground arith
  receive-Later o (some (exit_status n)) = omega arith
  receive-Later o (some eof) = omega arith
  receive-Later o (some other) = omega arith

  earlier :
      (t : ℕ) (o : Output) (r : Round) → Later (record o { elapsed = o.elapsed + t }) r → Later o r
  earlier t o (go_on next) h = omega (arith, h)
  earlier t o (stop end) h = omega (arith, h)

  after_wait-Later : (limit : ℕ) (o : Output) (a : Arrival) → Later o (after_wait limit o a)
  after_wait-Later limit o a = elim (Bool-cases (leb a.gap limit)) [
    | inl soon ↦
        rw soon
          (earlier a.gap o _ (receive-Later (record o { elapsed = o.elapsed + a.gap }) a.message))
    | inr late ↦ rw late (omega arith)
  ]

  -- The pieces handed over until the loop ends are paid for by its time.
  abbrev pub IsPaid : ℕ → Trace → Trace × Option Output → Type 0
  IsPaid last s (s', none) = Unit
  IsPaid last s (s', some end) =
      count is_piece s' * 500 + last ≤ count is_piece s * 500 + end.elapsed

  IsPaid-chain :
      (last last' : ℕ) (s s' : Trace) (p : Trace × Option Output)
      → count is_piece s' * 500 + last ≤ count is_piece s * 500 + last'
      → IsPaid last' s' p
      → IsPaid last s p
  IsPaid-chain last last' s s' (t, none) h g = tt
  IsPaid-chain last last' s s' (t, some end) h g = omega (arith, h, g)

  follow_with-IsPaid :
      (message : Option ChannelMsg) (o : Output) (r : Round) (last : ℕ) (s : Trace)
      (rest : Output → ℕ → Trace → Trace × Option Output)
      → last ≤ o.elapsed
      → Later o r
      → ((o : Output) (l : ℕ) (t : Trace) → l ≤ o.elapsed → IsPaid l t (rest o l t))
      → IsPaid last s (follow_with server has_callback message r last s rest)
  follow_with-IsPaid message o (go_on next) last s rest h later go =
      let (s', last') = report server has_callback message next last s in
      let (fits, paid) = report-paid message next last s (omega (arith, h, later)) in
      IsPaid-chain last last' s s' (rest next last' s') paid (go next last' s' fits)
  follow_with-IsPaid message o (stop end) last s rest h later go = omega (arith, h, later)

  progress_loop-IsPaid :
      (fuel limit : ℕ) (arrival : ℕ → Arrival) (n : ℕ) (o : Output) (last : ℕ) (s : Trace)
      → last ≤ o.elapsed
      → IsPaid last s (progress_loop server has_callback fuel limit arrival n o last s)
  unfolding progress_loop
  progress_loop-IsPaid zero limit arrival n o last s h = tt
  progress_loop-IsPaid (suc fuel) limit arrival n o last s h =
      follow_with-IsPaid (arrival n).message o (after_wait limit o (arrival n)) last s _ h
        (after_wait-Later limit o (arrival n)) (progress_loop-IsPaid fuel limit arrival (suc n))

-- Callbacks with partial output are at least half a second apart: once the loop has ended, there were at
-- most as many as the half seconds that it took.
pub callbacks_paced :
    (server : Server) (has_callback : Bool) (fuel limit : ℕ) (arrival : ℕ → Arrival) (s s' : Trace)
    (end : Output)
    → progress_loop server has_callback fuel limit arrival 0 empty_output 0 s ≡ (s', some end)
    → count is_piece s' * 500 ≤ count is_piece s * 500 + end.elapsed
callbacks_paced server has_callback fuel limit arrival s s' end h =
    let paid = subst (IsPaid server has_callback 0 s) h (
      progress_loop-IsPaid server has_callback fuel limit arrival 0 empty_output 0 s
        (omega arith)) in
    omega (arith, paid)
