-- ===== src/Retry/Laws.antt =====
-- How the retry loop ends.
use powerhoc.Common.{ℕ, zero, suc, ◌<◌, true, false, ◌≡◌, refl, arith, Bool-cases, inl, inr}
use powerhoc.Exc.{Errno, Result, ok, err, timeout_error, zmq_error}
use powerhoc.Retry.{Attempt, done, failed, is_retryable, retry}

module _ {S A : Type 0} (call : S → Attempt A × S) (sleep : S → S) where
  -- One round of the loop.
  pub retry_done :
      (n : ℕ) (s : S) {a : A}
      → (call s).0 ≡ done a
      → retry call sleep (suc n) s ≡ (ok a, (call s).1)
  unfolding retry
  retry_done n s h = rw (h, retry)

  pub retry_again :
      (n : ℕ) (s : S) {e : Errno}
      → (call s).0 ≡ failed e
      → is_retryable e ≡ true
      → retry call sleep (suc n) s ≡ retry call sleep n (sleep (call s).1)
  unfolding retry
  retry_again n s h k = rw (h, retry) (rw k)

  pub retry_raise :
      (n : ℕ) (s : S) {e : Errno}
      → (call s).0 ≡ failed e
      → is_retryable e ≡ false
      → retry call sleep (suc n) s ≡ (err (zmq_error e), (call s).1)
  unfolding retry
  retry_raise n s h k = rw (h, retry) (rw k)

  -- The state after so many failed calls, each with its sleep.
  abbrev pub after : ℕ → S → S
  after zero s = s
  after (suc i) s = after i (sleep (call s).1)

  -- So many calls in a row find the socket not ready.
  abbrev pub Blocked : ℕ → S → Type 0
  Blocked zero s = Unit
  Blocked (suc i) s =
      ((e : Errno) × ((call s).0 ≡ failed e) × (is_retryable e ≡ true))
      × Blocked i (sleep (call s).1)

  -- The ways in which the loop can end, with the result of each.
  pub data Ends (n : ℕ) (s : S) (r : Result A × S) : Type 0 where
    answered :
        (i : ℕ) (a : A)
        → i < n
        → Blocked i s
        → (call (after i s)).0 ≡ done a
        → r ≡ (ok a, (call (after i s)).1)
        → Ends n s r
    raised :
        (i : ℕ) (e : Errno)
        → i < n
        → Blocked i s
        → (call (after i s)).0 ≡ failed e
        → is_retryable e ≡ false
        → r ≡ (err (zmq_error e), (call (after i s)).1)
        → Ends n s r
    gave_up : Blocked n s → r ≡ (err timeout_error, after n s) → Ends n s r

  later :
      (n : ℕ) (s : S) (r : Result A × S) (e : Errno)
      → (call s).0 ≡ failed e
      → is_retryable e ≡ true
      → Ends n (sleep (call s).1) r
      → Ends (suc n) s r
  later n s r e h k (answered i a lt b d q) = answered (suc i) a (omega arith) ((e, h, k), b) d q
  later n s r e h k (raised i f lt b d x q) = raised (suc i) f (omega arith) ((e, h, k), b) d x q
  later n s r e h k (gave_up b q) = gave_up ((e, h, k), b) q

  retry_step :
      (n : ℕ) (s : S) (t : Attempt A)
      → (call s).0 ≡ t
      → Ends n (sleep (call s).1) (retry call sleep n (sleep (call s).1))
      → Ends (suc n) s (retry call sleep (suc n) s)
  retry_step n s (done a) h rest = answered 0 a (omega arith) tt h (retry_done n s h)
  retry_step n s (failed e) h rest = elim (Bool-cases (is_retryable e)) [
    | inl k ↦ rw (retry_again n s h k) (later n s _ e h k rest)
    | inr k ↦ raised 0 e (omega arith) tt h k (retry_raise n s h k)
  ]

  -- The loop makes at most `n` calls. It returns the first answer and raises the first error that
  -- is no "not ready", if all calls before that one found the socket not ready; it raises
  -- `TimeoutError` if all `n` calls did. Each "not ready" is followed by one sleep.
  pub retry-Ends : (n : ℕ) (s : S) → Ends n s (retry call sleep n s)
  retry-Ends zero s = gave_up tt (unfold retry in refl)
  retry-Ends (suc n) s = retry_step n s (call s).0 refl (retry-Ends n (sleep (call s).1))
