-- ===== src/Retry/Polls.antt =====
-- How the poll of a client ends, and how much fuel is enough.
use powerhoc.Common.{ℕ, zero, suc, ◌<◌, Bool, some, ◌≡◌, ◌≢◌, refl, ◌∙◌, arith}
use powerhoc.Exc.{efsm, eagain, eintr, eterm, other}
use powerhoc.Retry.{Attempt, done, failed, Socket, poll_loop}

module _ {S : Type 0} (socket : Socket S) (timeout : ℕ) where
  -- The state after so many polls.
  abbrev pub polled : ℕ → S → S
  polled zero s = s
  polled (suc i) s = polled i (socket.poll timeout s).1

  -- So many polls in a row are interrupted by a signal.
  abbrev pub Signals : ℕ → S → Type 0
  Signals zero s = Unit
  Signals (suc i) s =
      ((socket.poll timeout s).0 ≡ failed eintr) × Signals i (socket.poll timeout s).1

  poll_again :
      (fuel : ℕ) (s : S)
      → (socket.poll timeout s).0 ≡ failed eintr
      → poll_loop socket (suc fuel) timeout s
        ≡ poll_loop socket fuel timeout (socket.poll timeout s).1
  unfolding poll_loop
  poll_again fuel s h = rw (h, poll_loop)

  poll_last :
      (fuel : ℕ) (s : S) (r : Attempt Bool)
      → (socket.poll timeout s).0 ≡ r
      → r ≢ failed eintr
      → poll_loop socket (suc fuel) timeout s ≡ (some r, (socket.poll timeout s).1)
  unfolding poll_loop
  poll_last fuel s (done b) h k = rw (h, poll_loop)
  poll_last fuel s (failed efsm) h k = rw (h, poll_loop)
  poll_last fuel s (failed eagain) h k = rw (h, poll_loop)
  poll_last fuel s (failed eintr) h k = absurd (k refl)
  poll_last fuel s (failed eterm) h k = rw (h, poll_loop)
  poll_last fuel s (failed (other n)) h k = rw (h, poll_loop)

  -- Where a poll is not interrupted after `i` that are, any fuel above `i` gives its result, the
  -- answer or the error, and the state that it left.
  pub poll_loop-enough :
      (i fuel : ℕ) (s : S) (r : Attempt Bool)
      → i < fuel
      → Signals i s
      → (socket.poll timeout (polled i s)).0 ≡ r
      → r ≢ failed eintr
      → poll_loop socket fuel timeout s ≡ (some r, polled (suc i) s)
  poll_loop-enough i zero s r lt hs e d = absurd (omega arith)
  poll_loop-enough zero (suc fuel) s r lt hs e d = poll_last fuel s r e d
  poll_loop-enough (suc i) (suc fuel) s r lt (h, hs) e d =
      poll_again fuel s h ∙ poll_loop-enough i fuel (socket.poll timeout s).1 r (omega arith) hs e d
