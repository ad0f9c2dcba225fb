-- ===== src/Client/Answered.antt =====
-- After a call that returned, the client's socket awaits no answer.
use powerhoc.Common.{
  ℕ, zero, suc, Bool, true, false, Option, none, some, Bytes, ◌≡◌, refl, Bool-cases, inl, inr,
}
use powerhoc.Exc.{Result, ok, err}
use powerhoc.Job.{serialize}
use powerhoc.Retry.{Attempt, done, failed, Socket, is_retryable, send, recv}
use powerhoc.Retry.Laws.{retry_done, retry_again, retry_raise}
use powerhoc.Client.Recovery.{IsReq}
use powerhoc.Client.{Client, JobArg, as_job, or_max, receive, after_poll, execute_once, execute}
use powerhoc.Text.Decimal.{ℤ}

module _ {S : Type 0} (socket : Socket S) (awaited : S → Bool) (req : IsReq socket awaited) where
  recv_step :
      (n : ℕ) (s : S) (a : Attempt Bytes) (msg : Bytes)
      → (socket.recv_noblock s).0 ≡ a
      → ((s' : S) (m : Bytes) → (recv socket n s').0 ≡ ok m → awaited (recv socket n s').1 ≡ false)
      → (recv socket (suc n) s).0 ≡ ok msg
      → awaited (recv socket (suc n) s).1 ≡ false
  unfolding recv
  recv_step n s (done m) msg q ih h =
      rw (retry_done socket.recv_noblock socket.sleep n s q) (req.recv_answers s m q)
  recv_step n s (failed e) msg q ih h = elim (Bool-cases (is_retryable e)) [
    | inl k ↦
        let again = retry_again socket.recv_noblock socket.sleep n s q k in
        rw again (ih _ msg (rw again at h))
    | inr k ↦ cc (rw (retry_raise socket.recv_noblock socket.sleep n s q k) at h)
  ]

  recv_answered :
      (n : ℕ) (s : S) (msg : Bytes)
      → (recv socket n s).0 ≡ ok msg
      → awaited (recv socket n s).1 ≡ false
  unfolding recv
  recv_answered zero s msg h = cc
  recv_answered (suc n) s msg h = recv_step n s _ msg refl (recv_answered n) h

  receive_answered :
      (n fuel : ℕ) (s : S) (r : Result Bytes) {x : ℤ × Bool × Bytes}
      → (recv socket n s).0 ≡ r
      → (receive socket n fuel s).0 ≡ some (ok x)
      → awaited (receive socket n fuel s).1 ≡ false
  unfolding receive
  receive_answered n fuel s (ok wire) q h = rw (q, receive) (recv_answered n s wire q)
  receive_answered n fuel s (err e) q h = cc (rw (q, receive) at h)

  poll_answered :
      (n fuel : ℕ) (p : Option (Attempt Bool)) (s : S) {x : ℤ × Bool × Bytes}
      → (after_poll socket n fuel p s).0 ≡ some (ok x)
      → awaited (after_poll socket n fuel p s).1 ≡ false
  unfolding after_poll
  poll_answered n fuel none s h = cc
  poll_answered n fuel (some (failed e)) s h = cc
  poll_answered n fuel (some (done false)) s h = cc
  poll_answered n fuel (some (done true)) s h = receive_answered n fuel s _ refl h

  once_answered :
      (n fuel : ℕ) (c : Client) (arg : JobArg) (t : Option ℕ) (s : S) (r : Result (Unit {0}))
      {x : ℤ × Bool × Bytes}
      → (send socket n (serialize (as_job arg)) false s).0 ≡ r
      → (execute_once socket n fuel c arg t s).0 ≡ some (ok x)
      → awaited (execute_once socket n fuel c arg t s).1 ≡ false
  unfolding execute_once
  once_answered n fuel c arg t s (ok u) q h =
      rw (q, execute_once) (poll_answered n fuel _ _ (rw (q, execute_once) at h))
  once_answered n fuel c arg t s (err e) q h = cc (rw (q, execute_once) at h)

  execute_step :
      (n fuel : ℕ) (c : Client) (arg : JobArg) (t : Option ℕ) (s : S)
      (a : Option (Result (ℤ × Bool × Bytes))) {text : Bytes}
      → (execute_once socket n fuel c arg (some (or_max c t)) s).0 ≡ a
      → (execute socket n fuel c arg t s).0 ≡ some (ok text)
      → awaited (execute socket n fuel c arg t s).2 ≡ false
  unfolding execute
  execute_step n fuel c arg t s none q h = cc (rw (q, execute) at h)
  execute_step n fuel c arg t s (some (err e)) q h = cc (rw (q, execute) at h)
  execute_step n fuel c arg t s (some (ok (pid, res, text))) q h =
      rw (q, execute) (once_answered n fuel c arg (some (or_max c t)) s _ refl q)

  -- A client whose call returned can send again.
  pub execute_answered :
      (n fuel : ℕ) (c : Client) (arg : JobArg) (t : Option ℕ) (s : S) {text : Bytes}
      → (execute socket n fuel c arg t s).0 ≡ some (ok text)
      → awaited (execute socket n fuel c arg t s).2 ≡ false
  execute_answered n fuel c arg t s h = execute_step n fuel c arg t s _ refl h
