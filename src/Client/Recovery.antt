-- ===== src/Client/Recovery.antt =====
-- What a `Client` can still do after a call that timed out. ZeroMQ documents that a REQ socket
-- alternates: after a send it refuses a further one (`EFSM`) until the answer was received.
use powerhoc.Common.{
  ℕ, zero, suc, Bool, true, false, List, [], ◌∷◌, Option, some, Bytes, All, ◌≡◌, ◌∙◌, ap, refl,
  Bool-cases, inl, inr,
}
use powerhoc.Exc.{Exn, efsm, eintr, Result, ok, err, timeout_error}
use powerhoc.Job.{serialize}
use powerhoc.Retry.{Attempt, done, failed, Socket, is_retryable, retry, send, poll_loop}
use powerhoc.Retry.Laws.{retry_done, retry_again, retry_raise}
use powerhoc.Client.{Client, JobArg, as_job, or_max, after_poll, execute_once, execute}

-- The documented behaviour, for a state in which an answer is `awaited`.
pub record IsReq {S : Type 0} (socket : Socket S) (awaited : S → Bool) : Type 0 where
  pub send_refused :
      (msg : Bytes) (more : Bool) (s : S)
      → awaited s ≡ true
      → (socket.send_noblock msg more s).0 ≡ failed efsm
  pub send_refused_keeps :
      (msg : Bytes) (more : Bool) (s : S)
      → awaited s ≡ true
      → awaited (socket.send_noblock msg more s).1 ≡ true
  pub send_awaits :
      (msg : Bytes) (more : Bool) (s : S)
      → (socket.send_noblock msg more s).0 ≡ done tt
      → awaited (socket.send_noblock msg more s).1 ≡ true
  pub recv_answers :
      (s : S) (msg : Bytes)
      → (socket.recv_noblock s).0 ≡ done msg
      → awaited (socket.recv_noblock s).1 ≡ false
  pub poll_keeps : (t : ℕ) (s : S) → awaited (socket.poll t s).1 ≡ awaited s
  pub sleep_keeps : (s : S) → awaited (socket.sleep s) ≡ awaited s

module _ {S : Type 0} (socket : Socket S) (n fuel : ℕ) (c : Client) (arg : JobArg) (s : S) where
  once_unsent :
      (t : Option ℕ) {e : Exn}
      → (send socket n (serialize (as_job arg)) false s).0 ≡ err e
      → execute_once socket n fuel c arg t s
        ≡ (some (err e), (send socket n (serialize (as_job arg)) false s).1)
  unfolding execute_once
  once_unsent t h = rw (h, execute_once)

  once_sent :
      (t : Option ℕ)
      → (send socket n (serialize (as_job arg)) false s).0 ≡ ok tt
      → execute_once socket n fuel c arg t s ≡ (
          let (p, s') =
            poll_loop socket fuel (or_max c t) (send socket n (serialize (as_job arg)) false s).1 in
          after_poll socket n fuel p s')
  unfolding execute_once
  once_sent t h = rw (h, execute_once)

  execute_raises :
      (t : Option ℕ) {e : Exn} (s' : S)
      → execute_once socket n fuel c arg (some (or_max c t)) s ≡ (some (err e), s')
      → execute socket n fuel c arg t s ≡ (some (err e), c, s')
  unfolding execute
  execute_raises t {e} s' h =
      rw (h, execute) (ap (λ (q : S). (some (err e), c, q)) (ap (λ p. p.1) h))

module _ {S : Type 0} (socket : Socket S) (awaited : S → Bool) (req : IsReq socket awaited) where
  send_stuck :
      (n : ℕ) (msg : Bytes) (s : S)
      → awaited s ≡ true
      → ((send socket n msg false s).0 ≡ err timeout_error)
        × (awaited (send socket n msg false s).1 ≡ true)
  unfolding send
  send_stuck zero msg s h = (refl, h)
  send_stuck (suc n) msg s h =
      rw (req.send_refused msg false s h, retry)
        (send_stuck n msg _ (req.sleep_keeps _ ∙ req.send_refused_keeps msg false s h))

  -- While the answer to an earlier call is awaited, `execute` raises `TimeoutError` and changes
  -- neither the counters nor what is awaited.
  execute_stuck :
      (n fuel : ℕ) (c : Client) (arg : JobArg) (t : Option ℕ) (s : S)
      → awaited s ≡ true
      → (s' : S) × (execute socket n fuel c arg t s ≡ (some (err timeout_error), c, s'))
        × (awaited s' ≡ true)
  execute_stuck n fuel c arg t s h =
      let (e, k) = send_stuck n (serialize (as_job arg)) s h in
      (
        (send socket n (serialize (as_job arg)) false s).1,
        execute_raises socket n fuel c arg s t _ (once_unsent socket n fuel c arg s _ e),
        k,
      )

  send_awaits_step :
      (n : ℕ) (msg : Bytes) (s : S) (a : Attempt (Unit {0}))
      → (socket.send_noblock msg false s).0 ≡ a
      → ((s' : S)
          → (send socket n msg false s').0 ≡ ok tt
          → awaited (send socket n msg false s').1 ≡ true)
      → (send socket (suc n) msg false s).0 ≡ ok tt
      → awaited (send socket (suc n) msg false s).1 ≡ true
  unfolding send
  send_awaits_step n msg s (done u) q ih h =
      rw (retry_done (socket.send_noblock msg false) socket.sleep n s q)
        (req.send_awaits msg false s q)
  send_awaits_step n msg s (failed e) q ih h = elim (Bool-cases (is_retryable e)) [
    | inl k ↦
        let again = retry_again (socket.send_noblock msg false) socket.sleep n s q k in
        rw again (ih _ (rw again at h))
    | inr k ↦ cc (rw (retry_raise (socket.send_noblock msg false) socket.sleep n s q k) at h)
  ]

  -- A message that was sent leaves an answer to wait for.
  send_awaits_all :
      (n : ℕ) (msg : Bytes) (s : S)
      → (send socket n msg false s).0 ≡ ok tt
      → awaited (send socket n msg false s).1 ≡ true
  unfolding send
  send_awaits_all zero msg s h = cc
  send_awaits_all (suc n) msg s h = send_awaits_step n msg s _ refl (send_awaits_all n msg) h

  poll_step :
      (fuel t : ℕ) (s : S) (a : Attempt Bool)
      → (socket.poll t s).0 ≡ a
      → awaited (poll_loop socket fuel t (socket.poll t s).1).1 ≡ awaited (socket.poll t s).1
      → awaited (poll_loop socket (suc fuel) t s).1 ≡ awaited s
  unfolding poll_loop
  poll_step fuel t s (failed eintr) q ih = rw (q, poll_loop) (ih ∙ req.poll_keeps t s)
  poll_step fuel t s _ q ih = rw (q, poll_loop) (req.poll_keeps t s)

  poll_loop_keeps : (fuel t : ℕ) (s : S) → awaited (poll_loop socket fuel t s).1 ≡ awaited s
  poll_loop_keeps zero t s = unfold poll_loop in refl
  poll_loop_keeps (suc fuel) t s =
      poll_step fuel t s _ refl (poll_loop_keeps fuel t (socket.poll t s).1)

-- The results of one call after the other on the same client.
unfoldable pub results :
    {S : Type 0}
    → Socket S
    → ℕ
    → ℕ
    → Client
    → List (JobArg × Option ℕ)
    → S
    → List (Option (Result Bytes))
unfolding execute
results socket n fuel c [] s = []
results socket n fuel c ((arg, t) ∷ calls) s =
    let (r, c', s') = execute socket n fuel c arg t s in r ∷ results socket n fuel c' calls s'

results-cons :
    {S : Type 0} (socket : Socket S) (n fuel : ℕ) (c : Client) (arg : JobArg) (t : Option ℕ)
    (calls : List (JobArg × Option ℕ)) (s : S) {r : Option (Result Bytes)} {c' : Client} {s' : S}
    → execute socket n fuel c arg t s ≡ (r, c', s')
    → results socket n fuel c ((arg, t) ∷ calls) s ≡ r ∷ results socket n fuel c' calls s'
unfolding results
results-cons socket n fuel c arg t calls s h = rw h

module _ {S : Type 0} (socket : Socket S) (awaited : S → Bool) (req : IsReq socket awaited) where
  results_stuck :
      (n fuel : ℕ) (c : Client) (calls : List (JobArg × Option ℕ)) (s : S)
      → awaited s ≡ true
      → All (λ r. r ≡ some (err timeout_error)) (results socket n fuel c calls s)
  results_stuck n fuel c [] s h = unfold results in tt
  results_stuck n fuel c ((arg, t) ∷ calls) s h =
      let (s', e, k) = execute_stuck socket awaited req n fuel c arg t s h in
      rw (results-cons socket n fuel c arg t calls s e) (refl, results_stuck n fuel c calls s' k)

  -- On a REQ socket, a call whose job was sent and whose poll found no answer in time raises
  -- `TimeoutError`, and so does every later call on the same client, also after the late answer has
  -- come.
  pub no_recovery :
      (n fuel : ℕ) (c : Client) (arg : JobArg) (t : Option ℕ) (calls : List (JobArg × Option ℕ))
      (s : S)
      → (let (sent, s') = send socket n (serialize (as_job arg)) false s in
          (sent ≡ ok tt) × ((poll_loop socket fuel (or_max c t) s').0 ≡ some (done false)))
      → All (λ r. r ≡ some (err timeout_error)) (results socket n fuel c ((arg, t) ∷ calls) s)
  no_recovery n fuel c arg t calls s (sent, late) =
      rw (results-cons socket n fuel c arg t calls s (late_raises sent late))
        (refl, results_stuck n fuel c calls _ (still_awaited sent))
    where
      late_raises :
          (send socket n (serialize (as_job arg)) false s).0 ≡ ok tt
          → (poll_loop socket fuel
              (or_max c t)
              (send socket n (serialize (as_job arg)) false s).1).0
            ≡ some (done false)
          → execute socket n fuel c arg t s ≡ (
            some (err timeout_error),
            c,
            (poll_loop socket fuel
                (or_max c t)
                (send socket n (serialize (as_job arg)) false s).1).1,
          )
      late_raises e l =
          execute_raises socket n fuel c arg s t _
            (once_sent socket n fuel c arg s _ e ∙ (unfold or_max after_poll in rw (l, after_poll)))

      still_awaited :
          (send socket n (serialize (as_job arg)) false s).0 ≡ ok tt
          → awaited
              (poll_loop socket fuel
                (or_max c t)
                (send socket n (serialize (as_job arg)) false s).1).1
            ≡ true
      still_awaited e =
          poll_loop_keeps socket awaited req fuel _ _ ∙ send_awaits_all socket awaited req n _ s e
