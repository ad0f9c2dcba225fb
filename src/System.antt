-- ===== src/System.antt =====
-- A job's way from a client through a worker and back.
pub mod Pings
pub mod Pulse
use powerhoc.Common.{
  ℕ, ◌-◌, ◌≤◌, Bool, true, false, [], ◌∷◌, Option, some, Bytes, ◌≡◌, refl, ◌∙◌, ap, arith,
}
use powerhoc.Client.{
  Client, JobArg, as_job, or_max, receive, execute_once, execute, settle, checked,
}
use powerhoc.Exc.{Result, ok, err, execution_error}
use powerhoc.Job.{Job, serialize}
use powerhoc.Job.RoundTrip.{IsWireSafe, load-serialize}
use powerhoc.Reply.{reply, extract_result-reply}
use powerhoc.Retry.{done, Socket, send, recv, poll_loop}
use powerhoc.Text.Decimal.{ℤ, pos}
use powerhoc.Worker.{Host, run_target}
use powerhoc.Worker.Replies.{answer}

-- What the target's outcome is to the caller of `execute`.
abbrev pub outcome : Host → Result Bytes → Result Bytes
outcome host (ok text) = ok text
outcome host (err e) = err (execution_error (host.report e))

abbrev pub succeeded : Result Bytes → Bool
succeeded (ok text) = true
succeeded (err e) = false

abbrev pub told : Host → Result Bytes → Bytes
told host (ok text) = text
told host (err e) = host.report e

checked-told :
    (host : Host) (r : Result Bytes) → checked (succeeded r) (told host r) ≡ outcome host r
checked-told host (ok text) = refl
checked-told host (err e) = refl

-- The worker runs its target on the very job that was serialized.
run_target-serialize :
    (host : Host) (job : Job)
    → IsWireSafe job
    → run_target host (serialize job ∷ []) ≡ host.target job
unfolding run_target
run_target-serialize host job safe = rw (load-serialize job safe)

pub answer-serialize :
    (host : Host) (pid : ℕ) (job : Job)
    → IsWireSafe job
    → answer host pid (serialize job ∷ [])
      ≡ reply pid (succeeded (host.target job)) (told host (host.target job))
unfolding answer
answer-serialize host pid job safe = go (host.target job) refl
  where
    go :
        (r : Result Bytes)
        → host.target job ≡ r
        → answer host pid (serialize job ∷ [])
          ≡ reply pid (succeeded (host.target job)) (told host (host.target job))
    go (ok text) e = rw (run_target-serialize host job safe ∙ e, answer) (rw e refl)
    go (err x) e = rw (run_target-serialize host job safe ∙ e, answer) (rw e refl)

-- The network carries the call that starts in `s`: the socket takes the job, an answer can be read
-- in time, and it is the one of a worker to that job. The state is `s'` when it was read.
pub record Carries {S : Type 0} (socket : Socket S) (host : Host) (n fuel pid : ℕ) (c : Client)
    (arg : JobArg) (t : Option ℕ) (s s' : S) : Type 0 where
  pub taken : S
  pub polled : S
  pub sends : send socket n (serialize (as_job arg)) false s ≡ (ok tt, taken)
  pub polls : poll_loop socket fuel (or_max c t) taken ≡ (some (done true), polled)
  pub receives : recv socket n polled ≡ (ok (answer host pid (serialize (as_job arg) ∷ [])), s')

in_time :
    (c : Client) (duration : ℕ) (pid : ℤ) (res : Bool) (text : Bytes)
    → duration ≤ c.timeout
    → (settle c duration pid res text).0 ≡ checked res text
unfolding settle
in_time c duration pid res text h = ground arith

module _ {S : Type 0} (socket : Socket S) (host : Host) (n fuel pid : ℕ) (c : Client) (arg : JobArg)
    (t : Option ℕ) (s s' : S) where
  read :
      (k : Carries socket host n fuel pid c arg t s s')
      → IsWireSafe (as_job arg)
      → receive socket n fuel k.polled ≡ (
        some (
            ok (
              pos pid,
              succeeded (host.target (as_job arg)),
              told host (host.target (as_job arg)),
            )),
        s',
      )
  unfolding receive
  read k safe =
      rw (k.receives, receive)
        (rw (
          k.receives,
          answer-serialize host pid (as_job arg) safe,
          extract_result-reply pid (succeeded (host.target (as_job arg)))
              (told host (host.target (as_job arg))),
        ))

  received :
      Carries socket host n fuel pid c arg t s s'
      → IsWireSafe (as_job arg)
      → execute_once socket n fuel c arg (some (or_max c t)) s ≡ (
        some (
            ok (
              pos pid,
              succeeded (host.target (as_job arg)),
              told host (host.target (as_job arg)),
            )),
        s',
      )
  unfolding execute_once as_job
  received k safe = rw (k.sends, execute_once) (rw (k.sends, k.polls) (read k safe))

  -- A job with safe headers, carried by the network: `execute` settles what the target made of that
  -- very job, under the worker's process id and the time that passed.
  execute_carried :
      Carries socket host n fuel pid c arg t s s'
      → IsWireSafe (as_job arg)
      → (execute socket n fuel c arg t s).0
        ≡ some
            (settle c
              (socket.now s' - socket.now s)
              (pos pid)
              (succeeded (host.target (as_job arg)))
              (told host (host.target (as_job arg)))).0
  execute_carried k safe = unfold execute in rw (received k safe, execute) (rw (received k safe))

  -- A job with safe headers, carried by the network to a worker and back within the client's regular
  -- timeout: the caller gets what the worker's target made of that very job, as a result, or as an
  -- `ExecutionError` with the report of what the target raised.
  pub execute-target :
      Carries socket host n fuel pid c arg t s s'
      → IsWireSafe (as_job arg)
      → socket.now s' - socket.now s ≤ c.timeout
      → (execute socket n fuel c arg t s).0 ≡ some (outcome host (host.target (as_job arg)))
  execute-target k safe soon =
      execute_carried k safe
      ∙ ap some (in_time c _ (pos pid) _ _ soon ∙ checked-told host (host.target (as_job arg)))
