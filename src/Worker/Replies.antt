-- ===== src/Worker/Replies.antt =====
-- What a worker sends for the messages it gets.
use powerhoc.Common.{
  ℕ, true, false, List, [], ◌∷◌, ◌++◌, append_assoc, append-nil, Bytes, All, ◌≡◌, refl, ◌∙◌, sym,
  arith, if◌then◌else◌, inl, inr, Bool-cases,
}
use powerhoc.Exc.{Result, ok, err}
use powerhoc.Reply.{reply}
use powerhoc.Timer.{Timer, starting, put, job_starts, job_ends}
use powerhoc.Worker.{
  Worker, Host, run_job, run_target, result_line, failure_line, dump_lines, send_back, finish,
  handle_recv_back, serve,
}

-- The timer when the job runs.
abbrev pub started : Timer → Timer
started t = put starting (record t { working = true; timed_out = false })

-- The timer's thread never writes `working`.
abbrev pub KeepsWorking : (Timer → Timer) → Type 0
KeepsWorking meanwhile = (t : Timer) → (meanwhile t).working ≡ t.working

abbrev pub IsReady : Worker → Type 0
IsReady w = w.timer.working ≡ false

-- The reply to a message: the target's result, or the report of what was raised.
unfoldable pub answer : Host → ℕ → List Bytes → Bytes
answer host pid msg = elim (run_target host msg) [
  | ok res ↦ reply pid true res
  | err e ↦ reply pid false (host.report e)
]

pub run_job-ready :
    {A : Type 0} (meanwhile : Timer → Timer) (body : Result A) (t : Timer)
    → t.working ≡ false
    → KeepsWorking meanwhile
    → ((run_job meanwhile body t).0 ≡ body)
      × ((run_job meanwhile body t).1.working ≡ false)
      × ((run_job meanwhile body t).1.timed_out ≡ (meanwhile (started t)).timed_out)
unfolding run_job job_starts job_ends put
run_job-ready meanwhile body t h k = ground (arith, k (started t))

-- Whether the stream takes every reply.
abbrev pub Delivers : Host → Type 0
Delivers host = (res : Bytes) → host.deliver res ≡ ok tt

module _ (host : Host) where
  pub finish-timer : (w : Worker) (res : Result Bytes) (t : Timer) → (finish host w res t).timer ≡ t
  unfolding finish
  finish-timer w res t = ground arith

  pub finish-pid : (w : Worker) (res : Result Bytes) (t : Timer) → (finish host w res t).pid ≡ w.pid
  unfolding finish
  finish-pid w res t = ground arith

  sent-finish :
      (w : Worker) (res : Result Bytes) (t : Timer)
      → Delivers host
      → (finish host w res t).sent
        ≡ (if t.timed_out then w.sent else w.sent ++ (result_line host w t res).0 ∷ [])
  unfolding finish send_back
  sent-finish w res t d = ground (arith, d (result_line host w t res).0)

  pub result_line-answer :
      (w : Worker) (t : Timer) (msg : List Bytes)
      → t.timed_out ≡ false
      → (result_line host w t (run_target host msg)).0 ≡ answer host w.pid msg
  unfolding result_line failure_line dump_lines answer
  result_line-answer w t msg soon = go (run_target host msg) refl
    where
      go :
          (r : Result Bytes)
          → run_target host msg ≡ r
          → (result_line host w t (run_target host msg)).0 ≡ answer host w.pid msg
      go (ok res) e = rw (e, soon, answer)
      go (err x) e = rw (e, answer)

  -- The reply of a job that was not timed out
  pub sent-finish-answer :
      (w : Worker) (t : Timer) (msg : List Bytes)
      → Delivers host
      → (finish host w (run_target host msg) t).sent
        ≡ (if t.timed_out then w.sent else w.sent ++ answer host w.pid msg ∷ [])
  sent-finish-answer w t msg d = elim (Bool-cases t.timed_out) [
    | inl late ↦ sent-finish w _ t d ∙ rw late refl
    | inr soon ↦ sent-finish w _ t d ∙ rw (result_line-answer w t msg soon, soon) refl
  ]

  -- After any message, malformed ones included, a ready worker is ready for the next one, if the
  -- timer's thread leaves `working` alone.
  pub handle_recv_back-IsReady :
      (meanwhile : Timer → Timer) (msg : List Bytes) (w : Worker)
      → IsReady w
      → KeepsWorking meanwhile
      → IsReady (handle_recv_back host meanwhile msg w)
  unfolding handle_recv_back
  handle_recv_back-IsReady meanwhile msg w h k =
      rw finish-timer (run_job-ready meanwhile (run_target host msg) w.timer h k).1

  -- If the stream takes every reply and the timer's thread leaves `working` alone, a ready worker
  -- sends exactly one reply, the answer to the message, if the job is not timed out, and none if it is.
  pub sent-handle_recv_back :
      (meanwhile : Timer → Timer) (msg : List Bytes) (w : Worker)
      → IsReady w
      → KeepsWorking meanwhile
      → Delivers host
      → (handle_recv_back host meanwhile msg w).sent ≡ (
          if (meanwhile (started w.timer)).timed_out
          then w.sent
          else w.sent ++ answer host w.pid msg ∷ [])
  unfolding handle_recv_back
  sent-handle_recv_back meanwhile msg w h k d =
      let (body, _, late) = run_job-ready meanwhile (run_target host msg) w.timer h k in
      rw (body, sent-finish-answer w _ msg d) (rw late refl)

-- The timer's thread does not time the job out.
abbrev pub InTime : (Timer → Timer) → Type 0
InTime meanwhile = (t : Timer) → t.timed_out ≡ false → (meanwhile t).timed_out ≡ false

abbrev pub answers : Host → ℕ → List ((Timer → Timer) × List Bytes) → List Bytes
answers host pid [] = []
answers host pid ((meanwhile, msg) ∷ rest) = answer host pid msg ∷ answers host pid rest

-- While no job is timed out and the stream takes every reply, a ready worker answers every message
-- once, in order; the timer's thread leaves `working` alone.
pub sent-serve :
    (host : Host) (msgs : List ((Timer → Timer) × List Bytes)) (w : Worker)
    → IsReady w
    → Delivers host
    → All (λ m. KeepsWorking m.0 × InTime m.0) msgs
    → (serve host msgs w).sent ≡ w.sent ++ answers host w.pid msgs
unfolding serve
sent-serve host [] w h d _ = sym (append-nil w.sent)
sent-serve host ((meanwhile, msg) ∷ rest) w h d ((k, soon), ks) =
    let w' = handle_recv_back host meanwhile msg w in
    let ready = handle_recv_back-IsReady host meanwhile msg w h k in
    sent-serve host rest w' ready d ks
    ∙ rw
        (
          sent-handle_recv_back host meanwhile msg w h k d,
          soon (started w.timer) (unfold put in refl),
          handle_pid,
        )
        (append_assoc w.sent (answer host w.pid msg ∷ []) (answers host w.pid rest))
  where
    handle_pid : (handle_recv_back host meanwhile msg w).pid ≡ w.pid
    handle_pid = unfold handle_recv_back in finish-pid host w _ _
