-- ===== src/Worker.antt =====
-- `Worker` of powerhose/worker.py. `sent` is what `_backstream` was given, `errors` what the
-- handler logged with the package's logger at the level ERROR, and `unsent` counts the replies that
-- could not be sent, which are logged with Python's root logger.
pub mod Replies
pub mod Life
pub mod Main
pub mod Threads
pub mod Lifetime
pub mod Lost
use powerhoc.Common.{
  ℕ, ◌+◌, Bool, true, false, List, [], ◌∷◌, ◌++◌, none, some, Bytes, if◌then◌else◌,
}
use powerhoc.Exc.{Exn, Result, ok, err, type_error, index_error, ◌>>=◌}
use powerhoc.Job.{Job, load_from_string}
use powerhoc.Reply.{reply}
use powerhoc.Timer.{Timer, job_starts, job_ends}

pub record Worker : Type 0 where
  pub pid : ℕ
  pub running : Bool
  pub timer : Timer
  pub loop_stopped : Bool
  pub sent : List Bytes
  pub errors : List Bytes
  pub unsent : ℕ

-- `msg[0]`
unfoldable pub first_part : List Bytes → Result Bytes
first_part [] = err index_error
first_part (part ∷ rest) = ok part

-- `with self.timer.run_job(): body`, where `meanwhile` is what the timer's thread does to the timer
-- until the body has ended; `job_ends` is called whether the body returns or raises.
unfoldable pub run_job : {A : Type 0} → (Timer → Timer) → Result A → Timer → Result A × Timer
unfolding job_starts job_ends
run_job meanwhile body t = elim (job_starts t) [
  | err e ↦ (err e, t)
  | ok t' ↦
      let t'' = meanwhile t' in
      elim (job_ends t'') [ err e ↦ (err e, t'') | ok t''' ↦ (body, t''') ]
]

-- What the worker calls and what Python formats: the target, the report, and `_backstream.send`. An
-- `Exn` stands for an exception with the traceback that it has where the handler catches it, and
-- `report` is the text that is formatted of both. The target is called as it is, without the `timed`
-- that a worker at the level DEBUG puts around it.
pub record Host : Type 0 where
  pub target : Job → Result Bytes
  pub report : Exn → Bytes
  pub deliver : Bytes → Result (Unit {0})

module _ (host : Host) where
  -- `target(Job.load_from_string(msg[0]))`
  unfoldable pub run_target : List Bytes → Result Bytes
  unfolding first_part load_from_string
  run_target msg = do wire ← first_part msg; job ← load_from_string wire; host.target job

  -- The lines of `last_dump` that are logged for a job that ran out of time
  unfoldable pub dump_lines : Timer → Result (List Bytes)
  dump_lines t = elim t.timed_out [
    | false ↦ ok []
    | true ↦ elim t.last_dump [ none ↦ err type_error | some lines ↦ ok lines ]
  ]

  -- The `except Exception` branch: the reply, and what is logged
  unfoldable pub failure_line : Worker → Exn → Bytes × List Bytes
  unfolding reply
  failure_line w e = let res = reply w.pid false (host.report e) in (res, res ∷ [])

  -- The reply, and what is logged, for what the job came to
  unfoldable pub result_line : Worker → Timer → Result Bytes → Bytes × List Bytes
  unfolding reply dump_lines failure_line
  result_line w t (ok res) = elim (dump_lines t) [
    | ok lines ↦ (reply w.pid true res, lines)
    | err e ↦ failure_line w e
  ]
  result_line w t (err e) = failure_line w e

  -- `try: self._backstream.send(res) except Exception: log`
  unfoldable pub send_back : Bytes → Worker → Worker
  send_back res w = elim (host.deliver res) [
    | ok u ↦ record w { sent = w.sent ++ res ∷ [] }
    | err e ↦ record w { unsent = w.unsent + 1 }
  ]

  -- `_handle_recv_back` behind the job: nothing is sent for one that ran out of time.
  unfoldable pub finish : Worker → Result Bytes → Timer → Worker
  unfolding result_line send_back
  finish w res t =
      let (line, logged) = result_line w t res in
      let w' = record w { timer = t; errors = w.errors ++ logged } in
      if t.timed_out then w' else send_back line w'

  -- `_handle_recv_back`
  unfoldable pub handle_recv_back : (Timer → Timer) → List Bytes → Worker → Worker
  unfolding run_job run_target finish
  handle_recv_back meanwhile msg w =
      let (res, t) = run_job meanwhile (run_target msg) w.timer in finish w res t

  -- The messages of some time, each with what the timer's thread does meanwhile.
  unfoldable pub serve : List ((Timer → Timer) × List Bytes) → Worker → Worker
  unfolding handle_recv_back
  serve [] w = w
  serve ((meanwhile, msg) ∷ rest) w = serve rest (handle_recv_back meanwhile msg w)

-- `lost`, the worker's `onbeatlost`
unfoldable pub lost : Worker → Bool × Worker
lost w = (true, record w { running = false; loop_stopped = true })
