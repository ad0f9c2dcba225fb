-- ===== src/Worker/Threads.antt =====
-- The worker's thread in `_handle_recv_back` and the timer's thread in `run` of powerhose/worker.py,
-- step by step in any interleaving. The timer's thread spends time in `dump_stacks`, between the end
-- of a job's time and the mark `timed_out`; the handler reads the mark some time behind `job_ends`.
-- What it does from then on is one step.
pub mod Marks
pub mod Mismarks
pub mod Prompt
use powerhoc.Common.{Bool, true, false, List, [], ◌∷◌, ◌++◌, Option, none, some, Bytes, ◌≡◌}
use powerhoc.Exc.{Exn, Result, ok, err}
use powerhoc.Timer.{Msg, Timer, timing, take_msg, time_out, job_starts, job_ends}
use powerhoc.Worker.{Worker, Host, run_target, finish}

-- Where the worker's thread is: between two messages, in the job of a message, or behind it with what
-- the job came to.
pub data Phase : Type 0 where
  waiting : Phase
  working : List Bytes → Phase
  ending : List Bytes → Result Bytes → Phase

-- The worker with its timer, and what `dump_stacks` is to give while the timer's thread is in it.
pub record Watch : Type 0 where
  pub worker : Worker
  pub phase : Phase
  pub dumping : Option (List Bytes)

abbrev pub set_timer : Timer → Watch → Watch
set_timer t s = record s { worker = record s.worker { timer = t } }

-- A message that was handled: whether the time of its job ran out, and whether the mark was set while
-- it was handled.
pub record Handled : Type 0 where
  pub msg : List Bytes
  pub expired : Bool
  pub marked : Bool

module _ (host : Host) where
  -- What was handled, the two notes on the message that is handled now, and the state behind it.
  pub data Run (w : Worker) : List Handled → Bool → Bool → Watch → Type 0 where
    begins : Run w [] false false (record { worker = w; phase = waiting; dumping = none })
    receives :
        {h : List Handled} {x l : Bool} {s : Watch} (msg : List Bytes) (t : Timer)
        → Run w h x l s
        → s.phase ≡ waiting
        → job_starts s.worker.timer ≡ ok t
        → Run w h false false (record (set_timer t s) { phase = working msg })
    is_refused :
        {h : List Handled} {x l : Bool} {s : Watch} (msg : List Bytes) (e : Exn)
        → Run w h x l s
        → s.phase ≡ waiting
        → job_starts s.worker.timer ≡ err e
        → Run w h false false (record s { phase = ending msg (err e) })
    returns :
        {h : List Handled} {x l : Bool} {s : Watch} (msg : List Bytes) (t : Timer)
        → Run w h x l s
        → s.phase ≡ working msg
        → job_ends s.worker.timer ≡ ok t
        → Run w h x l (record (set_timer t s) { phase = ending msg (run_target host msg) })
    raises :
        {h : List Handled} {x l : Bool} {s : Watch} (msg : List Bytes) (e : Exn)
        → Run w h x l s
        → s.phase ≡ working msg
        → job_ends s.worker.timer ≡ err e
        → Run w h x l (record s { phase = ending msg (err e) })
    replies :
        {h : List Handled} {x l : Bool} {s : Watch} (msg : List Bytes) (res : Result Bytes)
        → Run w h x l s
        → s.phase ≡ ending msg res
        → Run w
            (h ++ record { msg = msg; expired = x; marked = l } ∷ [])
            false
            false
            (record s { worker = finish host s.worker res s.worker.timer; phase = waiting })
    takes :
        {h : List Handled} {x l : Bool} {s : Watch} (m : Msg) (rest : List Msg)
        → Run w h x l s
        → s.dumping ≡ none
        → s.worker.timer.queue ≡ m ∷ rest
        → Run w h x l (set_timer (take_msg s.worker.timer rest s.worker.timer.place) s)
    expires :
        {h : List Handled} {x l : Bool} {s : Watch} (dump : List Bytes)
        → Run w h x l s
        → s.dumping ≡ none
        → s.worker.timer.place ≡ timing
        → s.worker.timer.queue ≡ []
        → Run w h true l (record s { dumping = some dump })
    marks :
        {h : List Handled} {x l : Bool} {s : Watch} (dump : List Bytes)
        → Run w h x l s
        → s.dumping ≡ some dump
        → Run w h x true (record (set_timer (time_out dump s.worker.timer) s) { dumping = none })
