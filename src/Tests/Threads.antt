-- ===== src/Tests/Threads.antt =====
-- The two threads of a worker.
use powerhoc.Worker.Threads.Prompt.{in_time, Run-in_time}
use powerhoc.Common.{true, false, List, [], ◌∷◌, ◌++◌, none, Bytes, codes, ◌≡◌, refl}
use powerhoc.Exc.{ok}
use powerhoc.Timer
use powerhoc.Timer.{put, job_starts, job_ends, run_begins}
use powerhoc.Worker.{Worker, Host, run_target, finish}
use powerhoc.Worker.Replies.{answer, started}
use powerhoc.Worker.Threads.{waiting, working, Watch, Run, begins, receives, returns, replies}
use powerhoc.Worker.Threads.Marks.{ended, unmarked, Run-unmarked}
use powerhoc.Worker.Threads.Mismarks.{marks_astray}

abbrev echo_all : Host
echo_all = record {
  target = λ j. ok j.job_data;
  report = λ e. codes "failed";
  deliver = λ res. ok tt;
}

abbrev at_first : Worker
at_first = record {
  pid = 7;
  running = true;
  timer = run_begins Timer.new;
  loop_stopped = false;
  sent = [];
  errors = [];
  unsent = 0;
}

abbrev a_job : List Bytes
a_job = codes "NONE:::x" ∷ []

abbrev job_done : Watch
job_done = record {
  worker =
      finish echo_all (record at_first { timer = ended (started at_first.timer) })
        (run_target echo_all a_job) (ended (started at_first.timer));
  phase = waiting;
  dumping = none;
}

one_job :
    Run echo_all at_first
      (record { msg = a_job; expired = false; marked = false } ∷ [])
      false
      false
      job_done
unfolding put job_starts job_ends run_begins Timer.new
one_job =
    replies a_job (run_target echo_all a_job)
      (returns a_job (ended (started at_first.timer))
        (receives a_job (started at_first.timer) begins refl refl) refl refl)
      refl

Run-unmarked_example :
    (job_done.worker.sent
      ≡ at_first.sent
        ++ unmarked echo_all at_first.pid
            (record { msg = a_job; expired = false; marked = false } ∷ []))
    × (job_done.phase ≡ waiting
        → job_starts job_done.worker.timer ≡ ok (started job_done.worker.timer))
    × ((msg : List Bytes)
        → job_done.phase ≡ working msg
        → job_ends job_done.worker.timer ≡ ok (ended job_done.worker.timer))
unfolding run_begins Timer.new
Run-unmarked_example =
    Run-unmarked echo_all (λ res. refl) at_first
      (record { msg = a_job; expired = false; marked = false } ∷ []) false false job_done refl
      one_job

Run-in_time_example :
    job_done.worker.sent
    ≡ at_first.sent
      ++ in_time echo_all at_first.pid
          (record { msg = a_job; expired = false; marked = false } ∷ [])
unfolding run_begins Timer.new one_job
Run-in_time_example =
    Run-in_time echo_all (λ res. refl) at_first
      (record { msg = a_job; expired = false; marked = false } ∷ []) false false job_done refl
      one_job ((tt, refl), refl)

marks_astray_example :
    (s : Watch) × Run echo_all at_first
      (record { msg = a_job; expired = true; marked = false }
        ∷ record { msg = a_job; expired = false; marked = true }
        ∷ [])
      false
      false
      s
    × (s.worker.sent ≡ at_first.sent ++ answer echo_all at_first.pid a_job ∷ [])
unfolding run_begins Timer.new
marks_astray_example =
    marks_astray echo_all (λ res. refl) at_first a_job a_job (codes "dump" ∷ []) refl refl refl
