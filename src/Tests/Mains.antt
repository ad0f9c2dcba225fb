-- ===== src/Tests/Mains.antt =====
-- A worker from its start to its end, and dumps of stacks.
use powerhoc.Common.{
  ℕ, ◌+◌, ◌*◌, true, false, List, [], ◌∷◌, ◌++◌, none, some, Bytes, codes, All, length, ◌≡◌, refl,
}
use powerhoc.Cluster.Main.{wait}
use powerhoc.Dict.{Dict, bytes_eq}
use powerhoc.Exc.{ok}
use powerhoc.Resolve.{found, Imports}
use powerhoc.Stacks.{Interpreter, expire, dump_stacks, nat_eq}
use powerhoc.Stacks.Expiry.{IsNamed, IsUnnamed, greenlets_of, expire_lem}
use powerhoc.Timer
use powerhoc.Timer.{Timer, timing, over, time_out, run_begins, job_starts, job_ends}
use powerhoc.Worker.{Worker, Host, run_target, finish}
use powerhoc.Worker.Life.{keyboard_interrupt}
use powerhoc.Worker.Lifetime.{Lives, works, hears, ages, hear, stop_joined}
use powerhoc.Worker.Main
use powerhoc.Worker.Main.{Exits as WorkerExits, Args, Run, main_worker, main_worker-Exits}
use powerhoc.Worker.Replies.{started}
use powerhoc.Worker.Threads.{Handled, waiting, begins, receives, returns, replies}
use powerhoc.Worker.Threads.Marks.{ended}
use powerhoc.Heartbeat.{tick}

abbrev at_a_job : Timer
at_a_job = record {
  armed = true;
  running = true;
  timed_out = false;
  working = true;
  last_dump = none;
  queue = [];
  place = timing;
}

-- Two threads, of which `threading` knows the first.
abbrev two_threads : Interpreter
two_threads = record {
  threads = (255, codes "MainThread") ∷ [];
  frames = (255, codes "main\n") ∷ (16, codes "foreign\n") ∷ [];
  greenlets = none;
}

one_dump :
    dump_stacks (record two_threads { frames = (255, codes "main\n") ∷ [] })
    ≡ ok (codes "Thread 0xff (MainThread)\n" ∷ codes "main\n" ∷ codes "\n" ∷ [])
unfolding dump_stacks
one_dump = refl

expire_lem_example :
    (All (IsNamed two_threads) two_threads.frames
      → (dump : List Bytes) × (expire two_threads at_a_job ≡ time_out dump at_a_job)
        × (length dump ≡ 3 * (length two_threads.frames + greenlets_of two_threads)))
    × ((before behind : List (ℕ × Bytes)) (f : ℕ × Bytes)
        → two_threads.frames ≡ before ++ f ∷ behind
        → All (IsNamed two_threads) before
        → IsUnnamed two_threads f
        → ((expire two_threads at_a_job).timed_out ≡ at_a_job.timed_out)
          × ((expire two_threads at_a_job).last_dump ≡ at_a_job.last_dump)
          × ((expire two_threads at_a_job).place ≡ over))
expire_lem_example = expire_lem two_threads at_a_job

abbrev pub upper_host : Host
upper_host = record {
  target = λ j. ok j.job_data;
  report = λ e. codes "failed";
  deliver = λ res. ok tt;
}

-- Whatever is asked for can be imported.
abbrev pub any_package : Imports ℕ ℕ
any_package = record {
  import_module = λ name s. (found 1, s + 1);
  loaded = λ name s. 1;
  attribute = λ ret part s. found (ret + 1);
}

abbrev with_params : Args
with_params = record {
  target = codes "jobs.echo";
  params = some (codes "one:1|two:2");
  max_age = some 60;
  max_age_delta = 5;
}

abbrev pub a_job : List Bytes
a_job = codes "NONE:::x" ∷ []

-- What becomes of a worker that handles a job.
abbrev pub job_done : Worker → Worker
job_done w =
    finish upper_host (record w { timer = ended (started w.timer) }) (run_target upper_host a_job)
      (ended (started w.timer))

-- It handles a job, its stethoscope ticks, and it is told to stop at its maximum age.
abbrev to_the_end : Run
to_the_end = record {
  randint = λ d. d;
  beats = [];
  rounds = [];
  meanwhile = λ p. stop_joined (hear tick (record p { worker = job_done p.worker }));
  how = keyboard_interrupt;
}

abbrev pub one_handled : List Handled
one_handled = record { msg = a_job; expired = false; marked = false } ∷ []

one_life :
    (params : Dict Bytes Bytes)
    → Lives
        (Main.started upper_host to_the_end with_params 7 params)
        one_handled
        waiting
        (to_the_end.meanwhile (Main.started upper_host to_the_end with_params 7 params))
unfolding Main.started job_starts job_ends hear
one_life params =
    ages 65000
      (hears tick (
        works (
          replies a_job (run_target upper_host a_job)
            (returns a_job (ended (started (run_begins Timer.new)))
              (receives a_job (started (run_begins Timer.new)) begins refl refl) refl refl)
            refl)))
      refl

main_worker-Exits_example :
    WorkerExits any_package
      (λ found. upper_host)
      to_the_end
      with_params
      7
      0
      (main_worker any_package (λ found. upper_host) to_the_end with_params 7 0)
main_worker-Exits_example =
    main_worker-Exits any_package (λ found. upper_host) to_the_end with_params 7 0
      (λ found params. (one_handled, waiting, one_life params))

waited :
    wait 100 ((200, codes "starting" ∷ []) ∷ (300, codes "active" ∷ codes "active" ∷ []) ∷ [])
    ≡ some true
unfolding wait
waited = refl
