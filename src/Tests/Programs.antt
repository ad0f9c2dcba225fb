-- ===== src/Tests/Programs.antt =====
-- The programs of a cluster, from the command line to the end.
use powerhoc.Broker.{from_front}
use powerhoc.Broker.Life
use powerhoc.Broker.Life.Routed.{HasRouted}
use powerhoc.Broker.Routing.{TakesAll}
use powerhoc.Cluster.{broker_cmd, worker_cmd, command}
use powerhoc.CommandLine.Programs.{
  broker_program, broker_program-HasRouted, worker_program, worker_program-HasServed, main_args,
}
use powerhoc.CommandLine.Started.{worker_args}
use powerhoc.Common.{ℕ, true, [], ◌∷◌, Option, none, some, Bytes, codes, refl, arith}
use powerhoc.Exc.{ok}
use powerhoc.Heartbeat.{tick}
use powerhoc.Resolve.{resolve_name}
use powerhoc.Tests.Clusters.{
  a_cluster, plain_argv, plain_argv-Starts, all_words, all_values, documented_parser,
  parser-IsDocumented,
}
use powerhoc.Tests.Mains.{any_package, upper_host, a_job, job_done, one_handled}
use powerhoc.Text.Decimal.{pos}
use powerhoc.Timer
use powerhoc.Timer.{job_starts, job_ends, run_begins}
use powerhoc.Worker.{run_target}
use powerhoc.Worker.Life.{returns}
use powerhoc.Worker.Lifetime.{Lives, works, hears, hear}
use powerhoc.Worker.Main
use powerhoc.Worker.Main.Served.{HasServed}
use powerhoc.Worker.Replies.{started}
use powerhoc.Worker.Threads
use powerhoc.Worker.Threads.{waiting, begins, receives, replies}
use powerhoc.Worker.Threads.Marks.{ended, unmarked}

abbrev served : Life.Run
served = record {
  streams = record { front = λ msg. ok tt; back = λ msg. ok tt };
  events = from_front (codes "c1" ∷ [] ∷ codes "NONE:::x" ∷ []) ∷ [];
  rounds = [];
  keyboard_interrupt = true;
  bound = ok tt;
  flush = record {
    pending = from_front (codes "c2" ∷ [] ∷ codes "PING" ∷ []) ∷ [];
    flushed = ok tt;
  };
}

takes_all : TakesAll served.streams
takes_all = record { front_takes = λ msg. refl; back_takes = λ msg. refl }

broker_program-HasRouted_example : HasRouted 42 served (
    broker_program documented_parser
      (plain_argv (command (broker_cmd a_cluster)))
      42
      (ok tt)
      (λ frontend. ok none)
      served)
broker_program-HasRouted_example =
    broker_program-HasRouted (λ w. some w) (λ w. w) documented_parser parser-IsDocumented plain_argv
      plain_argv-Starts a_cluster (codes "7.5") (codes "-1") (pos 0) all_words all_values (tt, tt)
      ((omega arith, omega arith, omega arith, omega arith), tt) 42 (ok tt) (λ frontend. ok none)
      served refl refl takes_all

abbrev never : Bytes → Option ℕ
never x = none

-- The worker handles a job, and its stethoscope ticks.
abbrev a_run : Main.Run
a_run = record {
  randint = λ d. d;
  beats = [];
  rounds = [];
  meanwhile = λ p. hear tick (record p { worker = job_done p.worker });
  how = returns;
}

abbrev its_args : Main.Args
its_args = main_args never (worker_args a_cluster (codes "7.5") (codes "-1") (pos 0))

a_life :
    Lives
      (Main.started upper_host a_run its_args 7 a_cluster.worker_params)
      one_handled
      waiting
      (a_run.meanwhile (Main.started upper_host a_run its_args 7 a_cluster.worker_params))
unfolding Main.started job_starts job_ends hear
a_life = hears tick (
    works (
      replies a_job (run_target upper_host a_job)
        (Threads.returns a_job (ended (started (run_begins Timer.new)))
          (receives a_job (started (run_begins Timer.new)) begins refl refl) refl refl)
        refl))

worker_program-HasServed_example : HasServed (unmarked upper_host 7 one_handled) (
    worker_program documented_parser
      (λ w. w)
      never
      any_package
      (λ found. upper_host)
      a_run
      (plain_argv (command (worker_cmd a_cluster)))
      7
      0)
worker_program-HasServed_example =
    worker_program-HasServed (λ w. some w) (λ w. w) documented_parser parser-IsDocumented plain_argv
      plain_argv-Starts a_cluster (codes "7.5") (codes "-1") (pos 0) all_words all_values (tt, tt)
      ((omega arith, omega arith, omega arith, omega arith), tt) never any_package
      (λ found. upper_host) a_run 7 0 3 one_handled waiting (unfold resolve_name in refl)
      (λ res. refl) a_life
