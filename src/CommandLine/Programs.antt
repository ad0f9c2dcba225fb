-- ===== src/CommandLine/Programs.antt =====
-- The programs from the command line to the end: the broker's and the worker's `main` on what they
-- read, and what becomes of the two that a cluster starts. `set_logger` is left out.
use powerhoc.Broker.{Broker}
use powerhoc.Broker.Life
use powerhoc.Broker.Life.{main-Exits}
use powerhoc.Broker.Life.Routed.{HasRouted, main-HasRouted}
use powerhoc.Broker.Routing.{TakesAll}
use powerhoc.Cluster.{Settings, broker_cmd, worker_cmd, command}
use powerhoc.Cluster.Arguments.{AreWords}
use powerhoc.CommandLine.{Value, int, float, Parser, Namespace}
use powerhoc.CommandLine.Mains.{WorkerArgs, read_broker, read_worker}
use powerhoc.CommandLine.Namespaces.{AreValues}
use powerhoc.CommandLine.Reading.{IsDocumented}
use powerhoc.CommandLine.Started.{Starts, broker_args, worker_args, command_read_back}
use powerhoc.Common.{ℕ, List, Option, none, some, Bytes, All, ◌≡◌, refl}
use powerhoc.Dict.{Distinct}
use powerhoc.Exc.{Result, ok, err}
use powerhoc.Params.Laws.{IsPlain}
use powerhoc.Resolve.{Imports, resolve_name}
use powerhoc.Text.Decimal.{ℤ, pos}
use powerhoc.Worker.{Host}
use powerhoc.Worker.Life.{Process}
use powerhoc.Worker.Lifetime.{Lives}
use powerhoc.Worker.Main
use powerhoc.Worker.Main.{Args, started, main_worker}
use powerhoc.Worker.Main.Served.{HasServed, main_worker-HasServed}
use powerhoc.Worker.Replies.{Delivers}
use powerhoc.Worker.Threads.{Phase, Handled}
use powerhoc.Worker.Threads.Marks.{unmarked}

module _ {F : Type 0} where
  -- The maximum age of a worker, `none` for -1, which is the default; `age` tells it of a float.
  abbrev pub age_of : (F → Option ℕ) → Value F → Option ℕ
  age_of age (float x) = age x
  age_of age (int (pos n)) = some n
  age_of age _ = none

  -- `random.randint` is asked only for a delta that is more than 0.
  abbrev pub delta_of : Value F → ℕ
  delta_of (int (pos n)) = n
  delta_of _ = 0

  abbrev pub main_args : (F → Option ℕ) → WorkerArgs F → Args
  main_args age a = record {
    target = a.target;
    params = a.params;
    max_age = age_of age a.max_age;
    max_age_delta = delta_of a.max_age_delta;
  }

module _ {F : Type 0} (parse_args : Parser F → List Bytes → Result (Namespace F)) where
  -- The broker's `main`; `pinged` is how `verify_broker` ends on a frontend.
  unfoldable pub broker_program :
      List Bytes
      → ℕ
      → Result (Unit {0})
      → (Bytes → Result (Option Bytes))
      → Life.Run
      → Option (Result ℕ) × Option Broker
  unfolding read_broker Life.main
  broker_program ws pid purged pinged run = elim (read_broker parse_args ws) [
    | err e ↦ (some (err e), none)
    | ok a ↦ Life.main a.options pid purged (pinged a.options.frontend) run
  ]

  -- The worker's `main`
  unfoldable pub worker_program :
      {S Obj : Type 0}
      → (Bytes → F)
      → (F → Option ℕ)
      → Imports S Obj
      → (Obj → Host)
      → Main.Run
      → List Bytes
      → ℕ
      → S
      → Result ℕ × Option Process
  unfolding read_worker main_worker
  worker_program literal age imports hosts run ws pid s = elim (read_worker parse_args literal ws) [
    | err e ↦ (err e, none)
    | ok a ↦ main_worker imports hosts run (main_args age a) pid s
  ]

module _ {F : Type 0} (to_float : Bytes → Option F) (literal : Bytes → F)
    (parse_args : Parser F → List Bytes → Result (Namespace F))
    (documented : IsDocumented to_float literal parse_args) (argv : Bytes → List Bytes)
    (starts : Starts argv) (s : Settings) (timeout max_age : F) (max_age_delta : ℤ) (w : AreWords s)
    (v : AreValues to_float s timeout max_age max_age_delta) (distinct : Distinct s.worker_params)
    (plain : All IsPlain s.worker_params) where
  -- A broker that `get_cluster` starts goes on to serve, as `main` does.
  pub broker_program-Exits :
      (pid : ℕ) (purged : Result (Unit {0})) (pinged : Bytes → Result (Option Bytes))
      (run : Life.Run)
      → Life.Exits
          (pinged s.frontend)
          run
          (broker_program parse_args (argv (command (broker_cmd s))) pid purged pinged run)
  unfolding broker_program
  broker_program-Exits pid purged pinged run =
      let (b, c, p) =
        command_read_back to_float literal parse_args documented argv starts s timeout max_age
          max_age_delta w v distinct plain in
      rw (b, broker_program)
        (main-Exits (broker_args s).options pid purged (pinged s.frontend) run refl refl)

  -- A broker that `get_cluster` starts, where every setting is one plain word that cannot be taken for
  -- an option, the numbers are numbers, no parameter's key stands twice or has a separator in it, as no
  -- value has, and the programs are started as `Starts` says: if no other broker answers the ping of
  -- the frontend that was set, the sockets can be bound, and both streams take every message, it has
  -- sent to the front, in order, the workers' messages and an answer to each ping, and to the back the
  -- other messages of the front, nothing else, those of the flush in `stop` included once it has been
  -- called, and is shut down if its event loop has ended and that flush did not raise.
  pub broker_program-HasRouted :
      (pid : ℕ) (purged : Result (Unit {0})) (pinged : Bytes → Result (Option Bytes))
      (run : Life.Run)
      → pinged s.frontend ≡ ok none
      → run.bound ≡ ok tt
      → TakesAll run.streams
      → HasRouted pid run
          (broker_program parse_args (argv (command (broker_cmd s))) pid purged pinged run)
  unfolding broker_program
  broker_program-HasRouted pid purged pinged run alone bound takes =
      let (b, c, p) =
        command_read_back to_float literal parse_args documented argv starts s timeout max_age
          max_age_delta w v distinct plain in
      rw (b, broker_program)
        (rw alone (main-HasRouted pid run takes (broker_args s).options purged refl refl bound))

  -- A worker that `get_cluster` starts, where every setting is one plain word that cannot be taken for
  -- an option, the numbers are numbers, no parameter's key stands twice or has a separator in it, as no
  -- value has, and the programs are started as `Starts` says: if the target that was set resolves to
  -- `found`, the stream takes every reply, and what happens while the worker runs is what the threads
  -- of one with this target and these parameters can do, it is down at the end, and has sent, in order,
  -- the answers of `found` to the handled messages during which no mark was set, and nothing else.
  pub worker_program-HasServed :
      {S Obj : Type 0} (age : F → Option ℕ) (imports : Imports S Obj) (hosts : Obj → Host)
      (run : Main.Run) (pid : ℕ) (state : S) (found : Obj) (h : List Handled) (place : Phase)
      → (resolve_name imports s.target state).0 ≡ ok found
      → Delivers (hosts found)
      → (let args = main_args age (worker_args s timeout max_age max_age_delta) in
          let p = started (hosts found) run args pid s.worker_params in
          Lives p h place (run.meanwhile p))
      → HasServed (unmarked (hosts found) pid h) (
          worker_program parse_args literal age imports hosts run
            (argv (command (worker_cmd s)))
            pid
            state)
  unfolding worker_program
  worker_program-HasServed age imports hosts run pid state found h place e d lives =
      let (b, c, p) =
        command_read_back to_float literal parse_args documented argv starts s timeout max_age
          max_age_delta w v distinct plain in
      rw (c, worker_program)
        (main_worker-HasServed imports hosts run
          (main_args age (worker_args s timeout max_age max_age_delta)) pid state found
          s.worker_params h place e p d lives)
