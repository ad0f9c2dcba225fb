-- ===== src/Worker/Life.antt =====
-- `start` and `stop` of `Worker` and the end of `main`, powerhose/worker.py, with the stethoscope, the
-- context and the delayed exit of the worker. `published` is the variable `PARAMS` of
-- powerhose/util.py, which `get_params` returns to a target.
use powerhoc.Common.{
  Bytes, ℕ, ◌+◌, ◌*◌, ◌≤◌, Bool, true, false, List, Option, none, some, ltb, ◌≡◌, refl, arith,
  if◌then◌else◌,
}
use powerhoc.Dict.{Dict}
use powerhoc.Exc.{Exn, Result, ok, err}
use powerhoc.Heartbeat
use powerhoc.Heartbeat.{Stethoscope}
use powerhoc.Loop.{Round, loop}
use powerhoc.Timer
use powerhoc.Timer.{Timer, Place, over, run_begins}
use powerhoc.Timer.Stop.{drain, CanEnd, CanEnd-drain}
use powerhoc.Worker.{Worker, Host}

-- `host` is the target, with how its exceptions are reported and its replies are sent.
pub record Process : Type 0 where
  pub host : Host
  pub worker : Worker
  pub ping : Stethoscope
  pub context_open : Bool
  pub delayed_exit : Option ℕ
  pub params : Dict Bytes Bytes
  pub published : Dict Bytes Bytes

-- The milliseconds after which the worker stops; `none` is `max_age == -1`, and `randint d` is
-- `random.randint(0, d)`.
unfoldable pub exit_delay : (ℕ → ℕ) → Option ℕ → ℕ → Option ℕ
exit_delay randint none max_age_delta = none
exit_delay randint (some max_age) max_age_delta =
    let delta = if ltb 0 max_age_delta then randint max_age_delta else 0 in
    some ((max_age + delta) * 1000)

-- `start`: the threads of the stethoscope (on its own `beats` of the event loop) and of the timer,
-- the exit callback, and the rounds of the event loop
unfoldable pub start_worker :
    (ℕ → ℕ)
    → Option ℕ
    → ℕ
    → List (Round × Bool)
    → List (Round × Bool)
    → Process
    → Option (Result (Unit {0})) × Process
unfolding exit_delay run_begins loop Heartbeat.run
start_worker randint max_age max_age_delta beats rounds p = (
  loop true rounds,
  record p {
    worker = record p.worker { running = true; timer = run_begins p.worker.timer };
    ping = (Heartbeat.run beats p.ping).1;
    delayed_exit = exit_delay randint max_age max_age_delta;
    published = p.params;
  },
)

-- `get_params`
unfoldable pub get_params : Process → Dict Bytes Bytes
get_params p = p.published

-- `stop`. The jobs that its flush hands to `_handle_recv_back` count with those before it, since the
-- handler reads nothing of what `stop` has set; a `ZMQError` of the flush is passed over. The stream of
-- the stethoscope is there, as its thread has begun.
unfoldable pub stop_worker : Process → Process
unfolding Timer.stop Heartbeat.stop
stop_worker p = record p {
  worker = record p.worker {
    running = false;
    loop_stopped = true;
    timer = Timer.stop p.worker.timer;
  };
  ping = Heartbeat.stop p.ping;
  context_open = false;
}

-- How `worker.start()` ends in `main`.
pub data Outcome : Type 0 where
  returns keyboard_interrupt : Outcome
  raises : Exn → Outcome

-- The last lines of `main`: what it returns, and the worker behind the `finally`.
unfoldable pub run_worker : Outcome → Process → Result ℕ × Process
unfolding stop_worker
run_worker returns p = (ok 0, stop_worker p)
run_worker keyboard_interrupt p = (ok 1, stop_worker p)
run_worker (raises e) p = (err e, stop_worker p)

-- A worker with a maximum age stops no sooner than that age, and no later than `max_age_delta`
-- seconds behind it, if `random.randint` keeps to its bounds.
pub exit_delay-bounds :
    (randint : ℕ → ℕ) (max_age max_age_delta : ℕ)
    → ((d : ℕ) → randint d ≤ d)
    → (t : ℕ) × (exit_delay randint (some max_age) max_age_delta ≡ some t)
      × (max_age * 1000 ≤ t)
      × (t ≤ (max_age + max_age_delta) * 1000)
unfolding exit_delay
exit_delay-bounds randint a d h = (_, refl, ground (arith, h d), ground (arith, h d))

-- What a stopped worker has left.
pub record IsDown (p : Process) : Type 0 where
  pub idle_worker : p.worker.running ≡ false
  pub loop_left : p.worker.loop_stopped ≡ true
  pub silent : p.ping.running ≡ false
  pub closed : p.context_open ≡ false
  pub thread_ends : (drain p.worker.timer.queue p.worker.timer).place ≡ over

stop_worker-IsDown : (p : Process) → CanEnd p.worker.timer → IsDown (stop_worker p)
unfolding stop_worker Heartbeat.stop
stop_worker-IsDown p r = record {
  idle_worker = refl;
  loop_left = refl;
  silent = ground arith;
  closed = refl;
  thread_ends = CanEnd-drain p.worker.timer r;
}

-- However `start` ends, and wherever it leaves the timer's thread, `main` leaves the worker stopped:
-- its flag, the event loop, the stethoscope and the context are down, and the timer's thread leaves
-- its loop with the messages of its queue.
pub run_worker-IsDown :
    (how : Outcome) (p : Process) → CanEnd p.worker.timer → IsDown (run_worker how p).1
unfolding run_worker
run_worker-IsDown returns p r = stop_worker-IsDown p r
run_worker-IsDown keyboard_interrupt p r = stop_worker-IsDown p r
run_worker-IsDown (raises e) p r = stop_worker-IsDown p r

pub run_worker-sent :
    (how : Outcome) (p : Process) → (run_worker how p).1.worker.sent ≡ p.worker.sent
unfolding run_worker stop_worker
run_worker-sent returns p = refl
run_worker-sent keyboard_interrupt p = refl
run_worker-sent (raises e) p = refl
