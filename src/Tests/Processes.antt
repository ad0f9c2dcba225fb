-- ===== src/Tests/Processes.antt =====
-- Workers with their timers, and the broker.
use powerhoc.Common.{true, false, List, [], ◌∷◌, none, some, Bytes, codes, ◌≡◌, refl}
use powerhoc.Broker
use powerhoc.Broker.{
  Broker, Streams, Msg, Event, from_front, from_back, route, handle_recv_front, handle_recv_back,
}
use powerhoc.Broker.Routing.{TakesAll, route_sends, FrontError, handlers-errors}
use powerhoc.Exc.{Exn, ok, err, value_error, eintr, eagain}
use powerhoc.Loop.{interrupted, loop, Stops, loop-Stops}
use powerhoc.Text.Decimal.{format}
use powerhoc.Timer
use powerhoc.Timer.{
  Timer, Place, idle, timing, starting, finished, Step, starts, ends, takes, Calmly, here, next,
  job_starts, job_ends, take_msg, time_out, put,
}
use powerhoc.Timer.Phase.{at_work, timed-when-working}
use powerhoc.Timer.Drift.{never-timed-again}
use powerhoc.Worker.{Worker, Host}

-- A busy timer whose job the timer's thread has taken.
abbrev busy : Timer
busy = record {
  armed = true;
  running = true;
  timed_out = false;
  working = true;
  last_dump = none;
  queue = [];
  place = timing;
}

abbrev start_left : Timer
start_left = record busy { armed = false; queue = starting ∷ []; place = idle }

to_busy : Calmly (Timer.run_begins Timer.new) busy
unfolding Timer.new Timer.run_begins job_starts take_msg
to_busy = next (next {w = start_left} here (starts refl) tt) (takes starting [] refl refl) tt

timed-when-working_example :
    ((busy.working ≡ true) → busy.place ≡ timing) × ((busy.working ≡ false) → busy.place ≡ idle)
timed-when-working_example = timed-when-working busy to_busy refl

abbrev dump : List Bytes
dump = codes "Thread 0x1" ∷ []

abbrev after_end : Timer
after_end = record busy {
  armed = false;
  timed_out = true;
  working = false;
  last_dump = some dump;
  queue = finished ∷ [];
  place = idle;
}

abbrev end_taken : Timer
end_taken = record after_end { armed = true; queue = []; place = timing }

abbrev next_put : Timer
next_put = record end_taken { working = true; timed_out = false; queue = starting ∷ [] }

abbrev next_job : Timer
next_job = record next_put { armed = false; queue = []; place = idle }

to_next_job : Calmly (time_out dump busy) next_job
unfolding time_out job_starts job_ends take_msg
to_next_job =
    next
      (next {w = next_put}
        (next {w = end_taken} (next {w = after_end} here (ends refl) tt)
          (takes finished [] refl refl) tt)
        (starts refl) tt)
      (takes starting [] refl refl) tt

never-timed-again_example : ¬ (next_job.place ≡ timing)
never-timed-again_example =
    never-timed-again busy dump next_job (record { leads = at_work; runs = refl }) refl refl
      to_next_job refl refl

loop-Stops_example :
    Stops
      ((interrupted eintr, true) ∷ (interrupted eagain, true) ∷ [])
      (loop true ((interrupted eintr, true) ∷ (interrupted eagain, true) ∷ []))
loop-Stops_example = loop-Stops ((interrupted eintr, true) ∷ (interrupted eagain, true) ∷ [])

abbrev open_streams : Streams
open_streams = record { front = λ msg. ok tt; back = λ msg. ok tt }

open_takes : TakesAll open_streams
open_takes = record { front_takes = λ msg. refl; back_takes = λ msg. refl }

abbrev new_broker : Broker
new_broker = record {
  pid = 42;
  started = true;
  pong = record { running = true; ticking = true; open_ = true; published = [] };
  loop_stopped = false;
  context_open = true;
  front_sent = [];
  back_sent = [];
  logged = 0;
}

abbrev traffic : List Event
traffic =
    from_front (codes "c1" ∷ [] ∷ codes "PING" ∷ [])
    ∷ from_front (codes "c2" ∷ [] ∷ codes "NONE:::x" ∷ [])
    ∷ from_back (codes "c2" ∷ [] ∷ codes "7:OK:x" ∷ [])
    ∷ []

route_sends_example :
    ((route open_streams traffic new_broker).front_sent
      ≡ (codes "c1" ∷ [] ∷ codes "42" ∷ []) ∷ (codes "c2" ∷ [] ∷ codes "7:OK:x" ∷ []) ∷ [])
    × ((route open_streams traffic new_broker).back_sent
        ≡ (codes "c2" ∷ [] ∷ codes "NONE:::x" ∷ []) ∷ [])
unfolding Broker.unsnoc format
route_sends_example = route_sends open_streams open_takes traffic new_broker

abbrev closed_streams : Streams
closed_streams = record { front = λ msg. err value_error; back = λ msg. err value_error }

handlers-errors_example :
    ((handle_recv_back closed_streams (codes "PING" ∷ []) new_broker).0 ≡ ok tt)
    × ((x : Exn)
        → (handle_recv_front closed_streams (codes "PING" ∷ []) new_broker).0 ≡ err x
        → FrontError closed_streams (codes "PING" ∷ []) new_broker x)
handlers-errors_example = handlers-errors closed_streams (codes "PING" ∷ []) new_broker

abbrev echo : Host
echo = record { target = λ j. ok j.job_data; report = λ e. codes "failed"; deliver = λ res. ok tt }

abbrev new_worker : Worker
new_worker = record {
  pid = 7;
  running = true;
  timer = record busy { armed = false; working = false; place = idle };
  loop_stopped = false;
  sent = [];
  errors = [];
  unsent = 0;
}

abbrev prompt : Timer → Timer
prompt t = record t { armed = true; queue = []; place = timing }

abbrev two_messages : List ((Timer → Timer) × List Bytes)
two_messages = (prompt, codes "NONE:::x" ∷ []) ∷ (prompt, codes "no job" ∷ []) ∷ []

abbrev too_late : Timer → Timer
too_late t = time_out dump (prompt t)

too_late_keeps : (t : Timer) → (too_late t).working ≡ t.working
unfolding time_out
too_late_keeps t = refl
