-- ===== src/Timer.antt =====
-- `ExecutionTimer` of powerhose/worker.py: the worker's thread and the timer's thread share a queue.
-- `job_starts` and `job_ends` are one step each, and so is each message that the timer's thread takes.
-- A timeout is one step, as if `dump_stacks` took no time; Worker/Threads gives it time.
pub mod Phase
pub mod Drift
pub mod Stop
use powerhoc.Common.{
  ◌≡◌, arith, Bool, true, false, List, [], ◌∷◌, ◌++◌, Option, none, some, Bytes, if◌then◌else◌,
}
use powerhoc.Exc.{Result, ok, err, value_error}

-- The messages: `'STARTING'` and `'DONE'`.
pub data Msg : Type 0 where
  starting finished : Msg

-- Where the timer's thread is in `run`: at `queue.get()`, at `queue.get(timeout=…)`, or out of the
-- loop.
pub data Place : Type 0 where
  idle timing over : Place

pub record Timer : Type 0 where
  pub armed : Bool
  pub running : Bool
  pub timed_out : Bool
  pub working : Bool
  pub last_dump : Option (List Bytes)
  pub queue : List Msg
  pub place : Place

-- `queue.put`
unfoldable pub put : Msg → Timer → Timer
put m t = record t { queue = t.queue ++ m ∷ [] }

-- `__init__`
unfoldable pub new : Timer
new = record {
  armed = false;
  running = false;
  timed_out = false;
  working = false;
  last_dump = none;
  queue = [];
  place = idle;
}

-- The beginning of `run`, in the timer's thread
unfoldable pub run_begins : Timer → Timer
run_begins t = record t { running = true }

unfoldable pub job_starts : Timer → Result Timer
unfolding put
job_starts t =
    if t.working
    then err value_error
    else ok (put starting (record t { working = true; timed_out = false }))

unfoldable pub job_ends : Timer → Result Timer
unfolding put
job_ends t =
    if t.working
    then ok (record (put finished t) { working = false; armed = false })
    else err value_error

-- The test of `while self.running`.
abbrev pub next_place : Bool → Place
next_place true = idle
next_place false = over

-- One step of `run` that takes a message: it arms at the first `get`, and disarms at the second.
unfoldable pub take_msg : Timer → List Msg → Place → Timer
take_msg t rest idle = record t { queue = rest; armed = true; place = timing }
take_msg t rest timing = record t { queue = rest; armed = false; place = next_place t.running }
take_msg t rest over = t

-- `except Queue.Empty`: the second `get` found no message for `timeout` seconds.
unfoldable pub time_out : List Bytes → Timer → Timer
time_out dump t = record t {
  last_dump = some dump;
  timed_out = true;
  armed = false;
  place = next_place t.running;
}

-- `stop`, up to the `join`
unfoldable pub stop : Timer → Timer
unfolding put
stop t =
    let t' = record t { running = false } in put finished (if t'.armed then t' else put starting t')

-- The steps of the two threads. A message is taken where one is there; a timeout happens where the
-- thread waits for the second message and none is there.
pub data Step (t u : Timer) : Type 0 where
  starts : job_starts t ≡ ok u → Step t u
  ends : job_ends t ≡ ok u → Step t u
  takes : (m : Msg) (rest : List Msg) → t.queue ≡ m ∷ rest → u ≡ take_msg t rest t.place → Step t u
  times_out : (dump : List Bytes) → t.place ≡ timing → t.queue ≡ [] → u ≡ time_out dump t → Step t u

-- No job runs out of time in the step.
abbrev pub IsCalm : {t u : Timer} → Step t u → Type 0
IsCalm (starts e) = Unit
IsCalm (ends e) = Unit
IsCalm (takes m rest e f) = Unit
IsCalm (times_out dump e f g) = ⊥

-- The states that are reached without a timeout.
pub data Calmly (t : Timer) : Timer → Type 0 where
  here : Calmly t t
  next : {u w : Timer} → Calmly t u → (st : Step u w) → IsCalm st → Calmly t w

pub job_starts_ok :
    (t u : Timer)
    → job_starts t ≡ ok u
    → (t.working ≡ false) × (put starting (record t { working = true; timed_out = false }) ≡ u)
unfolding job_starts
job_starts_ok t u e = ground arith

pub job_ends_ok :
    (t u : Timer)
    → job_ends t ≡ ok u
    → (t.working ≡ true) × (record (put finished t) { working = false; armed = false } ≡ u)
unfolding job_ends
job_ends_ok t u e = ground arith
