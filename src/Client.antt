-- ===== src/Client.antt =====
-- powerhose/client.py: `Client`. Times are in milliseconds; the lock makes the sends and polls of one
-- call one step, so a method is a function on the state. Seconds are whole numbers.
pub mod Overflow
pub mod Recovery
pub mod Answered
use powerhoc.Common.{
  ℕ, zero, suc, ◌+◌, ◌-◌, ◌*◌, Bool, true, false, Option, none, some, Bytes, codes, ltb, ◌==◌, [],
  ◌≡◌, ◌↔◌, refl, arith, if◌then◌else◌,
}
use powerhoc.Dict.{Dict, Eq, get, set}
use powerhoc.Exc.{Errno, Result, ok, err, timeout_error, execution_error, zmq_error, value_error}
use powerhoc.Job.{Job, new, serialize}
use powerhoc.Reply.{extract_result}
use powerhoc.Retry.{Attempt, done, failed, Socket, send, recv, poll_loop}
use powerhoc.Text.Decimal.{ℤ, pos, negsuc, to_int}

abbrev pub same_int : ℤ → ℤ → Bool
same_int (pos a) (pos b) = a == b
same_int (negsuc a) (negsuc b) = a == b
same_int _ _ = false

pub same_int_iff : (a b : ℤ) → (same_int a b ≡ true) ↔ (a ≡ b)
same_int_iff (pos a) (pos b) = ground arith
same_int_iff (pos a) (negsuc b) = ground arith
same_int_iff (negsuc a) (pos b) = ground arith
same_int_iff (negsuc a) (negsuc b) = ground arith

instance abbrev pub int_eq : Eq ℤ
int_eq = record { same = same_int; same_iff = same_int_iff }

-- The fields that the methods read or change, beside the socket.
pub record Client : Type 0 where
  pub timeout : ℕ
  pub timeout_max_overflow : ℕ
  pub timeout_overflows : ℕ
  pub timeout_counters : Dict ℤ ℕ

-- `__init__`: the arguments are in seconds.
unfoldable pub connect : ℕ → ℕ → ℕ → Client
connect timeout timeout_max_overflow timeout_overflows = record {
  timeout = timeout * 1000;
  timeout_max_overflow = timeout_max_overflow * 1000;
  timeout_overflows = timeout_overflows;
  timeout_counters = [];
}

-- `Client()`, with its defaults, of which 7.5 is no whole number of seconds
abbrev pub default_client : Client
default_client = record {
  timeout = 5000;
  timeout_max_overflow = 7500;
  timeout_overflows = 1;
  timeout_counters = [];
}

-- `defaultdict(int)`: a key that is not there reads as 0.
unfoldable pub counter : Client → ℤ → ℕ
unfolding get
counter c pid = elim (get pid c.timeout_counters) [ none ↦ 0 | some n ↦ n ]

unfoldable pub set_counter : ℤ → ℕ → Client → Client
unfolding set
set_counter pid n c = record c { timeout_counters = set pid n c.timeout_counters }

-- `if not res: raise ExecutionError(data)`, else `return data`
abbrev pub checked : Bool → Bytes → Result Bytes
checked true text = ok text
checked false text = err (execution_error text)

-- What `execute` does with an answer and the time that it took.
unfoldable pub settle : Client → ℕ → ℤ → Bool → Bytes → Result Bytes × Client
unfolding counter set_counter
settle c duration pid res text =
    if ltb c.timeout duration
    then (let c' = set_counter pid (counter c pid + 1) c in
        if ltb c.timeout_overflows (counter c' pid)
        then (err timeout_error, c')
        else (checked res text, c'))
    else (checked res text, set_counter pid 0 c)

-- What `execute` takes: a `Job`, or a string that becomes one.
pub data JobArg : Type 0 where
  text : Bytes → JobArg
  job : Job → JobArg

unfoldable pub as_job : JobArg → Job
unfolding new
as_job (text t) = new t none
as_job (job j) = j

-- `if timeout is None: timeout = self.timeout_max_overflow`
unfoldable pub or_max : Client → Option ℕ → ℕ
or_max c none = c.timeout_max_overflow
or_max c (some t) = t

-- A call's result is `none` if signals interrupt more polls than the fuel allows.
abbrev pub Call : Type 0 → Type 0 → Type 0
Call S A = S → Option (Result A) × S

module _ {S : Type 0} (socket : Socket S) (max_retries fuel : ℕ) where
  -- `extract_result(recv(self.master))`
  unfoldable pub receive : Call S (ℤ × Bool × Bytes)
  unfolding recv extract_result
  receive s =
      let (r, s') = recv socket max_retries s in
      elim r [ ok wire ↦ (some (extract_result wire), s') | err e ↦ (some (err e), s') ]

  unfoldable pub after_poll : Option (Attempt Bool) → Call S (ℤ × Bool × Bytes)
  unfolding receive
  after_poll none s = (none, s)
  after_poll (some (failed e)) s = (some (err (zmq_error e)), s)
  after_poll (some (done false)) s = (some (err timeout_error), s)
  after_poll (some (done true)) s = receive s

  -- `_execute`
  unfoldable pub execute_once : Client → JobArg → Option ℕ → Call S (ℤ × Bool × Bytes)
  unfolding send poll_loop after_poll as_job or_max serialize
  execute_once c arg timeout s =
      let (sent, s') = send socket max_retries (serialize (as_job arg)) false s in
      elim sent [
        | err e ↦ (some (err e), s')
        | ok u ↦
            let (polled, s'') = poll_loop socket fuel (or_max c timeout) s' in after_poll polled s''
      ]

  -- `execute`; `timed` reads the clock before and after, and an exception passes through it.
  unfoldable pub execute : Client → JobArg → Option ℕ → S → Option (Result Bytes) × Client × S
  unfolding execute_once settle or_max
  execute c arg timeout s =
      let (answer, s') = execute_once c arg (some (or_max c timeout)) s in
      elim answer [
        | none ↦ (none, c, s')
        | some (err e) ↦ (some (err e), c, s')
        | some (ok (pid, res, data_)) ↦
            let (r, c') = settle c (socket.now s' - socket.now s) pid res data_ in (some r, c', s')
      ]

  -- `int(res)` in `ping`: only a `TypeError` is caught, and a text that is no number is a `ValueError`.
  unfoldable pub ping_answer : Result Bytes → Result (Option ℤ)
  unfolding to_int
  ping_answer (err e) = err e
  ping_answer (ok wire) = elim (to_int wire) [ none ↦ err value_error | some pid ↦ ok (some pid) ]

  unfoldable pub ping_poll : Option (Attempt Bool) → Call S (Option ℤ)
  unfolding recv ping_answer
  ping_poll none s = (none, s)
  ping_poll (some (failed e)) s = (some (ok none), s)
  ping_poll (some (done false)) s = (some (ok none), s)
  ping_poll (some (done true)) s =
      let (r, s') = recv socket max_retries s in (some (ping_answer r), s')

  -- `ping`
  unfoldable pub ping : ℕ → Call S (Option ℤ)
  unfolding send poll_loop ping_poll
  ping timeout s =
      let (sent, s') = send socket max_retries (codes "PING") false s in
      elim sent [
        | err e ↦ (some (err e), s')
        | ok u ↦
            let (polled, s'') = poll_loop socket fuel (timeout * 1000) s' in ping_poll polled s''
      ]
