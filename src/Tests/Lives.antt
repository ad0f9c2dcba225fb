-- ===== src/Tests/Lives.antt =====
-- How brokers and polls end.
use powerhoc.Common.{ℕ, zero, suc, Bool, true, false, [], ◌∷◌, none, some, codes, ◌≡◌, refl, arith}
use powerhoc.Broker.{from_front}
use powerhoc.Broker.Life.{Options, Run, main, Exits, main-Exits}
use powerhoc.Exc.{ok, err, zmq_error, eintr, eterm}
use powerhoc.Loop.{interrupted}
use powerhoc.Retry.{done, failed, Socket, poll_loop}
use powerhoc.Retry.Polls.{polled, poll_loop-enough}

-- A socket whose polls are interrupted until the count is down.
abbrev counted : ℕ → Bool
counted zero = true
counted (suc n) = false

abbrev before : ℕ → ℕ
before zero = zero
before (suc n) = n

abbrev noisy : Socket ℕ
noisy = record {
  send_noblock = λ msg more n. (done tt, n);
  recv_noblock = λ n. (done [], n);
  poll = λ t n. (elim (counted n) [ true ↦ done true | false ↦ failed eintr ], before n);
  sleep = λ n. n;
  now = λ n. 0;
}

poll_loop-enough_example : poll_loop noisy 5 9 2 ≡ (some (done true), polled noisy 9 3 2)
poll_loop-enough_example =
    poll_loop-enough noisy 9 2 5 2 (done true) (omega arith) (refl, (refl, tt)) refl (λ e. cc)

abbrev to_serve : Options
to_serve = record {
  purge_ghosts = false;
  check = false;
  frontend = codes "ipc:///tmp/f";
  backend = codes "ipc:///tmp/b";
  heartbeat = codes "tcp://127.0.0.1:5560";
}

abbrev a_run : Run
a_run = record {
  streams = record { front = λ msg. ok tt; back = λ msg. ok tt };
  events = from_front (codes "c1" ∷ [] ∷ codes "NONE:::x" ∷ []) ∷ [];
  rounds = (interrupted eintr, true) ∷ (interrupted eterm, true) ∷ [];
  keyboard_interrupt = false;
  bound = ok tt;
  flush = record { pending = []; flushed = err (zmq_error eterm) };
}

served : (main to_serve 42 (ok tt) (ok none) a_run).0 ≡ some (err (zmq_error eterm))
unfolding main
served = refl

main-Exits_example : Exits (ok none) a_run (main to_serve 42 (ok tt) (ok none) a_run)
main-Exits_example = main-Exits to_serve 42 (ok tt) (ok none) a_run refl refl
