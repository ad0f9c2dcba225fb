-- ===== src/Broker/Life/Routed.antt =====
-- What a broker has sent when `main` is over, or while it runs.
use powerhoc.Broker.{Broker, Event, new, route, shut, start_broker, stop_broker}
use powerhoc.Broker.Life.{
  Options, Run, finally, ended, run_broker, serve_broker, main, IsShut, shut-IsShut,
  stop_broker-shut, route_started, start_started,
}
use powerhoc.Broker.Routing.{TakesAll, all_front, all_back, route_sends, route-pid, all-append}
use powerhoc.Common.{
  ℕ, Bool, true, false, List, [], ◌++◌, Option, none, some, Bytes, ◌≡◌, ◌≢◌, refl, ◌∙◌, sym, arith,
}
use powerhoc.Exc.{Result, ok, err}
use powerhoc.Loop.{Round}

-- The messages that were handled: those of the flush in `stop` too, once it has been called.
abbrev pub handled : Run → Option (Result ℕ) → List Event
handled run none = run.events
handled run (some r) = run.events ++ run.flush.pending

-- `main` has a broker, which has sent what is due for these messages, and which is shut down if it
-- has ended and the flush did not raise.
pub record HasRouted (pid : ℕ) (run : Run) (res : Option (Result ℕ) × Option Broker) : Type 0 where
  pub broker : Broker
  pub made : res.1 ≡ some broker
  pub front_got : broker.front_sent ≡ all_front pid (handled run res.0)
  pub back_got : broker.back_sent ≡ all_back (handled run res.0)
  pub is_shut : res.0 ≢ none → run.flush.flushed ≡ ok tt → IsShut broker

start_keeps :
    (rounds : List (Round × Bool)) (b : Broker)
    → ((start_broker rounds b).1.front_sent ≡ b.front_sent)
      × ((start_broker rounds b).1.back_sent ≡ b.back_sent)
      × ((start_broker rounds b).1.pid ≡ b.pid)
unfolding start_broker
start_keeps rounds b = ground arith

module _ (pid : ℕ) (run : Run) (takes : TakesAll run.streams) where
  -- `b` has just the messages of `events` behind it.
  record Has (events : List Event) (b : Broker) : Type 0 where
    front : b.front_sent ≡ all_front pid events
    back : b.back_sent ≡ all_back events
    running : b.started ≡ true
    same_pid : b.pid ≡ pid

  shut-HasRouted :
      (r : Result ℕ) (b : Broker) (f : Result (Unit {0}))
      → run.flush.flushed ≡ f
      → Has (run.events ++ run.flush.pending) b
      → HasRouted pid run ((finally r (shut f b)).0, some (finally r (shut f b)).1)
  unfolding finally shut
  shut-HasRouted r b (ok u) e v = record {
    broker = (shut (ok tt) b).1;
    made = refl;
    front_got = v.front;
    back_got = v.back;
    is_shut = λ n q. shut-IsShut b;
  }
  shut-HasRouted r b (err x) e v = record {
    broker = b;
    made = refl;
    front_got = v.front;
    back_got = v.back;
    is_shut = λ n q. cc (e, q);
  }

  flush-Has :
      (b : Broker)
      → Has run.events b
      → Has (run.events ++ run.flush.pending) (route run.streams run.flush.pending b)
  flush-Has b v =
      let (front, back) = route_sends run.streams takes run.flush.pending b in
      let (fs, ks) = all-append pid run.events run.flush.pending in
      record {
        front = front ∙ rw (v.front, v.same_pid) (sym fs);
        back = back ∙ rw v.back (sym ks);
        running = route_started run.streams run.flush.pending b ∙ v.running;
        same_pid = route-pid run.streams takes run.flush.pending b ∙ v.same_pid;
      }

  finally-HasRouted :
      (r : Result ℕ) (b : Broker)
      → Has run.events b
      → (let s = stop_broker run.streams run.flush b in
          HasRouted pid run ((finally r s).0, some (finally r s).1))
  finally-HasRouted r b v = rw (stop_broker-shut run.streams run.flush b v.running) (
      shut-HasRouted r (route run.streams run.flush.pending b) run.flush.flushed refl
        (flush-Has b v))

  ended-HasRouted :
      (interrupted : Bool) (r : Option (Result (Unit {0}))) (b : Broker)
      → Has run.events b
      → HasRouted pid run (
        (ended run.streams run.flush interrupted r b).0,
        some (ended run.streams run.flush interrupted r b).1,
      )
  unfolding ended
  ended-HasRouted true r b v = finally-HasRouted (ok 0) b v
  ended-HasRouted false none b v = record {
    broker = b;
    made = refl;
    front_got = v.front;
    back_got = v.back;
    is_shut = λ n. absurd (n refl);
  }
  ended-HasRouted false (some (ok u)) b v = finally-HasRouted (ok 0) b v
  ended-HasRouted false (some (err e)) b v = finally-HasRouted (err e) b v

  serve-HasRouted :
      (ipc : List Bytes) (b : Broker)
      → b.front_sent ≡ []
      → b.back_sent ≡ []
      → b.pid ≡ pid
      → HasRouted pid run (serve_broker run (ipc, ok b))
  unfolding serve_broker run_broker
  serve-HasRouted ipc b no_front no_back same =
      let b' = (start_broker run.rounds b).1 in
      let (f, k, p) = start_keeps run.rounds b in
      let (front, back) = route_sends run.streams takes run.events b' in
      ended-HasRouted run.keyboard_interrupt _ (route run.streams run.events b') (record {
        front = front ∙ rw (f, p) (rw (no_front, same) refl);
        back = back ∙ rw k (rw no_back refl);
        running = route_started run.streams run.events b' ∙ start_started run.rounds b;
        same_pid = route-pid run.streams takes run.events b' ∙ p ∙ same;
      })

  new-HasRouted :
      (bound : Result (Unit {0})) (frontend backend heartbeat : Bytes)
      → bound ≡ ok tt
      → HasRouted pid run (serve_broker run (new pid (ok none) bound frontend backend heartbeat))
  unfolding new
  new-HasRouted bound f k h e = rw e (serve-HasRouted _ _ refl refl refl)

  -- If `main` is to serve, no other broker answers the ping, the sockets can be bound, and both
  -- streams take every message: `main` makes a broker, which has sent to the front, in order, the
  -- workers' messages and an answer to each ping, and to the back the other messages of the front,
  -- nothing else, those of the flush in `stop` included once it has been called; and which is shut
  -- down if its event loop has ended and that flush did not raise.
  pub main-HasRouted :
      (o : Options) (purged : Result (Unit {0}))
      → o.purge_ghosts ≡ false
      → o.check ≡ false
      → run.bound ≡ ok tt
      → HasRouted pid run (main o pid purged (ok none) run)
  unfolding main
  main-HasRouted o purged p c bound =
      rw (p, main) (rw c (new-HasRouted run.bound o.frontend o.backend o.heartbeat bound))
