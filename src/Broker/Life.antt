-- ===== src/Broker/Life.antt =====
-- A broker from its construction to its end: `main` of powerhose/broker.py, without what only logs.
pub mod Routed
use powerhoc.Common.{
  ℕ, Bool, true, false, List, [], ◌∷◌, Option, none, some, Bytes, ◌≡◌, ◌≢◌, refl, ◌∙◌, arith,
  if◌then◌else◌,
}
use powerhoc.Broker.{
  Broker, Streams, Msg, Event, from_front, from_back, handle_recv_front, handle_recv_back,
  front_parts, to_front, to_back, log_error, unsnoc, handle, route, new, Flush, shut, start_broker,
  stop_broker,
}
use powerhoc.Exc.{Exn, Result, ok, err, duplicate_broker}
use powerhoc.Heartbeat.{halt}
use powerhoc.Loop.{Round}

pub record Options : Type 0 where
  pub purge_ghosts : Bool
  pub check : Bool
  pub frontend : Bytes
  pub backend : Bytes
  pub heartbeat : Bytes

-- What happens to a broker: how its sockets are bound, the messages while `start` runs, the ends of
-- the rounds of the event loop, whether a `KeyboardInterrupt` comes out of it, and the flush of `stop`.
pub record Run : Type 0 where
  pub streams : Streams
  pub events : List Event
  pub rounds : List (Round × Bool)
  pub keyboard_interrupt : Bool
  pub bound : Result (Unit {0})
  pub flush : Flush

-- The `finally`: what is returned or raised, unless `stop` raises.
unfoldable pub finally : Result ℕ → Result (Unit {0}) × Broker → Option (Result ℕ) × Broker
finally r (ok u, b) = (some r, b)
finally r (err e, b) = (some (err e), b)

-- What `main` returns for the end of `start`, and the broker behind the `finally`; `none` while the
-- event loop runs.
unfoldable pub ended :
    Streams → Flush → Bool → Option (Result (Unit {0})) → Broker → Option (Result ℕ) × Broker
unfolding stop_broker finally
ended streams flush true r b = finally (ok 0) (stop_broker streams flush b)
ended streams flush false none b = (none, b)
ended streams flush false (some (ok u)) b = finally (ok 0) (stop_broker streams flush b)
ended streams flush false (some (err e)) b = finally (err e) (stop_broker streams flush b)

unfoldable pub run_broker : Run → Broker → Option (Result ℕ) × Broker
unfolding start_broker route ended
run_broker run b =
    let (r, b') = start_broker run.rounds b in
    ended run.streams run.flush run.keyboard_interrupt r (route run.streams run.events b')

-- The handler for a `DuplicateBrokerError`, which returns 1
unfoldable pub refused : Exn → Result ℕ
refused (duplicate_broker pid) = ok 1
refused e = err e

-- The construction, and what follows
unfoldable pub serve_broker : Run → List Bytes × Result Broker → Option (Result ℕ) × Option Broker
unfolding run_broker refused
serve_broker run (ipc, err e) = (some (refused e), none)
serve_broker run (ipc, ok b) = let (r, b') = run_broker run b in (r, some b')

-- `main`, in a process with this id: `purged` is how `kill_ghost_brokers` ends, `pinged` is how
-- `verify_broker` does on the frontend.
unfoldable pub main :
    Options
    → ℕ
    → Result (Unit {0})
    → Result (Option Bytes)
    → Run
    → Option (Result ℕ) × Option Broker
unfolding serve_broker new
main o pid purged pinged run =
    if o.purge_ghosts
    then (elim purged [ ok u ↦ (some (ok 0), none) | err e ↦ (some (err e), none) ])
    else if o.check
    then (elim pinged [ ok found ↦ (some (ok 0), none) | err e ↦ (some (err e), none) ])
    else serve_broker run (new pid pinged run.bound o.frontend o.backend o.heartbeat)

-- A broker that was shut down.
pub record IsShut (b : Broker) : Type 0 where
  pub not_started : b.started ≡ false
  pub loop_left : b.loop_stopped ≡ true
  pub mute : b.pong.running ≡ false
  pub not_ticking : b.pong.ticking ≡ false
  pub closed : b.context_open ≡ false

front_parts_started :
    (streams : Streams) (parts : Option (Msg × Bytes)) (msg : Msg) (b : Broker)
    → (front_parts streams parts msg b).1.started ≡ b.started
unfolding front_parts to_front to_back log_error
front_parts_started streams none msg b = refl
front_parts_started streams (some (envelope, last)) msg b = ground arith

handle_started :
    (streams : Streams) (e : Event) (b : Broker) → (handle streams e b).1.started ≡ b.started
unfolding handle handle_recv_front handle_recv_back to_front log_error
handle_started streams (from_front msg) b = front_parts_started streams (unsnoc msg) msg b
handle_started streams (from_back msg) b = ground arith

pub route_started :
    (streams : Streams) (events : List Event) (b : Broker)
    → (route streams events b).started ≡ b.started
unfolding route
route_started streams [] b = refl
route_started streams (e ∷ events) b =
    route_started streams events (handle streams e b).1 ∙ handle_started streams e b

pub start_started :
    (rounds : List (Round × Bool)) (b : Broker) → (start_broker rounds b).1.started ≡ true
unfolding start_broker
start_started rounds b = ground arith

pub shut-IsShut : (b : Broker) → IsShut (shut (ok tt) b).1
unfolding shut halt
shut-IsShut b = record {
  not_started = refl;
  loop_left = refl;
  mute = refl;
  not_ticking = refl;
  closed = refl;
}

pub stop_broker-shut :
    (streams : Streams) (flush : Flush) (b : Broker)
    → b.started ≡ true
    → stop_broker streams flush b ≡ shut flush.flushed (route streams flush.pending b)
unfolding stop_broker
stop_broker-shut streams flush b h = ground (arith, h)

-- The ways in which `main` ends when it is to serve.
pub data Exits (pinged : Result (Option Bytes)) (run : Run)
    (res : Option (Result ℕ) × Option Broker) : Type 0 where
  other_broker :
      (pid : Bytes) → pinged ≡ ok (some pid) → res ≡ (some (ok 1), none) → Exits pinged run res
  ping_raised : (e : Exn) → pinged ≡ err e → res ≡ (some (refused e), none) → Exits pinged run res
  not_bound :
      (e : Exn)
      → pinged ≡ ok none
      → run.bound ≡ err e
      → res ≡ (some (refused e), none)
      → Exits pinged run res
  still_runs : pinged ≡ ok none → run.bound ≡ ok tt → res.0 ≡ none → Exits pinged run res
  shut_down :
      (r : Result ℕ) (b : Broker)
      → pinged ≡ ok none
      → run.bound ≡ ok tt
      → run.flush.flushed ≡ ok tt
      → r ≢ ok 1
      → res ≡ (some r, some b)
      → IsShut b
      → Exits pinged run res
  left_open :
      (e : Exn) (b : Broker)
      → pinged ≡ ok none
      → run.bound ≡ ok tt
      → run.flush.flushed ≡ err e
      → res ≡ (some (err e), some b)
      → b.started ≡ true
      → Exits pinged run res

module _ (run : Run) (bound : run.bound ≡ ok tt) where
  shut-Exits :
      (r : Result ℕ) (b : Broker) (f : Result (Unit {0}))
      → r ≢ ok 1
      → b.started ≡ true
      → run.flush.flushed ≡ f
      → Exits (ok none) run ((finally r (shut f b)).0, some (finally r (shut f b)).1)
  unfolding finally shut
  shut-Exits r b (ok u) one h e = shut_down r _ refl bound e one refl (shut-IsShut b)
  shut-Exits r b (err x) one h e = left_open x b refl bound e refl h

  finally-Exits :
      (r : Result ℕ) (b : Broker)
      → r ≢ ok 1
      → b.started ≡ true
      → (let s = stop_broker run.streams run.flush b in
          Exits (ok none) run ((finally r s).0, some (finally r s).1))
  finally-Exits r b one h = rw (stop_broker-shut run.streams run.flush b h) (
      shut-Exits r (route run.streams run.flush.pending b) run.flush.flushed one
        (route_started run.streams run.flush.pending b ∙ h) refl)

  ended-Exits :
      (interrupted : Bool) (r : Option (Result (Unit {0}))) (b : Broker)
      → b.started ≡ true
      → Exits (ok none) run (
        (ended run.streams run.flush interrupted r b).0,
        some (ended run.streams run.flush interrupted r b).1,
      )
  unfolding ended
  ended-Exits true r b h = finally-Exits (ok 0) b (λ q. cc) h
  ended-Exits false none b h = still_runs refl bound refl
  ended-Exits false (some (ok u)) b h = finally-Exits (ok 0) b (λ q. cc) h
  ended-Exits false (some (err x)) b h = finally-Exits (err x) b (λ q. cc) h

  serve-Exits : (ipc : List Bytes) (b : Broker) → Exits (ok none) run (serve_broker run (ipc, ok b))
  unfolding serve_broker run_broker
  serve-Exits ipc b = ended-Exits run.keyboard_interrupt _ _ (
      route_started run.streams run.events (start_broker run.rounds b).1
      ∙ start_started run.rounds b)

abbrev fresh : ℕ → Broker
fresh pid = record {
  pid = pid;
  started = false;
  pong = record { running = false; ticking = false; open_ = true; published = [] };
  loop_stopped = false;
  context_open = true;
  front_sent = [];
  back_sent = [];
  logged = 0;
}

new-Exits :
    (run : Run) (pid : ℕ) (pinged : Result (Option Bytes)) (bound : Result (Unit {0}))
    (frontend backend heartbeat : Bytes)
    → run.bound ≡ bound
    → Exits pinged run (serve_broker run (new pid pinged bound frontend backend heartbeat))
unfolding new serve_broker refused
new-Exits run pid (err e) bound f k h q = ping_raised e refl refl
new-Exits run pid (ok (some other)) bound f k h q = other_broker other refl refl
new-Exits run pid (ok none) (err e) f k h q = not_bound e refl q refl
new-Exits run pid (ok none) (ok u) f k h q =
    serve-Exits run q (new pid (ok none) (ok u) f k h).0 (fresh pid)

-- If `main` is to serve, it returns 1 where another broker answers the ping, without a broker of its
-- own, and raises what the ping raises, or the binding of a socket, unless that is a
-- `DuplicateBrokerError`, for which it returns 1. Otherwise it makes a broker. Once its event loop has
-- ended, in whatever way: if the flush in `stop` does not raise, `main` does not return 1, and the
-- broker is shut down; if it raises, `main` raises that, and the broker is left as started.
pub main-Exits :
    (o : Options) (pid : ℕ) (purged : Result (Unit {0})) (pinged : Result (Option Bytes))
    (run : Run)
    → o.purge_ghosts ≡ false
    → o.check ≡ false
    → Exits pinged run (main o pid purged pinged run)
unfolding main
main-Exits o pid purged pinged run p c =
    rw (p, main) (rw c (new-Exits run pid pinged run.bound o.frontend o.backend o.heartbeat refl))
