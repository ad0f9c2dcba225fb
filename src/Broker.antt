-- ===== src/Broker.antt =====
-- `Broker` of powerhose/broker.py. `front_sent` and `back_sent` are the messages that its two streams
-- were given; `logged` counts the exceptions that its handlers only log.
pub mod Routing
pub mod Life
use powerhoc.Common.{
  ℕ, Bool, true, false, suc, List, [], ◌∷◌, ◌++◌, Option, none, some, Bytes, codes, beq,
  if◌then◌else◌,
}
use powerhoc.Exc.{Result, ok, err, index_error, duplicate_broker}
use powerhoc.Heartbeat
use powerhoc.Heartbeat.{Heartbeat, halt}
use powerhoc.Loop.{Round, loop}
use powerhoc.Text.{starts_with}
use powerhoc.Text.Decimal.{format}

abbrev pub Msg : Type 0
Msg = List Bytes

pub record Broker : Type 0 where
  pub pid : ℕ
  pub started : Bool
  pub pong : Heartbeat
  pub loop_stopped : Bool
  pub context_open : Bool
  pub front_sent : List Msg
  pub back_sent : List Msg
  pub logged : ℕ

-- `send_multipart` of the two streams, which may raise
pub record Streams : Type 0 where
  pub front : Msg → Result (Unit {0})
  pub back : Msg → Result (Unit {0})

-- `msg[:-1]` and `msg[-1]`; `none` for the empty message, on which `msg[-1]` is an `IndexError`
unfoldable pub unsnoc : Msg → Option (Msg × Bytes)
unsnoc [] = none
unsnoc (part ∷ []) = some ([], part)
unsnoc (part ∷ next ∷ rest) = elim (unsnoc (next ∷ rest)) [
  | none ↦ none
  | some (front, last) ↦ some (part ∷ front, last)
]

module _ (streams : Streams) where
  unfoldable pub to_front : Msg → Broker → Result (Unit {0}) × Broker
  to_front msg b = elim (streams.front msg) [
    | ok u ↦ (ok tt, record b { front_sent = b.front_sent ++ msg ∷ [] })
    | err e ↦ (err e, b)
  ]

  unfoldable pub to_back : Msg → Broker → Result (Unit {0}) × Broker
  to_back msg b = elim (streams.back msg) [
    | ok u ↦ (ok tt, record b { back_sent = b.back_sent ++ msg ∷ [] })
    | err e ↦ (err e, b)
  ]

  -- `except Exception: logger.error(…)`
  unfoldable pub log_error : Result (Unit {0}) × Broker → Result (Unit {0}) × Broker
  log_error (ok u, b) = (ok u, b)
  log_error (err e, b) = (ok tt, record b { logged = suc b.logged })

  unfoldable pub front_parts : Option (Msg × Bytes) → Msg → Broker → Result (Unit {0}) × Broker
  unfolding to_front to_back log_error
  front_parts none msg b = (err index_error, b)
  front_parts (some (envelope, last)) msg b =
      if beq last (codes "PING")
      then to_front (envelope ++ format b.pid ∷ []) b
      else log_error (to_back msg b)

  -- `_handle_recv_front`
  unfoldable pub handle_recv_front : Msg → Broker → Result (Unit {0}) × Broker
  unfolding unsnoc front_parts
  handle_recv_front msg b = front_parts (unsnoc msg) msg b

  -- `_handle_recv_back`
  unfoldable pub handle_recv_back : Msg → Broker → Result (Unit {0}) × Broker
  unfolding to_front log_error
  handle_recv_back msg b = log_error (to_front msg b)

-- What the event loop hands to the broker.
pub data Event : Type 0 where
  from_front from_back : Msg → Event

module _ (streams : Streams) where
  unfoldable pub handle : Event → Broker → Result (Unit {0}) × Broker
  unfolding handle_recv_front handle_recv_back
  handle (from_front msg) b = handle_recv_front streams msg b
  handle (from_back msg) b = handle_recv_back streams msg b

  -- The broker after some events; an exception of a handler does not stop the event loop.
  unfoldable pub route : List Event → Broker → Broker
  unfolding handle
  route [] b = b
  route (e ∷ events) b = route events (handle e b).1

-- `__init__`: the endpoints that are registered for removal, and the new broker, if the ping of the
-- frontend was not answered and did not raise, and the sockets can be bound.
unfoldable pub ipc_endpoints : List Bytes → List Bytes
unfolding starts_with
ipc_endpoints [] = []
ipc_endpoints (endpoint ∷ rest) =
    let others = ipc_endpoints rest in
    if starts_with (codes "ipc") endpoint then endpoint ∷ others else others

-- `bound` is how the two `bind` and that of the heartbeat end, which come behind the registration.
unfoldable pub new :
    ℕ
    → Result (Option Bytes)
    → Result (Unit {0})
    → Bytes
    → Bytes
    → Bytes
    → List Bytes × Result Broker
unfolding ipc_endpoints
new pid (err e) bound frontend backend heartbeat = ([], err e)
new pid (ok (some other)) bound frontend backend heartbeat = ([], err (duplicate_broker other))
new pid (ok none) bound frontend backend heartbeat = (
  ipc_endpoints (frontend ∷ backend ∷ heartbeat ∷ []),
  elim bound [
    | err e ↦ err e
    | ok u ↦ ok (record {
      pid = pid;
      started = false;
      pong = record { running = false; ticking = false; open_ = true; published = [] };
      loop_stopped = false;
      context_open = true;
      front_sent = [];
      back_sent = [];
      logged = 0;
    })
  ],
)

-- `start`: the heartbeat, the flag, and the rounds of the event loop
unfoldable pub start_broker : List (Round × Bool) → Broker → Option (Result (Unit {0})) × Broker
unfolding loop Heartbeat.start
start_broker rounds b =
    if b.started
    then (some (ok tt), b)
    else (loop true rounds, record b { pong = Heartbeat.start b.pong; started = true })

-- `_backstream.flush()`: the messages that it hands to the handlers, and how it ends
pub record Flush : Type 0 where
  pub pending : List Event
  pub flushed : Result (Unit {0})

-- What follows the flush in `stop`; an exception of the flush, which nothing catches, leaves all as it
-- is.
unfoldable pub shut : Result (Unit {0}) → Broker → Result (Unit {0}) × Broker
unfolding halt
shut (err e) b = (err e, b)
shut (ok u) b = (
  ok tt,
  record b { pong = halt b.pong; loop_stopped = true; started = false; context_open = false },
)

-- `stop`
unfoldable pub stop_broker : Streams → Flush → Broker → Result (Unit {0}) × Broker
unfolding route shut
stop_broker streams flush b =
    if b.started then shut flush.flushed (route streams flush.pending b) else (ok tt, b)
