-- ===== src/Tests/Pings.antt =====
-- A client that pings a broker.
use powerhoc.Common.{[], ◌∷◌, ◌++◌, true, false, some, codes, ◌≡◌, refl}
use powerhoc.Broker.{Broker, Streams, handle_recv_front}
use powerhoc.Broker.Routing.{TakesAll}
use powerhoc.Client.{ping}
use powerhoc.Exc.{ok}
use powerhoc.Retry.{send, recv, poll_loop}
use powerhoc.System.Pings.{CarriesPing, ping-handle_recv_front}
use powerhoc.Tests.Fixtures.{Wire, wire_socket}
use powerhoc.Text.Decimal.{pos, format}

abbrev pinging : Wire
pinging = record { awaits = false; inbox = some (codes "42"); clock = 0 }

abbrev pinged : Wire
pinged = record { awaits = false; inbox = some (codes "42"); clock = 40 }

carried_ping : CarriesPing wire_socket 3 5 1 (format 42) pinging pinged
carried_ping = record {
  taken = record pinging { awaits = true };
  polled = record pinging { awaits = true; clock = 40 };
  sends = unfold send in refl;
  polls = unfold poll_loop in refl;
  receives = unfold recv format in refl;
}

abbrev both_open : Streams
both_open = record { front = λ msg. ok tt; back = λ msg. ok tt }

both_take : TakesAll both_open
both_take = record { front_takes = λ msg. refl; back_takes = λ msg. refl }

abbrev the_broker : Broker
the_broker = record {
  pid = 42;
  started = true;
  pong = record { running = true; ticking = true; open_ = true; published = [] };
  loop_stopped = false;
  context_open = true;
  front_sent = [];
  back_sent = [];
  logged = 0;
}

ping-handle_recv_front_example :
    (handle_recv_front both_open ((codes "c1" ∷ [] ∷ []) ++ codes "PING" ∷ []) the_broker
      ≡ (ok tt, record the_broker { front_sent = ((codes "c1" ∷ [] ∷ []) ++ format 42 ∷ []) ∷ [] }))
    × (ping wire_socket 3 5 1 pinging ≡ (some (ok (some (pos 42))), pinged))
ping-handle_recv_front_example =
    ping-handle_recv_front wire_socket 3 5 1 pinging pinged both_open both_take
      (codes "c1" ∷ [] ∷ []) the_broker carried_ping
