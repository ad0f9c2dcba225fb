-- ===== src/Tests/Networks.antt =====
-- A network with one client that has a job done.
use powerhoc.Common.{
  ℕ, Bool, true, false, List, [], ◌∷◌, ◌++◌, Option, none, some, Bytes, codes, refl,
}
use powerhoc.Broker.{Msg, Streams}
use powerhoc.Broker.Routing.{TakesAll}
use powerhoc.Exc.{ok}
use powerhoc.Job.{Job, serialize}
use powerhoc.Network.{
  job, quiet, awaiting, Frames, IsFraming, Station, Network, set_call, asks, goes_up, Reach, here,
  next, relay_front,
}
use powerhoc.Network.Keeps.{IsSound}
use powerhoc.Network.Service.{Service, IsQuiet, Reach-Service, Reach-few}
use powerhoc.Timer.{Timer, idle}
use powerhoc.Worker.{Host}

abbrev client_envelope : ℕ → Msg
client_envelope id = (id ∷ []) ∷ [] ∷ []

abbrev to_client : Msg → Option (ℕ × Bytes)
to_client ((id ∷ []) ∷ [] ∷ part ∷ []) = some (id, part)
to_client _ = none

abbrev unwrapped : Msg → Msg × List Bytes
unwrapped (id ∷ [] ∷ parts) = (id ∷ [] ∷ [], parts)
unwrapped msg = (msg, [])

abbrev plain : Frames
plain = record { envelope = client_envelope; addressee = to_client; opened = unwrapped }

plain_framing : IsFraming plain
plain_framing = record { addressed = λ id part. refl; opens = λ id part. refl }

abbrev open_ends : Streams
open_ends = record { front = λ msg. ok tt; back = λ msg. ok tt }

takes_all : TakesAll open_ends
takes_all = record { front_takes = λ msg. refl; back_takes = λ msg. refl }

abbrev echo_host : Host
echo_host = record {
  target = λ j. ok j.job_data;
  report = λ e. codes "failed";
  deliver = λ res. ok tt;
}

abbrev rested : Timer
rested = record {
  armed = false;
  running = true;
  timed_out = false;
  working = false;
  last_dump = none;
  queue = [];
  place = idle;
}

abbrev one_station : Bool → Station
one_station owes = record {
  worker = record {
    pid = 7;
    running = true;
    timer = rested;
    loop_stopped = false;
    sent = [];
    errors = [];
    unsent = 0;
  };
  owes = owes;
}

abbrev first : Network
first = record {
  calls = λ id. quiet;
  up = [];
  down = [];
  back = [];
  out = [];
  broker = record {
    pid = 42;
    started = true;
    pong = record { running = true; ticking = true; open_ = true; published = [] };
    loop_stopped = false;
    context_open = true;
    front_sent = [];
    back_sent = [];
    logged = 0;
  };
  stations = one_station false ∷ [];
}

first-IsQuiet : IsQuiet 42 first
first-IsQuiet = record {
  this_broker = refl;
  no_up = refl;
  no_down = refl;
  no_back = refl;
  no_out = refl;
  all_ready = (refl, tt);
}

abbrev small_job : Job
small_job = record { job_data = codes "x"; headers = [] }

abbrev asked_once : Network
asked_once = record first {
  calls = set_call 1 (awaiting (job small_job)) first.calls;
  up = (client_envelope 1 ++ serialize small_job ∷ []) ∷ [];
}

way_asked : Reach open_ends echo_host plain first asked_once
way_asked = next here (asks 1 (job small_job) tt refl)

abbrev forwarded : Network
forwarded = record asked_once {
  up = [];
  broker = relay_front open_ends (client_envelope 1 ++ serialize small_job ∷ []) first.broker;
  down =
      (relay_front open_ends (client_envelope 1 ++ serialize small_job ∷ [])
        first.broker).back_sent;
  out =
      (relay_front open_ends (client_envelope 1 ++ serialize small_job ∷ [])
        first.broker).front_sent;
}

way_forwarded : Reach open_ends echo_host plain first forwarded
way_forwarded =
    next way_asked (goes_up [] [] (client_envelope 1 ++ serialize small_job ∷ []) refl refl)

Reach-Service_example : Service echo_host 42 first.calls forwarded.calls
Reach-Service_example =
    Reach-Service open_ends echo_host plain plain_framing 42 first forwarded first-IsQuiet
      way_forwarded

Reach-few_example : IsSound open_ends echo_host plain plain_framing 42 forwarded
Reach-few_example =
    Reach-few open_ends echo_host plain plain_framing 42 first forwarded first-IsQuiet way_forwarded
