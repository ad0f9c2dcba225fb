-- ===== src/Tests/Beats.antt =====
-- A worker's stethoscope in time, with three retries, as it has by default. Its delay is a second and
-- the beats of a broker come every two seconds, also as by default, unless said otherwise.
use powerhoc.Exc.{ok}
use powerhoc.Common.{codes, ℕ, ◌+◌, none, ◌≤◌, true, false, [], ◌∷◌, some, ◌≡◌, refl, arith}
use powerhoc.Heartbeat
use powerhoc.Heartbeat.{Heartbeat, ping, halt, Stethoscope, tick, beat, listen}
use powerhoc.Heartbeat.Timing.{Timed, events, now, last_beat, running-last_beat}
use powerhoc.Timer
use powerhoc.Worker.Life.{Process}
use powerhoc.Worker.Lost.{hear_all}
use powerhoc.System.Pulse.{Pulse, at_start, Reach, here, next, pings, arrives, ticks}
use powerhoc.System.Pulse.Kept.{Reach-kept}
use powerhoc.System.Pulse.Lost.{Reach-lost}
use powerhoc.System.Pulse.Tight.{Reach-tight}

abbrev listener : Stethoscope
listener = record {
  running = true;
  tries = 0;
  retries = 3;
  stop_loop = true;
  loop_stopped = false;
  has_onbeat = true;
  beats = 0;
  losses = 0;
}

-- The newest event comes first.
abbrev second_and_half : Timed
second_and_half =
    (3000, tick) ∷ (3000, beat) ∷ (2000, tick) ∷ (1500, beat) ∷ (1000, tick) ∷ (0, beat) ∷ []

abbrev a_worker : Process
a_worker = record {
  host = record {
    target = λ j. ok j.job_data;
    report = λ e. codes "failed";
    deliver = λ res. ok tt;
  };
  worker = record {
    pid = 7;
    running = true;
    timer = Timer.new;
    loop_stopped = false;
    sent = [];
    errors = [];
    unsent = 0;
  };
  ping = listener;
  context_open = true;
  delayed_exit = none;
  params = [];
  published = [];
}

-- A broker that beats every two seconds, at most, beats that take half a second, at most, and ticks
-- every second and a half, at least.
abbrev server : Heartbeat
server = record { running = false; ticking = false; open_ = true; published = [] }

abbrev ticked : Pulse
ticked = record (at_start 2000 500 1500 0 server) { clock = 1500; heard = (1500, tick) ∷ [] }

abbrev pinged : Pulse
pinged = record ticked {
  pong = ping (Heartbeat.start server);
  in_flight = 2000 ∷ [];
  last = 2000;
  clock = 2000;
}

abbrev arrived : Pulse
arrived = record pinged { in_flight = []; clock = 2300; heard = (2300, beat) ∷ ticked.heard }

to_arrived : Reach 2000 500 1500 0 (at_start 2000 500 1500 0 server) arrived
unfolding Heartbeat.start
to_arrived =
    next
      (next {q = ticked}
        (next here (ticks 1500 (omega arith, λ on. omega arith, tt) (omega arith) refl))
        (pings 2000 (omega arith, λ on. omega arith, tt) refl refl))
      (arrives 2300 2000 [] (omega arith, λ on. omega arith, (omega arith, tt)) refl refl)

Reach-kept_example : (hear_all (events arrived.heard) a_worker).worker ≡ a_worker.worker
unfolding ping Heartbeat.start
Reach-kept_example =
    Reach-kept 2000 500 1500 0 server arrived a_worker refl (omega arith) to_arrived refl

abbrev stopped : Pulse
stopped = record arrived { pong = halt arrived.pong }

abbrev after : ℕ → Pulse → Pulse
after t p = record p { clock = t; heard = (t, tick) ∷ p.heard }

abbrev quiet : Pulse
quiet = after 6000 (after 4500 (after 3000 stopped))

to_quiet : Reach 2000 500 1500 0 stopped quiet
unfolding halt
to_quiet =
    next {q = after 4500 (after 3000 stopped)}
      (next {q = after 3000 stopped}
        (next here (ticks 3000 (omega arith, λ on. cc, tt) (omega arith) refl))
        (ticks 4500 (omega arith, λ on. cc, tt) (omega arith) refl))
      (ticks 6000 (omega arith, λ on. cc, tt) (omega arith) refl)

Reach-lost_example :
    ((hear_all (events quiet.heard) a_worker).worker.running ≡ false)
    × ((hear_all (events quiet.heard) a_worker).worker.loop_stopped ≡ true)
    × ((hear_all (events quiet.heard) a_worker).ping.running ≡ false)
unfolding halt
Reach-lost_example =
    Reach-lost 2000 500 1500 0 stopped quiet a_worker refl refl to_quiet (omega arith) (omega arith)

running-last_beat_example : now 0 second_and_half + 1000 ≤ last_beat 0 second_and_half + 3000
running-last_beat_example =
    running-last_beat (some (λ k. true)) listener 0 1000 second_and_half (λ k. refl) refl
      (omega arith)
      (omega arith, (omega arith, (omega arith, (omega arith, (omega arith, (omega arith, tt))))))
      (unfold listen in refl)

Reach-tight_example :
    (q : Pulse) × Reach 2000 0 1000 0 (at_start 2000 0 1000 0 server) q
    × (q.pong.ticking ≡ true)
    × ((hear_all (events q.heard) a_worker).worker.running ≡ false)
Reach-tight_example = Reach-tight 2000 0 1000 0 server a_worker (omega arith) (omega arith)
