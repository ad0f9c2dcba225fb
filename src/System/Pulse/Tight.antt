-- ===== src/System/Pulse/Tight.antt =====
-- A worker that is told to quit while its broker beats.
use powerhoc.Common.{
  ℕ, zero, suc, ◌+◌, ◌-◌, ◌*◌, ◌<◌, ◌≤◌, true, false, [], ◌∷◌, ◌++◌, ◌≡◌, refl, ap, arith,
}
use powerhoc.Heartbeat
use powerhoc.Heartbeat.{Heartbeat, ping, tick, beat}
use powerhoc.Heartbeat.Beats.{replicate}
use powerhoc.Heartbeat.Timing.{events, last_tick, whole}
use powerhoc.System.Pulse.{Pulse, pings, arrives, ticks, Reach, here, next, at_start}
use powerhoc.Worker.Life.{Process}
use powerhoc.Worker.Lost.{hear_all, hear_all-silent}

module _ (interval latency delay start : ℕ) where
  -- One beat was sent and came at the time of the first tick.
  abbrev one_beat : Heartbeat → Pulse
  one_beat pong = record (at_start interval latency delay start pong) {
    pong = ping (Heartbeat.start pong);
    last = start + delay;
    clock = start + delay;
    heard = (start + delay, beat) ∷ [];
  }

  one_beat-Reach :
      (pong : Heartbeat)
      → delay ≤ interval
      → Reach interval latency delay start
          (at_start interval latency delay start pong)
          (one_beat pong)
  unfolding Heartbeat.start
  one_beat-Reach pong le =
      next (next here (pings (start + delay) (omega arith, λ on. omega arith, tt) refl refl)) (
        arrives (start + delay) (start + delay) []
          (omega arith, λ on. omega arith, (omega arith, tt)) refl refl)

  -- The ticks from then on
  abbrev ticked : Heartbeat → ℕ → Pulse
  ticked pong zero = record (one_beat pong) {
    heard = (start + delay, tick) ∷ (one_beat pong).heard;
  }
  ticked pong (suc n) = record (ticked pong n) {
    clock = start + delay + suc n * delay;
    heard = (start + delay + suc n * delay, tick) ∷ (ticked pong n).heard;
  }

  at_ticked :
      (pong : Heartbeat) (n : ℕ)
      → ((ticked pong n).last ≡ start + delay)
        × ((ticked pong n).clock ≡ start + delay + n * delay)
        × (last_tick start (ticked pong n).heard ≡ start + delay + n * delay)
        × ((ticked pong n).in_flight ≡ [])
        × ((ticked pong n).pong.ticking ≡ true)
        × (events (ticked pong n).heard ≡ replicate (suc n) tick ++ beat ∷ [])
  unfolding ping Heartbeat.start
  at_ticked pong zero = (refl, omega arith, omega arith, refl, refl, refl)
  at_ticked pong (suc n) =
      let (last, clock, late, empty, on, same) = at_ticked pong n in
      (last, refl, refl, empty, on, ap (λ h. tick ∷ h) same)

  ticked-Reach :
      (pong : Heartbeat) (n : ℕ)
      → delay ≤ interval
      → n * delay ≤ interval
      → Reach interval latency delay start
          (at_start interval latency delay start pong)
          (ticked pong n)
  unfolding ping Heartbeat.start
  ticked-Reach pong zero le fits =
      next (one_beat-Reach pong le)
        (ticks (start + delay) (omega arith, λ on. omega arith, tt) (omega arith) refl)
  ticked-Reach pong (suc n) le fits =
      let (last, clock, late, empty, on, same) = at_ticked pong n in
      next (ticked-Reach pong n le (omega arith)) (
        ticks (start + delay + suc n * delay)
          (omega (arith, clock), λ _. omega (arith, last), rw empty tt) (omega (arith, late)) refl)

  told_to_quit :
      (pong : Heartbeat) (w : Process) (n : ℕ)
      → delay ≤ interval
      → n * delay ≤ interval
      → w.ping.retries ≤ suc n
      → (q : Pulse) × Reach interval latency delay start
          (at_start interval latency delay start pong)
          q
        × (q.pong.ticking ≡ true)
        × ((hear_all (events q.heard) w).worker.running ≡ false)
  told_to_quit pong w n le fits enough =
      let (last, clock, late, empty, on, same) = at_ticked pong n in
      (
        ticked pong n,
        ticked-Reach pong n le fits,
        on,
        rw same ((hear_all-silent n (beat ∷ []) w enough).0),
      )

  -- Where `retries - 1` delays are no more than the interval, and `retries` is 2 at least, there are
  -- beats, arrivals and ticks that make a worker quit while the broker's heartbeat is on, even if no
  -- beat is on its way for any time.
  pub Reach-tight :
      (pong : Heartbeat) (w : Process)
      → 1 < w.ping.retries
      → w.ping.retries * delay ≤ interval + delay
      → (q : Pulse) × Reach interval latency delay start
          (at_start interval latency delay start pong)
          q
        × (q.pong.ticking ≡ true)
        × ((hear_all (events q.heard) w).worker.running ≡ false)
  Reach-tight pong w two le =
      told_to_quit pong w (w.ping.retries - 1) (omega (arith, le, whole 1 w.ping.retries delay two))
        (omega (arith, le, whole (w.ping.retries - 1) w.ping.retries delay (omega (arith, two))))
        (omega (arith, two))
