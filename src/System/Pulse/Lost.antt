-- ===== src/System/Pulse/Lost.antt =====
-- A worker that is told to quit once its broker is silent.
use powerhoc.Common.{
  ℕ, zero, suc, ◌+◌, ◌<◌, ◌≤◌, true, false, [], ◌∷◌, ◌++◌, ◌≡◌, refl, ◌∙◌, ap, sym, arith, length,
}
use powerhoc.Heartbeat.{halt, tick}
use powerhoc.Heartbeat.Beats.{replicate}
use powerhoc.Heartbeat.Timing.{Timed, events}
use powerhoc.System.Pulse.{
  Pulse, Step, pings, arrives, ticks, halts, is_dropped, Reach, here, next, false-true,
}
use powerhoc.Worker.Life.{Process}
use powerhoc.Worker.Lost.{hear_all, hear_all-silent}

module _ (interval latency delay start : ℕ) where
  -- The broker's heartbeat is off, no beat is on its way, and the worker has heard `n` ticks since
  -- `earlier`, and nothing else.
  record Quiet (earlier : Timed) (q : Pulse) : Type 0 where
    off : q.pong.ticking ≡ false
    empty : q.in_flight ≡ []
    n : ℕ
    only_ticks : events q.heard ≡ replicate n tick ++ events earlier
    longer : length q.heard ≡ n + length earlier

  Step-Quiet :
      {p q : Pulse} (earlier : Timed)
      → Step interval latency delay start p q
      → Quiet earlier p
      → Quiet earlier q
  unfolding halt
  Step-Quiet earlier (pings t c on e) v = absurd (false-true (sym v.off ∙ on))
  Step-Quiet earlier (arrives t b rest c f e) v = cc (f, v.empty)
  Step-Quiet earlier (ticks t c l e) v = rw e (record {
    off = v.off;
    empty = v.empty;
    n = suc v.n;
    only_ticks = ap (λ h. tick ∷ h) v.only_ticks;
    longer = omega (arith, v.longer);
  })
  Step-Quiet earlier (halts e) v = rw e (record {
    off = refl;
    empty = v.empty;
    n = v.n;
    only_ticks = v.only_ticks;
    longer = v.longer;
  })
  Step-Quiet earlier (is_dropped off e) v =
      rw e (record {
        off = v.off;
        empty = refl;
        n = v.n;
        only_ticks = v.only_ticks;
        longer = v.longer;
      })

  Reach-Quiet :
      {p q : Pulse}
      → Reach interval latency delay start p q
      → p.pong.ticking ≡ false
      → p.in_flight ≡ []
      → Quiet p.heard q
  Reach-Quiet here off empty = record {
    off = off;
    empty = empty;
    n = 0;
    only_ticks = refl;
    longer = omega arith;
  }
  Reach-Quiet {p} (next r st) off empty = Step-Quiet p.heard st (Reach-Quiet r off empty)

  counted_out :
      (n : ℕ) (q : Pulse) (earlier : Timed) (w : Process)
      → events q.heard ≡ replicate n tick ++ events earlier
      → 0 < n
      → w.ping.retries ≤ n
      → ((hear_all (events q.heard) w).worker.running ≡ false)
        × ((hear_all (events q.heard) w).worker.loop_stopped ≡ true)
        × ((hear_all (events q.heard) w).ping.running ≡ false)
  counted_out zero q earlier w e h le = absurd (omega (arith, h))
  counted_out (suc n) q earlier w e h le = rw e (hear_all-silent n (events earlier) w le)

  -- Once the broker's heartbeat is off and no beat is on its way, a worker whose stethoscope has heard
  -- as many events since as it has retries, and one at least, has been told to leave its event loop,
  -- and the stethoscope has stopped.
  pub Reach-lost :
      (p q : Pulse) (w : Process)
      → p.pong.ticking ≡ false
      → p.in_flight ≡ []
      → Reach interval latency delay start p q
      → length p.heard < length q.heard
      → length p.heard + w.ping.retries ≤ length q.heard
      → ((hear_all (events q.heard) w).worker.running ≡ false)
        × ((hear_all (events q.heard) w).worker.loop_stopped ≡ true)
        × ((hear_all (events q.heard) w).ping.running ≡ false)
  Reach-lost p q w off empty r some_more enough =
      let v = Reach-Quiet r off empty in
      counted_out v.n q p.heard w v.only_ticks (omega (arith, v.longer, some_more))
        (omega (arith, v.longer, enough))
