-- ===== src/System/Pulse/Kept.antt =====
-- A worker that is not told to quit while its broker beats.
use powerhoc.Common.{
  ℕ, ◌+◌, ◌*◌, ◌<◌, ◌≤◌, true, List, [], ◌∷◌, ◌++◌, All, ◌≡◌, refl, ◌∙◌, sym, arith,
}
use powerhoc.Heartbeat.{Heartbeat, halt, beat}
use powerhoc.Heartbeat.Timing.{events, now, last_beat, IsSpaced, IsFed}
use powerhoc.System.Pulse.{
  Pulse, CanBe, Step, pings, arrives, ticks, halts, is_dropped, Reach, here, next, false-true,
  Step-ticking, at_start,
}
use powerhoc.Worker.Life.{Process}
use powerhoc.Worker.Lost.{hear_all, hear_all-IsFed}

module _ (interval latency delay start : ℕ) where
  -- Each beat on its way was sent within `interval` after the one in front of it.
  abbrev Chain : ℕ → List ℕ → ℕ → Type 0
  Chain d [] last = d ≡ last
  Chain d (b ∷ bs) last = (b ≤ d + interval) × Chain b bs last

  Chain-end :
      (d t last : ℕ) (bs : List ℕ)
      → Chain d bs last
      → t ≤ last + interval
      → Chain d (bs ++ t ∷ []) t
  Chain-end d t last [] e le = (omega (arith, e), refl)
  Chain-end d t last (b ∷ bs) (near, c) le = (near, Chain-end b t last bs c le)

  record Beating (p : Pulse) : Type 0 where
    in_past : now start p.heard ≤ p.clock
    spaced : IsSpaced start delay p.heard
    fed : IsFed start (interval + latency) p.heard
    came : ℕ
    before : came ≤ last_beat start p.heard
    chained : Chain came p.in_flight p.last
    sent : All (λ b. b ≤ p.clock) p.in_flight

  soon :
      (came last t beat_at : ℕ) (bs : List ℕ)
      → came ≤ beat_at
      → Chain came bs last
      → t ≤ last + interval
      → All (λ b. t ≤ b + latency) bs
      → t ≤ beat_at + (interval + latency)
  soon came last t beat_at [] le e within all = omega (arith, e)
  soon came last t beat_at (b ∷ bs) le (near, c) within (first, all) = omega arith

  All-later : (a t : ℕ) (bs : List ℕ) → a ≤ t → All (λ b. b ≤ a) bs → All (λ b. b ≤ t) bs
  All-later a t [] le all = tt
  All-later a t (b ∷ bs) le (x, all) = (omega arith, All-later a t bs le all)

  All-end : (t : ℕ) (bs : List ℕ) → All (λ b. b ≤ t) bs → All (λ b. b ≤ t) (bs ++ t ∷ [])
  All-end t [] all = (omega arith, tt)
  All-end t (b ∷ bs) (x, all) = (x, All-end t bs all)

  fed_next :
      (t : ℕ) (p : Pulse)
      → Beating p
      → CanBe interval latency delay start t p
      → p.pong.ticking ≡ true
      → t ≤ last_beat start p.heard + (interval + latency)
  fed_next t p v (later, within, all) on =
      soon v.came p.last t (last_beat start p.heard) p.in_flight v.before v.chained (within on) all

  arrives-Beating :
      (t b : ℕ) (rest : List ℕ) (p : Pulse)
      → Beating p
      → CanBe interval latency delay start t p
      → p.pong.ticking ≡ true
      → p.in_flight ≡ b ∷ rest
      → Beating (record p { in_flight = rest; clock = t; heard = (t, beat) ∷ p.heard })
  arrives-Beating t b rest p v c on f =
      let (later, within, all) = c in
      let (near, chained) : Chain v.came (b ∷ rest) p.last = rw f at v.chained in
      let (old, olds) : All (λ a. a ≤ p.clock) (b ∷ rest) = rw f at v.sent in
      record {
        in_past = omega arith;
        spaced = (omega (arith, v.in_past), v.spaced);
        fed = (fed_next t p v c on, v.fed);
        came = b;
        before = omega arith;
        chained = chained;
        sent = All-later p.clock t rest later olds;
      }

  Step-Beating :
      {p q : Pulse}
      → Step interval latency delay start p q
      → p.pong.ticking ≡ true
      → q.pong.ticking ≡ true
      → Beating p
      → Beating q
  unfolding halt
  Step-Beating {p} (pings t c on e) h k v =
      let (later, within, all) = c in
      rw e (record {
        in_past = omega (arith, v.in_past);
        spaced = v.spaced;
        fed = v.fed;
        came = v.came;
        before = v.before;
        chained = Chain-end v.came t p.last p.in_flight v.chained (within on);
        sent = All-end t p.in_flight (All-later p.clock t p.in_flight later v.sent);
      })
  Step-Beating {p} (arrives t b rest c f e) h k v = rw e (arrives-Beating t b rest p v c h f)
  Step-Beating {p} (ticks t c l e) h k v =
      let (later, within, all) = c in
      rw e (record {
        in_past = omega arith;
        spaced = (omega (arith, v.in_past), l, v.spaced);
        fed = (fed_next t p v c h, v.fed);
        came = v.came;
        before = v.before;
        chained = v.chained;
        sent = All-later p.clock t p.in_flight later v.sent;
      })
  Step-Beating (halts e) h k v = absurd (false-true (rw e at k))
  Step-Beating {p} (is_dropped off e) h k v = absurd (false-true (sym off ∙ h))

  Reach-Beating :
      {p q : Pulse}
      → Reach interval latency delay start p q
      → q.pong.ticking ≡ true
      → Beating p
      → Beating q
  Reach-Beating here h v = v
  Reach-Beating (next r st) h v =
      let on = Step-ticking interval latency delay start st h in
      Step-Beating st on h (Reach-Beating r on v)

  at_start-Beating : (pong : Heartbeat) → Beating (at_start interval latency delay start pong)
  at_start-Beating pong = record {
    in_past = omega arith;
    spaced = tt;
    fed = tt;
    came = start;
    before = omega arith;
    chained = refl;
    sent = tt;
  }

  -- From the time when a worker begins to listen, whose stethoscope has counted nothing, to a broker
  -- that has started, and while the broker's heartbeat is on, the stethoscope leaves the worker as it
  -- is, whatever the order of beats, arrivals and ticks, if interval, latency and delay together are
  -- less than `retries` delays.
  pub Reach-kept :
      (pong : Heartbeat) (q : Pulse) (w : Process)
      → w.ping.tries ≡ 0
      → interval + latency + delay < w.ping.retries * delay
      → Reach interval latency delay start (at_start interval latency delay start pong) q
      → q.pong.ticking ≡ true
      → (hear_all (events q.heard) w).worker ≡ w.worker
  Reach-kept pong q w z lt r on =
      let v = Reach-Beating r on (at_start-Beating pong) in
      hear_all-IsFed w start delay (interval + latency) q.heard z lt v.spaced v.fed
