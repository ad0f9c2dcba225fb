-- ===== src/System/Pulse.antt =====
-- The broker's `Heartbeat` and a worker's `Stethoscope` on one clock, in milliseconds. While its timer
-- is on, the broker beats every `interval` at most; a beat is on its way for `latency` at most, and
-- beats arrive in order; a tick comes `delay` after the one in front of it, at least.
pub mod Kept
pub mod Lost
pub mod Tight
use powerhoc.Common.{
  ℕ, zero, suc, ◌+◌, ◌*◌, ◌<◌, ◌≤◌, true, false, List, [], ◌∷◌, ◌++◌, All, ◌≡◌, refl, ◌∙◌, ap, sym,
  arith, length,
}
use powerhoc.Heartbeat
use powerhoc.Heartbeat.{Heartbeat, ping, halt, tick, beat}
use powerhoc.Heartbeat.Beats.{replicate}
use powerhoc.Heartbeat.Timing.{Timed, events, now, last_beat, last_tick, IsSpaced, IsFed}
use powerhoc.Worker.Life.{Process}
use powerhoc.Worker.Lost.{hear_all, hear_all-IsFed, hear_all-silent}

-- `in_flight` are the times of the beats on their way, the oldest first, `last` is the time of the
-- last beat that was sent, and `heard` is what the stethoscope's event loop has called.
pub record Pulse : Type 0 where
  pub pong : Heartbeat
  pub in_flight : List ℕ
  pub last : ℕ
  pub clock : ℕ
  pub heard : Timed

pub false-true : ¬ (false ≡ true)
false-true e = cc

module _ (interval latency delay start : ℕ) where
  -- The time can be `t` before anything else happens.
  abbrev pub CanBe : ℕ → Pulse → Type 0
  CanBe t p =
      (p.clock ≤ t)
      × (p.pong.ticking ≡ true → t ≤ p.last + interval)
      × All (λ b. t ≤ b + latency) p.in_flight

  -- A broker that stops may take the beats on their way with it.
  pub data Step (p q : Pulse) : Type 0 where
    pings :
        (t : ℕ)
        → CanBe t p
        → p.pong.ticking ≡ true
        → q
          ≡ record p { pong = ping p.pong; in_flight = p.in_flight ++ t ∷ []; last = t; clock = t }
        → Step p q
    arrives :
        (t b : ℕ) (rest : List ℕ)
        → CanBe t p
        → p.in_flight ≡ b ∷ rest
        → q ≡ record p { in_flight = rest; clock = t; heard = (t, beat) ∷ p.heard }
        → Step p q
    ticks :
        (t : ℕ)
        → CanBe t p
        → last_tick start p.heard + delay ≤ t
        → q ≡ record p { clock = t; heard = (t, tick) ∷ p.heard }
        → Step p q
    halts : q ≡ record p { pong = halt p.pong } → Step p q
    is_dropped : p.pong.ticking ≡ false → q ≡ record p { in_flight = [] } → Step p q

  pub data Reach (p : Pulse) : Pulse → Type 0 where
    here : Reach p p
    next : {q r : Pulse} → Reach p q → Step q r → Reach p r

  pub Step-ticking : {p q : Pulse} → Step p q → q.pong.ticking ≡ true → p.pong.ticking ≡ true
  unfolding ping halt
  Step-ticking (pings t c on e) h = on
  Step-ticking (arrives t b rest c f e) h = rw e at h
  Step-ticking (ticks t c l e) h = rw e at h
  Step-ticking (halts e) h = absurd (false-true (rw e at h))
  Step-ticking (is_dropped off e) h = rw e at h

  -- A worker begins to listen at `start`, to a broker that has started and that beats within
  -- `interval` from then.
  abbrev pub at_start : Heartbeat → Pulse
  at_start pong = record {
    pong = Heartbeat.start pong;
    in_flight = [];
    last = start;
    clock = start;
    heard = [];
  }
