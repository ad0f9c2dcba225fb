-- ===== src/Worker/Lost.antt =====
-- When a worker takes its broker for lost: its stethoscope with `lost` as `onbeatlost`.
use powerhoc.Common.{
  ℕ, suc, ◌+◌, ◌*◌, ◌<◌, ◌≤◌, true, false, List, [], ◌∷◌, ◌++◌, some, ◌≡◌, refl, ◌∙◌, ap, arith,
}
use powerhoc.Heartbeat.{Event, tick, beat, step, listen, delayed, ask_lost, stop}
use powerhoc.Heartbeat.Beats.{
  replicate, silence, tries-listen, retries-listen, silence-replicate, IsLively,
}
use powerhoc.Heartbeat.Timing.{Timed, events, IsSpaced, IsFed, fed-IsLively}
use powerhoc.Worker.{lost}
use powerhoc.Worker.Life.{Process}
use powerhoc.Worker.Lifetime.{hear}

-- The events of the stethoscope, the newest first
unfoldable pub hear_all : List Event → Process → Process
unfolding hear
hear_all [] p = p
hear_all (e ∷ before) p = hear e (hear_all before p)

hear-ping : (e : Event) (p : Process) → (hear e p).ping ≡ step (some (λ k. true)) p.ping e
unfolding hear lost
hear-ping e p = ground arith

hear_all-ping :
    (h : List Event) (p : Process) → (hear_all h p).ping ≡ listen (some (λ k. true)) p.ping h
unfolding hear_all listen
hear_all-ping [] p = refl
hear_all-ping (e ∷ h) p =
    hear-ping e (hear_all h p) ∙ ap (λ s. step (some (λ k. true)) s e) (hear_all-ping h p)

-- The count of the stethoscope
tries_after :
    (h : List Event) (p : Process)
    → ((hear_all h p).ping.tries ≡ silence p.ping.tries h)
      × ((hear_all h p).ping.retries ≡ p.ping.retries)
tries_after h p = (
  ap (λ s. s.tries) (hear_all-ping h p) ∙ tries-listen (some (λ k. true)) p.ping h,
  ap (λ s. s.retries) (hear_all-ping h p) ∙ retries-listen (some (λ k. true)) p.ping h,
)

tick_late :
    (p : Process)
    → p.ping.retries ≤ p.ping.tries + 1
    → ((hear tick p).worker.running ≡ false)
      × ((hear tick p).worker.loop_stopped ≡ true)
      × ((hear tick p).ping.running ≡ false)
unfolding hear step delayed ask_lost stop lost
tick_late p h = ground arith

tick_soon : (p : Process) → p.ping.tries + 1 < p.ping.retries → (hear tick p).worker ≡ p.worker
unfolding hear step delayed
tick_soon p h = ground arith

beat_keeps : (p : Process) → (hear beat p).worker ≡ p.worker
unfolding hear step
beat_keeps p = ground arith

-- After as many ticks as the stethoscope has retries, one at least, without a beat among them, and
-- whatever came before, the worker has been told to leave its event loop, and the stethoscope has
-- stopped.
pub hear_all-silent :
    (n : ℕ) (h : List Event) (p : Process)
    → p.ping.retries ≤ suc n
    → ((hear_all (replicate (suc n) tick ++ h) p).worker.running ≡ false)
      × ((hear_all (replicate (suc n) tick ++ h) p).worker.loop_stopped ≡ true)
      × ((hear_all (replicate (suc n) tick ++ h) p).ping.running ≡ false)
unfolding hear_all
hear_all-silent n h p le =
    let (tries, retries) = tries_after (replicate n tick ++ h) p in
    tick_late (hear_all (replicate n tick ++ h) p)
      (omega (arith, tries, retries, silence-replicate p.ping.tries n h))

lively_keeps :
    (h : List Event) (p : Process)
    → IsLively p.ping.retries p.ping.tries h
    → (hear_all h p).worker ≡ p.worker
unfolding hear_all silence
lively_keeps [] p l = refl
lively_keeps (tick ∷ h) p (lt, l) =
    let (tries, retries) = tries_after h p in
    tick_soon (hear_all h p) (omega (arith, tries, retries)) ∙ lively_keeps h p l
lively_keeps (beat ∷ h) p (lt, l) = beat_keeps (hear_all h p) ∙ lively_keeps h p l

-- A worker whose stethoscope has counted nothing is left as it is by it as long as no event comes
-- later than `gap` after the last beat, if each tick comes `delay` after the one in front of it, at
-- least, or after `start`, no time goes back, and `gap` is less than `retries - 1` delays.
pub hear_all-IsFed :
    (p : Process) (start delay gap : ℕ) (h : Timed)
    → p.ping.tries ≡ 0
    → gap + delay < p.ping.retries * delay
    → IsSpaced start delay h
    → IsFed start gap h
    → (hear_all (events h) p).worker ≡ p.worker
hear_all-IsFed p start delay gap h z lt spaced fed =
    lively_keeps (events h) p (rw z (fed-IsLively start delay gap p.ping.retries h lt spaced fed))
