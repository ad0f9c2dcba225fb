-- ===== src/Heartbeat/Beats.antt =====
-- When the broker is taken for lost.
use powerhoc.Common.{
  ℕ, zero, suc, ◌+◌, ◌<◌, ◌≤◌, true, false, List, [], ◌∷◌, ◌++◌, none, some, ◌≡◌, refl, arith, ◌∙◌,
}
use powerhoc.Heartbeat.{Stethoscope, OnLost, delayed, Event, tick, beat, step, listen}

abbrev pub replicate : ℕ → Event → List Event
replicate zero e = []
replicate (suc n) e = e ∷ replicate n e

-- The ticks since the last beat, the newest event first, when there were `earlier` before all.
unfoldable pub silence : ℕ → List Event → ℕ
silence earlier [] = earlier
silence earlier (tick ∷ before) = silence earlier before + 1
silence earlier (beat ∷ before) = 0

retries-step : (f : OnLost) (s : Stethoscope) (e : Event) → (step f s e).retries ≡ s.retries
unfolding step
retries-step f s tick = ground arith
retries-step f s beat = ground arith

pub retries-listen :
    (f : OnLost) (s : Stethoscope) (h : List Event) → (listen f s h).retries ≡ s.retries
unfolding listen
retries-listen f s [] = refl
retries-listen f s (e ∷ h) = retries-step f (listen f s h) e ∙ retries-listen f s h

-- `tries` counts the ticks since the last beat, whatever the callback answered.
pub tries-listen :
    (f : OnLost) (s : Stethoscope) (h : List Event) → (listen f s h).tries ≡ silence s.tries h
unfolding listen step silence
tries-listen f s [] = refl
tries-listen f s (tick ∷ h) = ground (arith, tries-listen f s h)
tries-listen f s (beat ∷ h) = ground arith

-- At every moment fewer than `retries` ticks had passed since the last beat.
abbrev pub IsLively : ℕ → ℕ → List Event → Type 0
IsLively retries earlier [] = Unit
IsLively retries earlier (e ∷ h) = (silence earlier (e ∷ h) < retries) × IsLively retries earlier h

-- While beats come in time, the stethoscope goes on and `onbeatlost` is not called.
pub listen-lively :
    (f : OnLost) (s : Stethoscope) (h : List Event)
    → IsLively s.retries s.tries h
    → ((listen f s h).running ≡ s.running)
      × ((listen f s h).losses ≡ s.losses)
      × ((listen f s h).loop_stopped ≡ s.loop_stopped)
unfolding listen step silence
listen-lively f s [] h = (refl, refl, refl)
listen-lively f s (tick ∷ h) (lt, l) =
    ground (arith, listen-lively f s h l, tries-listen f s h, retries-listen f s h)
listen-lively f s (beat ∷ h) (lt, l) = ground (arith, listen-lively f s h l)

-- The callback, if there is one, always says to quit, as `Worker.lost` does.
abbrev pub Quits : OnLost → Type 0
Quits none = Unit
Quits (some answer) = (n : ℕ) → answer n ≡ true

pub tick-Quits :
    (f : OnLost) (s : Stethoscope)
    → Quits f
    → s.retries ≤ s.tries + 1
    → (delayed f s).running ≡ false
unfolding delayed
tick-Quits none s q h = ground arith
tick-Quits (some answer) s q h = ground (arith, q s.losses)

pub silence-replicate :
    (earlier n : ℕ) (h : List Event)
    → silence earlier (replicate n tick ++ h) ≡ silence earlier h + n
unfolding silence
silence-replicate earlier zero h = omega arith
silence-replicate earlier (suc n) h = omega (arith, silence-replicate earlier n h)

-- After `retries` ticks without a beat, at least one, the stethoscope has stopped, whatever came
-- before, if the callback says to quit.
pub listen-silent :
    (f : OnLost) (s : Stethoscope) (n : ℕ) (h : List Event)
    → Quits f
    → s.retries ≤ suc n
    → (listen f s (replicate (suc n) tick ++ h)).running ≡ false
unfolding listen step
listen-silent f s n h q le = tick-Quits f (listen f s (replicate n tick ++ h)) q (
    omega (
      arith,
      retries-listen f s (replicate n tick ++ h),
      tries-listen f s (replicate n tick ++ h),
      silence-replicate s.tries n h,
    ))
