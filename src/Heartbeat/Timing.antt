-- ===== src/Heartbeat/Timing.antt =====
-- Beats and ticks in time. A history holds the newest event first, each with its time, in
-- milliseconds; the stethoscope begins at `start`, as if a beat had come then.
use powerhoc.Common.{
  ℕ, zero, suc, ◌+◌, ◌-◌, ◌*◌, ◌<◌, ◌≤◌, true, false, List, [], ◌∷◌, ◌++◌, ◌≡◌, refl, arith, ◌∙◌,
  leb, ap, inl, inr, Bool-cases,
}
use powerhoc.Heartbeat.{Stethoscope, OnLost, Event, tick, beat, step, listen}
use powerhoc.Heartbeat.Beats.{
  silence, tries-listen, retries-listen, IsLively, listen-lively, Quits, tick-Quits, replicate,
  listen-silent,
}

abbrev pub Timed : Type 0
Timed = List (ℕ × Event)

abbrev pub events : Timed → List Event
events [] = []
events ((t, e) ∷ h) = e ∷ events h

-- The time of the newest event
abbrev pub now : ℕ → Timed → ℕ
now start [] = start
now start ((t, e) ∷ h) = t

-- The time of the last beat
abbrev pub last_beat : ℕ → Timed → ℕ
last_beat start [] = start
last_beat start ((t, tick) ∷ h) = last_beat start h
last_beat start ((t, beat) ∷ h) = t

-- The time of the last tick
abbrev pub last_tick : ℕ → Timed → ℕ
last_tick start [] = start
last_tick start ((t, tick) ∷ h) = t
last_tick start ((t, beat) ∷ h) = last_tick start h

-- Each tick comes `delay` after the one in front of it, at least, or after `start`, and no time goes
-- back.
abbrev pub IsSpaced : ℕ → ℕ → Timed → Type 0
IsSpaced start delay [] = Unit
IsSpaced start delay ((t, tick) ∷ h) =
    (now start h ≤ t) × (last_tick start h + delay ≤ t) × IsSpaced start delay h
IsSpaced start delay ((t, beat) ∷ h) = (now start h ≤ t) × IsSpaced start delay h

-- No event comes later than `gap` after the last beat in front of it.
abbrev pub IsFed : ℕ → ℕ → Timed → Type 0
IsFed start gap [] = Unit
IsFed start gap ((t, e) ∷ h) = (t ≤ last_beat start h + gap) × IsFed start gap h

-- Every event comes within `delay` after the one in front of it.
abbrev pub IsClose : ℕ → ℕ → Timed → Type 0
IsClose start delay [] = Unit
IsClose start delay ((t, e) ∷ h) = (t ≤ now start h + delay) × IsClose start delay h

fewer : (k r d : ℕ) → k * d < r * d → k < r
fewer k zero d h = absurd (omega arith)
fewer zero (suc r) d h = omega arith
fewer (suc k) (suc r) d h = omega (arith, fewer k r d (omega arith))

-- The silence of `k` ticks takes `k - 1` delays.
span :
    (start d : ℕ) (h : Timed)
    → IsSpaced start d h
    → last_beat start h + silence 0 (events h) * d ≤ now start h + d
unfolding silence
span start d [] s = omega arith
span start d ((t, beat) ∷ h) s = omega arith
span start d ((t, tick) ∷ []) (e, l, s) = omega arith
span start d ((t, tick) ∷ (u, beat) ∷ h) (e, l, s) = omega arith
span start d ((t, tick) ∷ (u, tick) ∷ h) (e, l, s) = omega (arith, span start d ((u, tick) ∷ h) s)

pub fed-IsLively :
    (start d gap r : ℕ) (h : Timed)
    → gap + d < r * d
    → IsSpaced start d h
    → IsFed start gap h
    → IsLively r 0 (events h)
unfolding silence
fed-IsLively start d gap r [] lt s f = tt
fed-IsLively start d gap r ((t, tick) ∷ h) lt (e, l, s) (f, fs) = (
  fewer _ r d (omega (arith, span start d ((t, tick) ∷ h) (e, l, s))),
  fed-IsLively start d gap r h lt s fs,
)
fed-IsLively start d gap r ((t, beat) ∷ h) lt (e, s) (f, fs) =
    (fewer 0 r d (omega arith), fed-IsLively start d gap r h lt s fs)

-- A stethoscope that has counted nothing goes on and does not call `onbeatlost` as long as no event
-- comes later than `gap` after the last beat, if each tick comes `delay` after the one in front of
-- it, at least, or after `start`, no time goes back, and `gap` is less than `retries - 1` delays.
pub listen-IsFed :
    (f : OnLost) (s : Stethoscope) (start delay gap : ℕ) (h : Timed)
    → s.tries ≡ 0
    → gap + delay < s.retries * delay
    → IsSpaced start delay h
    → IsFed start gap h
    → ((listen f s (events h)).running ≡ s.running)
      × ((listen f s (events h)).losses ≡ s.losses)
      × ((listen f s (events h)).loop_stopped ≡ s.loop_stopped)
listen-IsFed f s start delay gap h z lt spaced fed =
    listen-lively f s (events h) (rw z (fed-IsLively start delay gap s.retries h lt spaced fed))

-- The silence of `k` ticks takes no more than `k` delays.
close_span :
    (start d : ℕ) (h : Timed)
    → IsClose start d h
    → now start h ≤ last_beat start h + silence 0 (events h) * d
unfolding silence
close_span start d [] c = omega arith
close_span start d ((t, tick) ∷ h) (e, c) = omega (arith, close_span start d h c)
close_span start d ((t, beat) ∷ h) (e, c) = omega arith

pub whole : (k r d : ℕ) → k < r → k * d + d ≤ r * d
whole k zero d h = absurd (omega arith)
whole zero (suc r) d h = omega arith
whole (suc k) (suc r) d h = omega (arith, whole k r d (omega arith))

running-silence :
    (f : OnLost) (s : Stethoscope) (h : List Event)
    → Quits f
    → s.tries ≡ 0
    → 0 < s.retries
    → (listen f s h).running ≡ true
    → silence 0 h < s.retries
unfolding listen step silence
running-silence f s [] q z p r = p
running-silence f s (beat ∷ h) q z p r = p
running-silence f s (tick ∷ h) q z p r = elim (Bool-cases (leb s.retries (silence 0 h + 1))) [
  | inl late ↦
      let w = listen f s h in
      cc (
        r,
        tick-Quits f w q (
            ground
              (arith, late, retries-listen f s h, tries-listen f s h ∙ ap (λ n. silence n h) z)),
      )
  | inr soon ↦ ground (arith, soon)
]

-- If the callback says to quit and every event comes within `delay` after the one in front of it, a
-- stethoscope that has counted nothing at `start` and still runs had its last beat, or `start` if none
-- has come, no longer than `retries - 1` delays ago, where `retries` is not 0.
pub running-last_beat :
    (f : OnLost) (s : Stethoscope) (start delay : ℕ) (h : Timed)
    → Quits f
    → s.tries ≡ 0
    → 0 < s.retries
    → IsClose start delay h
    → (listen f s (events h)).running ≡ true
    → now start h + delay ≤ last_beat start h + s.retries * delay
running-last_beat f s start delay h q z p c r = omega (
  arith,
  close_span start delay h c,
  whole (silence 0 (events h)) s.retries delay (running-silence f s (events h) q z p r),
)

-- A beat with the first tick, and `n` ticks behind it, every `delay`
abbrev pub ticks : ℕ → ℕ → ℕ → Timed
ticks first delay zero = (first, tick) ∷ (first, beat) ∷ []
ticks first delay (suc n) = (first + suc n * delay, tick) ∷ ticks first delay n

ticks-IsSpaced : (start d n : ℕ) → IsSpaced start d (ticks (start + d) d n)
ticks-IsSpaced start d zero = (omega arith, omega arith, (omega arith, tt))
ticks-IsSpaced start d (suc zero) = (omega arith, omega arith, ticks-IsSpaced start d zero)
ticks-IsSpaced start d (suc (suc n)) = (omega arith, omega arith, ticks-IsSpaced start d (suc n))

last_beat-ticks : (start first d n : ℕ) → last_beat start (ticks first d n) ≡ first
last_beat-ticks start first d zero = refl
last_beat-ticks start first d (suc n) = last_beat-ticks start first d n

ticks-IsFed : (start d gap n : ℕ) → d ≤ gap → n * d ≤ gap → IsFed start gap (ticks (start + d) d n)
ticks-IsFed start d gap zero le h = (omega arith, (omega arith, tt))
ticks-IsFed start d gap (suc n) le h = (
  omega (arith, last_beat-ticks start (start + d) d n),
  ticks-IsFed start d gap n le (omega arith),
)

events-ticks : (first d n : ℕ) → events (ticks first d n) ≡ replicate (suc n) tick ++ beat ∷ []
events-ticks first d zero = refl
events-ticks first d (suc n) = ap (λ h. tick ∷ h) (events-ticks first d n)

tight_from :
    (f : OnLost) (s : Stethoscope) (start delay gap n : ℕ)
    → Quits f
    → s.retries ≤ suc n
    → delay ≤ gap
    → n * delay ≤ gap
    → (h : Timed) × IsSpaced start delay h
      × IsFed start gap h
      × ((listen f s (events h)).running ≡ false)
tight_from f s start delay gap n q le short fits = (
  ticks (start + delay) delay n,
  ticks-IsSpaced start delay n,
  ticks-IsFed start delay gap n short fits,
  rw (events-ticks (start + delay) delay n) (listen-silent f s n (beat ∷ []) q le),
)

-- The margin is all there is: where the gap may be `retries - 1` delays, and `retries` is 2 at least,
-- a stethoscope whose callback says to quit can stop, though each tick comes `delay` after the one in
-- front of it, or after `start`, no time goes back, and no event is later than `gap` after the last
-- beat.
pub listen-tight :
    (f : OnLost) (s : Stethoscope) (start delay gap : ℕ)
    → Quits f
    → 1 < s.retries
    → s.retries * delay ≤ gap + delay
    → (h : Timed) × IsSpaced start delay h
      × IsFed start gap h
      × ((listen f s (events h)).running ≡ false)
listen-tight f s start delay gap q p le =
    tight_from f s start delay gap (s.retries - 1) q (omega (arith, p))
      (omega (arith, le, whole 1 s.retries delay p))
      (omega (arith, le, whole (s.retries - 1) s.retries delay (omega (arith, p))))
