-- ===== src/Heartbeat.antt =====
-- powerhose/heartbeat.py: `Stethoscope`, which listens for beats and gives up when none comes, and
-- `Heartbeat`, which sends them.
pub mod Beats
pub mod Timing
use powerhoc.Common.{
  ℕ, zero, suc, ◌+◌, Bool, true, false, ◌||◌, List, [], ◌∷◌, ◌++◌, Option, none, some, Bytes, codes,
  leb, if◌then◌else◌,
}
use powerhoc.Exc.{Result, ok}
use powerhoc.Loop.{Round, loop}

-- A `Stethoscope`. `shared_loop` is `_stop_loop`, which is true if it took the process's own event
-- loop. What the callbacks do is kept as counts: `beats` of `onbeat`, `losses` of `onbeatlost`.
pub record Stethoscope : Type 0 where
  pub running : Bool
  pub tries : ℕ
  pub retries : ℕ
  pub stop_loop : Bool
  pub loop_stopped : Bool
  pub has_onbeat : Bool
  pub beats : ℕ
  pub losses : ℕ

-- `stop`, in the thread of the event loop, where the `join` fails and is passed over. The stream is
-- there, as `_initialize` has run; the beats that its flush hands to `_handle_recv` are events of
-- their own.
unfoldable pub stop : Stethoscope → Stethoscope
stop s =
    if s.stop_loop
    then record s { running = false; loop_stopped = true }
    else record s { running = false }

-- `onbeatlost`: absent, or a callable whose answer may differ from call to call
abbrev pub OnLost : Type 0
OnLost = Option (ℕ → Bool)

-- `self.onbeatlost is None or self.onbeatlost()`, with the call counted
unfoldable pub ask_lost : OnLost → Stethoscope → Bool × Stethoscope
ask_lost none s = (true, s)
ask_lost (some answer) s = (answer s.losses, record s { losses = s.losses + 1 })

-- `_delayed`, the timer's callback
unfoldable pub delayed : OnLost → Stethoscope → Stethoscope
unfolding ask_lost stop
delayed onbeatlost s =
    let s' = record s { tries = s.tries + 1 } in
    if leb s.retries (s.tries + 1)
    then (let (quit, s'') = ask_lost onbeatlost s' in if quit then stop s'' else s'')
    else s'

-- `_handle_recv`, the callback for a beat
unfoldable pub handle_recv : Stethoscope → Stethoscope
handle_recv s =
    if s.has_onbeat then record s { tries = 0; beats = s.beats + 1 } else record s { tries = 0 }

-- What the event loop calls.
pub data Event : Type 0 where
  tick beat : Event

unfoldable pub step : OnLost → Stethoscope → Event → Stethoscope
unfolding delayed handle_recv
step onbeatlost s tick = delayed onbeatlost s
step onbeatlost s beat = handle_recv s

-- The state after the callbacks, the newest first.
unfoldable pub listen : OnLost → Stethoscope → List Event → Stethoscope
unfolding step
listen onbeatlost s [] = s
listen onbeatlost s (e ∷ before) = step onbeatlost (listen onbeatlost s before) e

-- `run`, on the rounds of the event loop: it does nothing on a stethoscope that runs.
unfoldable pub run : List (Round × Bool) → Stethoscope → Option (Result (Unit {0})) × Stethoscope
unfolding loop
run rounds s =
    if s.running then (some (ok tt), s) else (loop true rounds, record s { running = true })

-- `Heartbeat`: the server's flag, its timer and what it has published.
pub record Heartbeat : Type 0 where
  pub running : Bool
  pub ticking : Bool
  pub open_ : Bool
  pub published : List Bytes

unfoldable pub start : Heartbeat → Heartbeat
start h = record h { running = true; ticking = true }

-- `_ping`
unfoldable pub ping : Heartbeat → Heartbeat
ping h = record h { published = h.published ++ codes "BEAT" ∷ [] }

-- `stop` of `Heartbeat`: the context is destroyed and with it the socket.
unfoldable pub halt : Heartbeat → Heartbeat
halt h = record h { running = false; ticking = false; open_ = false }
