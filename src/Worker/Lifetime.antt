-- ===== src/Worker/Lifetime.antt =====
-- A worker from its start to the end of its event loop: the messages of its broker, the timer's thread,
-- the stethoscope, whose `onbeatlost` is `lost`, and the exit at the worker's maximum age.
use powerhoc.Common.{ℕ, Bool, List, ◌++◌, some, ltb, ◌≡◌, refl, ◌∙◌, arith, if◌then◌else◌}
use powerhoc.Heartbeat.{Event, step}
use powerhoc.Timer.{over, starts, ends, takes}
use powerhoc.Timer.Stop.{
  Sound, Step-Sound, time_out-Sound, CanEnd, in_loop, has_left, CanEnd-drain, drain,
}
use powerhoc.Worker.{Worker, Host, lost}
use powerhoc.Worker.Life.{Process, stop_worker}
use powerhoc.Worker.Replies.{IsReady, Delivers, finish-timer}
use powerhoc.Worker.Threads.Marks.{unmarked, Run-unmarked}
use powerhoc.Worker.Threads.{Phase, waiting, Watch, Handled, Run}

-- An event of the stethoscope; `lost` is called just where a loss is counted.
unfoldable pub hear : Event → Process → Process
unfolding step lost
hear e p =
    let ping = step (some (λ k. (lost p.worker).0)) p.ping e in
    if ltb p.ping.losses ping.losses
    then record p { ping = ping; worker = (lost p.worker).1 }
    else record p { ping = ping }

-- `stop`, with the timer's thread up to its end, for which `join` waits
unfoldable pub stop_joined : Process → Process
unfolding stop_worker drain
stop_joined p =
    let p' = stop_worker p in
    let t = p'.worker.timer in record p' { worker = record p'.worker { timer = drain t.queue t } }

-- What becomes of a process that was started, with the messages that it has handled and the place of
-- its thread. Neither the handler nor the timer reads what the stethoscope changes, so its events
-- stand behind the messages. The exit at the maximum age is a call of the event loop.
pub data Lives (p : Process) : List Handled → Phase → Process → Type 0 where
  works :
      {h : List Handled} {x l : Bool} {s : Watch}
      → Run p.host p.worker h x l s
      → Lives p h s.phase (record p { worker = s.worker })
  hears :
      {h : List Handled} {place : Phase} {q : Process} (e : Event)
      → Lives p h place q
      → Lives p h place (hear e q)
  ages :
      {h : List Handled} {q : Process} (t : ℕ)
      → Lives p h waiting q
      → q.delayed_exit ≡ some t
      → Lives p h waiting (stop_joined q)

Run-Sound :
    {host : Host} {w : Worker} {h : List Handled} {x l : Bool} {s : Watch}
    → Run host w h x l s
    → Sound w.timer
    → Sound s.worker.timer
Run-Sound Run.begins v = v
Run-Sound (Run.receives msg t r q e) v = Step-Sound (starts e) (Run-Sound r v)
Run-Sound (Run.is_refused msg x r q e) v = Run-Sound r v
Run-Sound (Run.returns msg t r q e) v = Step-Sound (ends e) (Run-Sound r v)
Run-Sound (Run.raises msg x r q e) v = Run-Sound r v
Run-Sound {host} (Run.replies {s = s} msg res r q) v =
    rw (finish-timer host s.worker res s.worker.timer) (Run-Sound r v)
Run-Sound (Run.takes m rest r q e) v = Step-Sound (takes m rest e refl) (Run-Sound r v)
Run-Sound (Run.expires dump r q a b) v = Run-Sound r v
Run-Sound (Run.marks {s = s} dump r q) v = time_out-Sound dump s.worker.timer (Run-Sound r v)

-- What the stethoscope and the exit leave as it was.
hear-timer : (e : Event) (p : Process) → (hear e p).worker.timer ≡ p.worker.timer
unfolding hear
hear-timer e p = ground arith

hear-sent : (e : Event) (p : Process) → (hear e p).worker.sent ≡ p.worker.sent
unfolding hear
hear-sent e p = ground arith

stop_joined-over : (p : Process) → CanEnd p.worker.timer → (stop_joined p).worker.timer.place ≡ over
unfolding stop_joined stop_worker
stop_joined-over p c = CanEnd-drain p.worker.timer c

stop_joined-sent : (p : Process) → (stop_joined p).worker.sent ≡ p.worker.sent
unfolding stop_joined stop_worker
stop_joined-sent p = refl

pub Lives-CanEnd :
    {p q : Process} {h : List Handled} {place : Phase}
    → Lives p h place q
    → Sound p.worker.timer
    → CanEnd q.worker.timer
Lives-CanEnd (works r) v = in_loop (Run-Sound r v)
Lives-CanEnd (hears {q = q} e r) v = rw (hear-timer e q) (Lives-CanEnd r v)
Lives-CanEnd (ages {q = q} t r e) v = has_left (stop_joined-over q (Lives-CanEnd r v))

-- What a worker that was ready has sent, if the stream takes every reply.
pub Lives-sent :
    {p q : Process} {h : List Handled} {place : Phase}
    → Delivers p.host
    → IsReady p.worker
    → Lives p h place q
    → q.worker.sent ≡ p.worker.sent ++ unmarked p.host p.worker.pid h
Lives-sent {p} {h = h} d r (works {x = x} {l} {s} run) =
    (Run-unmarked p.host d p.worker h x l s r run).0
Lives-sent d r (hears {q = q} e k) = hear-sent e q ∙ Lives-sent d r k
Lives-sent d r (ages {q = q} t k e) = stop_joined-sent q ∙ Lives-sent d r k
