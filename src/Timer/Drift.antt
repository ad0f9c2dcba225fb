-- ===== src/Timer/Drift.antt =====
-- A timeout sets the two threads apart: the timer's thread waits for the next start while the job
-- still runs, and takes that job's end for it.
use powerhoc.Common.{Bool, true, false, List, [], ◌∷◌, ◌++◌, ◌≡◌, refl, Bytes}
use powerhoc.Timer.{
  Msg, starting, finished, Place, idle, timing, over, Timer, put, take_msg, time_out, Step, starts,
  ends, takes, times_out, IsCalm, Calmly, here, next, job_starts_ok, job_ends_ok,
}
use powerhoc.Timer.Phase.{InPhase}

-- The messages that are left, with starts and ends in each other's place.
data Drifts : Place → List Msg → Bool → Type 0 where
  late_rest : Drifts timing [] false
  late_work : Drifts idle [] true
  end_left : {q : List Msg} {w : Bool} → Drifts timing q w → Drifts idle (finished ∷ q) w
  start_left : {q : List Msg} {w : Bool} → Drifts idle q w → Drifts timing (starting ∷ q) w

record HasDrifted (t : Timer) : Type 0 where
  drifts : Drifts t.place t.queue t.working
  runs : t.running ≡ true

drifts_start :
    {p : Place} {q : List Msg} {w : Bool}
    → Drifts p q w
    → w ≡ false
    → Drifts p (q ++ starting ∷ []) true
drifts_start late_rest e = start_left late_work
drifts_start late_work e = cc
drifts_start (end_left l) e = end_left (drifts_start l e)
drifts_start (start_left l) e = start_left (drifts_start l e)

drifts_end :
    {p : Place} {q : List Msg} {w : Bool}
    → Drifts p q w
    → w ≡ true
    → Drifts p (q ++ finished ∷ []) false
drifts_end late_rest e = cc
drifts_end late_work e = end_left late_rest
drifts_end (end_left l) e = end_left (drifts_end l e)
drifts_end (start_left l) e = start_left (drifts_end l e)

take-HasDrifted :
    (t : Timer) (m : Msg) (rest : List Msg) (p : Place)
    → Drifts p (m ∷ rest) t.working
    → t.running ≡ true
    → HasDrifted (take_msg t rest p)
unfolding take_msg
take-HasDrifted t m rest idle (end_left l) r = record { drifts = l; runs = r }
take-HasDrifted t m rest timing (start_left l) r = record { drifts = rw r l; runs = r }
take-HasDrifted t m rest over l r = elim l [ ]

Step-HasDrifted : {t u : Timer} (st : Step t u) → IsCalm st → HasDrifted t → HasDrifted u
unfolding put
Step-HasDrifted {t} {u} (starts e) c v =
    let (w, q) = job_starts_ok t u e in
    rw (← q) (record { drifts = drifts_start v.drifts w; runs = v.runs })
Step-HasDrifted {t} {u} (ends e) c v =
    let (w, q) = job_ends_ok t u e in
    rw (← q) (record { drifts = drifts_end v.drifts w; runs = v.runs })
Step-HasDrifted {t} (takes m rest e f) c v =
    rw f (take-HasDrifted t m rest t.place (rw e at v.drifts) v.runs)
Step-HasDrifted (times_out dump e f g) c v = absurd c

Calmly-HasDrifted : {t u : Timer} → Calmly t u → HasDrifted t → HasDrifted u
Calmly-HasDrifted here v = v
Calmly-HasDrifted (next r st c) v = Step-HasDrifted st c (Calmly-HasDrifted r v)

unwatched : {p : Place} {q : List Msg} {w : Bool} → Drifts p q w → p ≡ timing → q ≡ [] → w ≡ false
unwatched late_rest e f = refl
unwatched late_work e f = cc
unwatched (end_left l) e f = cc
unwatched (start_left l) e f = cc

time_out-HasDrifted :
    (t : Timer) (dump : List Bytes)
    → t.working ≡ true
    → t.queue ≡ []
    → t.running ≡ true
    → HasDrifted (time_out dump t)
unfolding time_out
time_out-HasDrifted t dump w q r = record { drifts = rw (w, q, r) late_work; runs = r }

-- After one job was timed out, and as long as no idle period is timed out in its turn, no later job
-- ever is: the timer's thread never waits for the end of a job while the worker is busy.
pub never-timed-again :
    (t : Timer) (dump : List Bytes) (u : Timer)
    → InPhase t
    → t.working ≡ true
    → t.queue ≡ []
    → Calmly (time_out dump t) u
    → u.working ≡ true
    → u.queue ≡ []
    → ¬ (u.place ≡ timing)
never-timed-again t dump u v w q r busy empty p = cc (busy, unwatched found.drifts p empty)
  where
    found : HasDrifted u
    found = Calmly-HasDrifted r (time_out-HasDrifted t dump w q v.runs)
