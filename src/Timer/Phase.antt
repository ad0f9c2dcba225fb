-- ===== src/Timer/Phase.antt =====
-- As long as no job runs out of time, the timer's thread waits for what the worker does next.
use powerhoc.Common.{Bool, true, false, List, [], ◌∷◌, ◌++◌, ◌≡◌, refl}
use powerhoc.Timer.{
  Msg, starting, finished, Place, idle, timing, over, Timer, put, new, run_begins, take_msg, Step,
  starts, ends, takes, times_out, IsCalm, Calmly, here, next, job_starts_ok, job_ends_ok,
}

-- The messages that are left lead the timer's thread from its place to the state of the worker:
-- a job's start is taken where the thread is idle, its end where the thread is timing.
pub data Leads : Place → List Msg → Bool → Type 0 where
  at_rest : Leads idle [] false
  at_work : Leads timing [] true
  start_left : {q : List Msg} {w : Bool} → Leads timing q w → Leads idle (starting ∷ q) w
  end_left : {q : List Msg} {w : Bool} → Leads idle q w → Leads timing (finished ∷ q) w

pub record InPhase (t : Timer) : Type 0 where
  pub leads : Leads t.place t.queue t.working
  pub runs : t.running ≡ true

leads_start :
    {p : Place} {q : List Msg} {w : Bool}
    → Leads p q w
    → w ≡ false
    → Leads p (q ++ starting ∷ []) true
leads_start at_rest e = start_left at_work
leads_start at_work e = cc
leads_start (start_left l) e = start_left (leads_start l e)
leads_start (end_left l) e = end_left (leads_start l e)

leads_end :
    {p : Place} {q : List Msg} {w : Bool}
    → Leads p q w
    → w ≡ true
    → Leads p (q ++ finished ∷ []) false
leads_end at_rest e = cc
leads_end at_work e = end_left at_rest
leads_end (start_left l) e = start_left (leads_end l e)
leads_end (end_left l) e = end_left (leads_end l e)

take-InPhase :
    (t : Timer) (m : Msg) (rest : List Msg) (p : Place)
    → Leads p (m ∷ rest) t.working
    → t.running ≡ true
    → InPhase (take_msg t rest p)
unfolding take_msg
take-InPhase t m rest idle (start_left l) r = record { leads = l; runs = r }
take-InPhase t m rest timing (end_left l) r = record { leads = rw r l; runs = r }
take-InPhase t m rest over l r = elim l [ ]

Step-InPhase : {t u : Timer} (st : Step t u) → IsCalm st → InPhase t → InPhase u
unfolding put
Step-InPhase {t} {u} (starts e) c v =
    let (w, q) = job_starts_ok t u e in
    rw (← q) (record { leads = leads_start v.leads w; runs = v.runs })
Step-InPhase {t} {u} (ends e) c v =
    let (w, q) = job_ends_ok t u e in
    rw (← q) (record { leads = leads_end v.leads w; runs = v.runs })
Step-InPhase {t} (takes m rest e f) c v =
    rw f (take-InPhase t m rest t.place (rw e at v.leads) v.runs)
Step-InPhase (times_out dump e f g) c v = absurd c

Calmly-InPhase : {t u : Timer} → Calmly t u → InPhase t → InPhase u
Calmly-InPhase here v = v
Calmly-InPhase (next r st c) v = Step-InPhase st c (Calmly-InPhase r v)

pub new-InPhase : InPhase (run_begins new)
unfolding new run_begins
new-InPhase = record { leads = at_rest; runs = refl }

drained :
    {p : Place} {q : List Msg} {w : Bool}
    → Leads p q w
    → q ≡ []
    → ((w ≡ true) → p ≡ timing) × ((w ≡ false) → p ≡ idle)
drained at_rest e = (λ h. cc, λ h. refl)
drained at_work e = (λ h. refl, λ h. cc)
drained (start_left l) e = cc
drained (end_left l) e = cc

-- Until a first timeout, once the timer's thread has taken all messages, it times exactly when the
-- worker is busy: a job that overruns is timed out, and an idle worker is not.
pub timed-when-working :
    (t : Timer)
    → Calmly (run_begins new) t
    → t.queue ≡ []
    → ((t.working ≡ true) → t.place ≡ timing) × ((t.working ≡ false) → t.place ≡ idle)
timed-when-working t r e = drained (Calmly-InPhase r new-InPhase).leads e
