-- ===== src/Worker/Threads/Marks.antt =====
-- The replies of a worker hang on when the mark is set.
use powerhoc.Common.{
  ℕ, Bool, true, false, List, [], ◌∷◌, ◌++◌, append_assoc, append-nil, none, Bytes, ◌≡◌, ◌≢◌, refl,
  sym, ap, ◌∙◌, arith, if◌then◌else◌, inl, inr, Bool-cases,
}
use powerhoc.Exc.{Exn, Result, ok, err}
use powerhoc.Timer
use powerhoc.Timer.{
  Msg, starting, finished, Timer, Place, idle, timing, put, take_msg, time_out, job_starts,
  job_ends, job_starts_ok, job_ends_ok,
}
use powerhoc.Worker.{Worker, Host, run_target, finish}
use powerhoc.Worker.Replies.{
  started, IsReady, Delivers, answer, finish-timer, finish-pid, sent-finish-answer,
}
use powerhoc.Worker.Threads.{
  Phase, waiting, working, ending, Watch, set_timer, Handled, Run, begins, receives, is_refused,
  returns, raises, replies, takes, expires, marks,
}

abbrev pub is_working : Phase → Bool
is_working (working msg) = true
is_working _ = false

take_same :
    (t : Timer) (rest : List Msg) (p : Place)
    → ((take_msg t rest p).working ≡ t.working) × ((take_msg t rest p).timed_out ≡ t.timed_out)
unfolding take_msg
take_same t rest idle = (refl, refl)
take_same t rest timing = (refl, refl)
take_same t rest Timer.over = (refl, refl)

starts_refused : (t : Timer) (e : Exn) → job_starts t ≡ err e → t.working ≡ true
unfolding job_starts
starts_refused t e q = ground arith

ends_refused : (t : Timer) (e : Exn) → job_ends t ≡ err e → t.working ≡ false
unfolding job_ends
ends_refused t e q = ground arith

starts_started : (t u : Timer) → job_starts t ≡ ok u → (u.working ≡ true) × (u.timed_out ≡ false)
unfolding put
starts_started t u e = let (_, q) = job_starts_ok t u e in rw (← q) (refl, refl)

ends_ended : (t u : Timer) → job_ends t ≡ ok u → (u.working ≡ false) × (u.timed_out ≡ t.timed_out)
unfolding put
ends_ended t u e = let (w, q) = job_ends_ok t u e in rw (← q) (refl, refl)

pub starts_free : (t : Timer) → t.working ≡ false → job_starts t ≡ ok (started t)
unfolding job_starts
starts_free t e = ground (arith, e)

abbrev pub ended : Timer → Timer
ended t = record (put finished t) { working = false; armed = false }

pub ends_busy : (t : Timer) → t.working ≡ true → job_ends t ≡ ok (ended t)
unfolding job_ends
ends_busy t e = ground (arith, e)

module _ (host : Host) where
  -- The answers to the messages that were not marked
  abbrev pub unmarked : ℕ → List Handled → List Bytes
  unmarked pid [] = []
  unmarked pid (m ∷ h) =
      let rest = unmarked pid h in if m.marked then rest else answer host pid m.msg ∷ rest

  unmarked_end :
      (pid : ℕ) (h : List Handled) (m : Handled)
      → unmarked pid (h ++ m ∷ [])
        ≡ unmarked pid h ++ (if m.marked then [] else answer host pid m.msg ∷ [])
  unmarked_end pid [] m = ground arith
  unmarked_end pid (k ∷ h) m = ground (arith, unmarked_end pid h m)

  pub record Holds (w : Worker) (h : List Handled) (l : Bool) (s : Watch) : Type 0 where
    sent_all : s.worker.sent ≡ w.sent ++ unmarked w.pid h
    same_pid : s.worker.pid ≡ w.pid
    pub busy : s.worker.timer.working ≡ is_working s.phase
    late : s.phase ≢ waiting → s.worker.timer.timed_out ≡ l
    body :
        (msg : List Bytes) (res : Result Bytes)
        → s.phase ≡ ending msg res
        → res ≡ run_target host msg

  mark-Holds :
      (w : Worker) (h : List Handled) (l : Bool) (s : Watch) (dump : List Bytes)
      → Holds w h l s
      → Holds w h true (record (set_timer (time_out dump s.worker.timer) s) { dumping = none })
  unfolding time_out
  mark-Holds w h l s dump v = record {
    sent_all = v.sent_all;
    same_pid = v.same_pid;
    busy = v.busy;
    late = λ k. refl;
    body = v.body;
  }

  module _ (delivers : Delivers host) where
    reply-Holds :
        (w : Worker) (h : List Handled) (x l : Bool) (s : Watch) (msg : List Bytes)
        (res : Result Bytes)
        → Holds w h l s
        → s.phase ≡ ending msg res
        → Holds w
            (h ++ record { msg = msg; expired = x; marked = l } ∷ [])
            false
            (record s { worker = finish host s.worker res s.worker.timer; phase = waiting })
    reply-Holds w h x l s msg res v q =
        let m : Handled = record { msg = msg; expired = x; marked = l } in
        let t = s.worker.timer in
        let timer = finish-timer host s.worker res t in
        record {
          sent_all =
              ap (λ r. (finish host s.worker r t).sent) (v.body msg res q)
              ∙ sent-finish-answer host s.worker t msg delivers
              ∙ rw (v.late (λ k. cc (k, q)), v.sent_all, v.same_pid, unmarked_end w.pid h m)
                  (elim (Bool-cases l) [
                    | inl y ↦ rw y (sym (ap (λ a. w.sent ++ a) (append-nil (unmarked w.pid h))))
                    | inr n ↦
                        rw n (append_assoc w.sent (unmarked w.pid h) (answer host w.pid msg ∷ []))
                  ]);
          same_pid = finish-pid host s.worker res t ∙ v.same_pid;
          busy = ap (λ k. k.working) timer ∙ v.busy ∙ ap is_working q;
          late = λ k. absurd (k refl);
          body = λ a b k. cc;
        }

    pub Run-Holds :
        (w : Worker) {h : List Handled} {x l : Bool} {s : Watch}
        → IsReady w
        → Run host w h x l s
        → Holds w h l s
    Run-Holds w r begins = record {
      sent_all = sym (append-nil w.sent);
      same_pid = refl;
      busy = r;
      late = λ k. absurd (k refl);
      body = λ a b k. cc;
    }
    Run-Holds w r (receives {s = s} msg t run q e) =
        let v = Run-Holds w r run in
        let (busy, soon) = starts_started s.worker.timer t e in
        record {
          sent_all = v.sent_all;
          same_pid = v.same_pid;
          busy = busy;
          late = λ k. soon;
          body = λ a b k. cc;
        }
    Run-Holds w r (is_refused {s = s} msg x run q e) =
        let v = Run-Holds w r run in cc (v.busy, ap is_working q, starts_refused s.worker.timer x e)
    Run-Holds w r (returns {s = s} msg t run q e) =
        let v = Run-Holds w r run in
        let (free, same) = ends_ended s.worker.timer t e in
        record {
          sent_all = v.sent_all;
          same_pid = v.same_pid;
          busy = free;
          late = λ k. same ∙ v.late (λ a. cc (a, q));
          body = λ a b k. cc;
        }
    Run-Holds w r (raises {s = s} msg x run q e) =
        let v = Run-Holds w r run in cc (v.busy, ap is_working q, ends_refused s.worker.timer x e)
    Run-Holds w r (replies {h = h} {x = x} {l = l} {s = s} msg res run q) =
        reply-Holds w h x l s msg res (Run-Holds w r run) q
    Run-Holds w r (takes {s = s} m rest run q e) =
        let v = Run-Holds w r run in
        let (a, b) = take_same s.worker.timer rest s.worker.timer.place in
        record {
          sent_all = v.sent_all;
          same_pid = v.same_pid;
          busy = a ∙ v.busy;
          late = λ k. b ∙ v.late k;
          body = v.body;
        }
    Run-Holds w r (expires dump run q p e) =
        let v = Run-Holds w r run in
        record {
          sent_all = v.sent_all;
          same_pid = v.same_pid;
          busy = v.busy;
          late = v.late;
          body = v.body;
        }
    Run-Holds w r (marks {h = h} {l = l} {s = s} dump run q) =
        mark-Holds w h l s dump (Run-Holds w r run)

    -- Whatever the two threads do, and however long a dump takes: if the stream takes every reply, a
    -- worker that was ready has sent, in order, the answer to each handled message during which no
    -- mark was set, and nothing else. And the timer never refuses it: a job can start while the worker
    -- waits, and the one that runs can end.
    pub Run-unmarked :
        (w : Worker) (h : List Handled) (x l : Bool) (s : Watch)
        → IsReady w
        → Run host w h x l s
        → (s.worker.sent ≡ w.sent ++ unmarked w.pid h)
          × (s.phase ≡ waiting → job_starts s.worker.timer ≡ ok (started s.worker.timer))
          × ((msg : List Bytes)
              → s.phase ≡ working msg
              → job_ends s.worker.timer ≡ ok (ended s.worker.timer))
    Run-unmarked w h x l s r run =
        let v = Run-Holds w r run in
        (
          v.sent_all,
          λ q. starts_free s.worker.timer (v.busy ∙ ap is_working q),
          λ msg q. ends_busy s.worker.timer (v.busy ∙ ap is_working q),
        )
