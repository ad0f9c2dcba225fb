-- ===== src/Worker/Threads/Mismarks.antt =====
-- A slow dump sets its mark on a later job.
use powerhoc.Common.{Bool, true, false, List, [], ◌∷◌, ◌++◌, none, some, Bytes, ◌≡◌, refl, ap, ◌∙◌}
use powerhoc.Timer.{idle, starting, put, take_msg, time_out}
use powerhoc.Worker.{Worker, Host, run_target}
use powerhoc.Worker.Replies.{started, IsReady, Delivers, answer}
use powerhoc.Worker.Threads.{
  waiting, working, ending, Watch, set_timer, Handled, Run, begins, receives, returns, replies,
  takes, expires, marks,
}
use powerhoc.Worker.Threads.Marks.{
  is_working, starts_free, ended, ends_busy, Run-Holds, Run-unmarked,
}

module _ (host : Host) where
  -- A job whose time runs out, and that is answered while its dump is made
  overrun :
      (w : Worker) (h : List Handled) (x l : Bool) (s : Watch) (msg dump : List Bytes)
      → Run host w h x l s
      → s.phase ≡ waiting
      → s.dumping ≡ none
      → s.worker.timer.working ≡ false
      → s.worker.timer.place ≡ idle
      → s.worker.timer.queue ≡ []
      → (u : Watch) × Run host w
          (h ++ record { msg = msg; expired = true; marked = false } ∷ [])
          false
          false
          u
        × (u.phase ≡ waiting)
        × (u.dumping ≡ some dump)
  unfolding put take_msg
  overrun w h x l s msg dump run q d r p e =
      let t = started s.worker.timer in
      let r1 : Run host w h false false (record (set_timer t s) { phase = working msg }) =
        receives msg t run q (starts_free s.worker.timer r) in
      let t' = take_msg t [] t.place in
      let r2 : Run host w h false false (record (set_timer t' s) { phase = working msg }) =
        takes starting [] r1 d (ap (λ m. m ++ starting ∷ []) e) in
      let r3 : Run host w h true false
          (record (set_timer t' s) { phase = working msg; dumping = some dump }) =
        expires dump r2 d (rw p refl) (rw p refl) in
      let res = run_target host msg in
      let r4 : Run host w h true false
          (record (set_timer (ended t') s) { phase = ending msg res; dumping = some dump }) =
        returns msg (ended t') r3 refl (ends_busy t' (rw p refl)) in
      (_, replies msg res r4 refl, refl, refl)

  -- A job during which the mark of an earlier one is set
  spoiled :
      (w : Worker) (h : List Handled) (x l : Bool) (s : Watch) (msg dump : List Bytes)
      → Run host w h x l s
      → s.phase ≡ waiting
      → s.dumping ≡ some dump
      → s.worker.timer.working ≡ false
      → (u : Watch) × Run host w
          (h ++ record { msg = msg; expired = false; marked = true } ∷ [])
          false
          false
          u
  unfolding put time_out
  spoiled w h x l s msg dump run q d r =
      let t = started s.worker.timer in
      let r1 : Run host w h false false (record (set_timer t s) { phase = working msg }) =
        receives msg t run q (starts_free s.worker.timer r) in
      let t' = time_out dump t in
      let r2 : Run host w h false true
          (record (set_timer t' s) { phase = working msg; dumping = none }) =
        marks dump r1 d in
      let res = run_target host msg in
      let r3 : Run host w h false true
          (record (set_timer (ended t') s) { phase = ending msg res; dumping = none }) =
        returns msg (ended t') r2 refl (ends_busy t' refl) in
      (_, replies msg res r3 refl)

  -- A ready worker whose timer's thread waits for a job and has no message left can be given two jobs
  -- so that the time of the first runs out, and not that of the second, and yet the first is answered
  -- and the second is not: the first is answered while its dump is made, and the mark falls on the
  -- second. The stream takes every reply.
  pub marks_astray :
      (delivers : Delivers host) (w : Worker) (first second dump : List Bytes)
      → IsReady w
      → w.timer.place ≡ idle
      → w.timer.queue ≡ []
      → (s : Watch) × Run host w
          (record { msg = first; expired = true; marked = false }
            ∷ record { msg = second; expired = false; marked = true }
            ∷ [])
          false
          false
          s
        × (s.worker.sent ≡ w.sent ++ answer host w.pid first ∷ [])
  marks_astray delivers w first second dump r p q =
      let (s, run, waits, dumps) = overrun w [] false false _ first dump begins refl refl r p q in
      let v = Run-Holds host delivers w r run in
      let (u, run') =
        spoiled w _ _ _ s second dump run waits dumps (v.busy ∙ ap is_working waits) in
      (u, run', (Run-unmarked host delivers w _ _ _ u r run').0)
