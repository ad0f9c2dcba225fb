-- ===== src/Worker/Main/Served.antt =====
-- What a worker has sent when `main` is over.
use powerhoc.Common.{ℕ, List, Option, some, Bytes, ◌≡◌, refl, ◌∙◌}
use powerhoc.Dict.{Dict}
use powerhoc.Exc.{Result, ok, err}
use powerhoc.Resolve.{Imports, resolve_name}
use powerhoc.Worker.{Host}
use powerhoc.Worker.Life.{Process, run_worker, run_worker-sent, IsDown, run_worker-IsDown}
use powerhoc.Worker.Lifetime.{Lives, Lives-CanEnd, Lives-sent}
use powerhoc.Worker.Main.{
  Args, Run, started, started-Sound, read_params, main_with, main_resolved, main_worker,
}
use powerhoc.Worker.Replies.{Delivers, IsReady}
use powerhoc.Worker.Threads.{Phase, Handled}
use powerhoc.Worker.Threads.Marks.{unmarked}

started-IsReady :
    (host : Host) (run : Run) (args : Args) (pid : ℕ) (params : Dict Bytes Bytes)
    → IsReady (started host run args pid params).worker
unfolding started
started-IsReady host run args pid params = refl

-- `main` has a worker, which is down, and has sent these replies.
abbrev pub HasServed : List Bytes → Result ℕ × Option Process → Type 0
HasServed replies res =
    (r : Result ℕ) × (p : Process) × (res ≡ (r, some p)) × IsDown p × (p.worker.sent ≡ replies)

with-HasServed :
    (host : Host) (run : Run) (args : Args) (pid : ℕ) (params : Dict Bytes Bytes) (h : List Handled)
    (place : Phase)
    → Delivers host
    → (let p = started host run args pid params in Lives p h place (run.meanwhile p))
    → HasServed (unmarked host pid h) (main_with host run args pid (ok params))
unfolding main_with started
with-HasServed host run args pid params h place d lives =
    let p = run.meanwhile (started host run args pid params) in
    (
      (run_worker run.how p).0,
      (run_worker run.how p).1,
      refl,
      run_worker-IsDown run.how _ (Lives-CanEnd lives (started-Sound host run args pid params)),
      run_worker-sent run.how p ∙ Lives-sent d (started-IsReady host run args pid params) lives,
    )

module _ {S Obj : Type 0} (imports : Imports S Obj) (hosts : Obj → Host) (run : Run) (args : Args)
    (pid : ℕ) where
  resolved-HasServed :
      (replies : List Bytes) (found : Obj) (res : Result Obj × S)
      → res.0 ≡ ok found
      → HasServed replies (main_with (hosts found) run args pid (read_params args.params))
      → HasServed replies (main_resolved imports hosts run args pid res)
  unfolding main_resolved
  resolved-HasServed replies found (ok target, s) e served =
      let same : target ≡ found = cc in rw same served
  resolved-HasServed replies found (err x, s) e served = cc

  -- If the target resolves to `found` and the parameters can be decoded, the stream takes every
  -- reply, and what happens while the worker runs is what its threads can do: `main` gets a worker
  -- which is down at the end, however `start` ends, and which has sent, in order, the answers of
  -- `found` to the handled messages during which no mark was set, and nothing else.
  pub main_worker-HasServed :
      (s : S) (found : Obj) (params : Dict Bytes Bytes) (h : List Handled) (place : Phase)
      → (resolve_name imports args.target s).0 ≡ ok found
      → read_params args.params ≡ ok params
      → Delivers (hosts found)
      → (let p = started (hosts found) run args pid params in Lives p h place (run.meanwhile p))
      → HasServed (unmarked (hosts found) pid h) (main_worker imports hosts run args pid s)
  unfolding main_worker
  main_worker-HasServed s found params h place e q d lives =
      resolved-HasServed (unmarked (hosts found) pid h) found (resolve_name imports args.target s) e
        (rw q (with-HasServed (hosts found) run args pid params h place d lives))
