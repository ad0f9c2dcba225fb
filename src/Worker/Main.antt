-- ===== src/Worker/Main.antt =====
-- `main` of powerhose/worker.py, on the options that argparse gives it.
pub mod Served
use powerhoc.Common.{ℕ, Bool, true, false, List, [], Option, none, some, Bytes, ◌≡◌, refl, ap}
use powerhoc.Dict.{Dict}
use powerhoc.Exc.{Exn, Result, ok, err}
use powerhoc.Loop.{Round}
use powerhoc.Params.{decode_params}
use powerhoc.Resolve.{Imports, resolve_name}
use powerhoc.Timer
use powerhoc.Timer.Stop.{Sound, new-Sound}
use powerhoc.Worker.{Host}
use powerhoc.Worker.Life.{
  Process, Outcome, start_worker, get_params, run_worker, IsDown, run_worker-IsDown,
}
use powerhoc.Worker.Lifetime.{Lives, Lives-CanEnd}
use powerhoc.Worker.Threads.{Phase, Handled}

-- `max_age` is `none` for -1.
pub record Args : Type 0 where
  pub target : Bytes
  pub params : Option Bytes
  pub max_age : Option ℕ
  pub max_age_delta : ℕ

-- `Worker.__init__`, with the default of three retries for the pings
unfoldable pub new_process : Host → ℕ → Dict Bytes Bytes → Process
unfolding Timer.new
new_process host pid params = record {
  host = host;
  worker = record {
    pid = pid;
    running = false;
    timer = Timer.new;
    loop_stopped = false;
    sent = [];
    errors = [];
    unsent = 0;
  };
  ping = record {
    running = false;
    tries = 0;
    retries = 3;
    stop_loop = true;
    loop_stopped = false;
    has_onbeat = false;
    beats = 0;
    losses = 0;
  };
  context_open = true;
  delayed_exit = none;
  params = params;
  published = [];
}

-- `if args.params is None: {} else: decode_params(args.params)`
unfoldable pub read_params : Option Bytes → Result (Dict Bytes Bytes)
unfolding decode_params
read_params none = ok []
read_params (some text) = decode_params text

-- What happens while the worker runs: the random delay, the rounds of its event loop and of the
-- stethoscope's, what the messages and the threads do to it, and how `start` ends.
pub record Run : Type 0 where
  pub randint : ℕ → ℕ
  pub beats : List (Round × Bool)
  pub rounds : List (Round × Bool)
  pub meanwhile : Process → Process
  pub how : Outcome

unfoldable pub started : Host → Run → Args → ℕ → Dict Bytes Bytes → Process
unfolding new_process start_worker
started host run args pid params =
    (start_worker run.randint args.max_age args.max_age_delta run.beats run.rounds
      (new_process host pid params)).1

-- The lines of `main` behind the resolution of the target, for what the target is as a host
unfoldable pub main_with :
    Host → Run → Args → ℕ → Result (Dict Bytes Bytes) → Result ℕ × Option Process
unfolding started run_worker
main_with host run args pid (err e) = (err e, none)
main_with host run args pid (ok params) =
    let (r, p) = run_worker run.how (run.meanwhile (started host run args pid params)) in
    (r, some p)

-- What the run says of the time between is what the code can do.
abbrev pub Lived : Host → Run → Args → ℕ → Dict Bytes Bytes → Type 0
Lived host run args pid params =
    let p = started host run args pid params in
    (h : List Handled) × (place : Phase) × Lives p h place (run.meanwhile p)

pub started-Sound :
    (host : Host) (run : Run) (args : Args) (pid : ℕ) (params : Dict Bytes Bytes)
    → Sound (started host run args pid params).worker.timer
unfolding started start_worker
started-Sound host run args pid params = new-Sound

-- `hosts` is what a call of an object does.
module _ {S Obj : Type 0} (imports : Imports S Obj) (hosts : Obj → Host) where
  unfoldable pub main_resolved : Run → Args → ℕ → Result Obj × S → Result ℕ × Option Process
  unfolding main_with read_params
  main_resolved run args pid (err e, s) = (err e, none)
  main_resolved run args pid (ok target, s) =
      main_with (hosts target) run args pid (read_params args.params)

  -- `main`
  unfoldable pub main_worker : Run → Args → ℕ → S → Result ℕ × Option Process
  unfolding resolve_name main_resolved
  main_worker run args pid s = main_resolved run args pid (resolve_name imports args.target s)

  -- How `main` ends.
  pub data Exits (run : Run) (args : Args) (pid : ℕ) (s : S) (res : Result ℕ × Option Process)
      : Type 0 where
    no_target :
        (e : Exn)
        → (resolve_name imports args.target s).0 ≡ err e
        → res ≡ (err e, none)
        → Exits run args pid s res
    no_params :
        (e : Exn) → read_params args.params ≡ err e → res ≡ (err e, none) → Exits run args pid s res
    went_down :
        (target : Obj) (r : Result ℕ) (p : Process) (params : Dict Bytes Bytes)
        → (resolve_name imports args.target s).0 ≡ ok target
        → read_params args.params ≡ ok params
        → get_params (started (hosts target) run args pid params) ≡ params
        → IsDown p
        → res ≡ (r, some p)
        → Exits run args pid s res

  with-Exits :
      (target : Obj) (run : Run) (args : Args) (pid : ℕ) (s : S)
      (params : Result (Dict Bytes Bytes))
      → ((params : Dict Bytes Bytes) → Lived (hosts target) run args pid params)
      → (resolve_name imports args.target s).0 ≡ ok target
      → read_params args.params ≡ params
      → Exits run args pid s (main_with (hosts target) run args pid params)
  unfolding main_with
  with-Exits target run args pid s (err e) h f q = no_params e q refl
  with-Exits target run args pid s (ok params) h f q =
      let (handled, place, lives) = h params in
      went_down target _ _ params f q (unfold get_params started start_worker in refl)
        (run_worker-IsDown run.how _
          (Lives-CanEnd lives (started-Sound (hosts target) run args pid params)))
        refl

  resolved-Exits :
      (run : Run) (args : Args) (pid : ℕ) (s : S) (found : Result Obj × S)
      → ((target : Obj) (params : Dict Bytes Bytes) → Lived (hosts target) run args pid params)
      → resolve_name imports args.target s ≡ found
      → Exits run args pid s (main_resolved run args pid found)
  unfolding main_resolved
  resolved-Exits run args pid s (err e, s') h q = no_target e (ap (λ p. p.0) q) refl
  resolved-Exits run args pid s (ok target, s') h q =
      with-Exits target run args pid s _ (h target) (ap (λ p. p.0) q) refl

  -- If what happens while the worker runs is what its threads can do: `main` raises what the resolution
  -- of the target or the decoding of the parameters raises, and has no worker then. Otherwise the
  -- target finds the decoded parameters in `get_params`, and however `start` ends, the worker is down
  -- at the end.
  pub main_worker-Exits :
      (run : Run) (args : Args) (pid : ℕ) (s : S)
      → ((target : Obj) (params : Dict Bytes Bytes) → Lived (hosts target) run args pid params)
      → Exits run args pid s (main_worker run args pid s)
  unfolding main_worker
  main_worker-Exits run args pid s h = resolved-Exits run args pid s _ h refl
