-- ===== src/Cluster/Main.antt =====
-- The rest of `get_cluster` and `main` of powerhose/__init__.py. The arbiter of circus is what it was
-- given, the two watchers, with whether it was started and stopped.
use powerhoc.Common.{
  ℕ, ◌-◌, ◌≤◌, ◌<◌, Bool, true, false, ◌&&◌, List, [], ◌∷◌, ◌++◌, Option, none, some, Bytes, codes,
  beq, ltb, All, ◌≡◌, refl, ap, arith, if◌then◌else◌,
}
use powerhoc.Cluster.{Settings, broker_cmd, worker_cmd, command}
use powerhoc.Exc.{Exn, Result, ok, err}
use powerhoc.Resolve.{Imports, resolve_name}

pub data Stream : Type 0 where
  to_stdout to_file : Stream

pub record Watcher : Type 0 where
  pub name : Bytes
  pub cmd : Bytes
  pub numprocesses : ℕ
  pub working_dir : Bytes
  pub executable : Bytes
  pub stream : Stream

pub record Arbiter : Type 0 where
  pub watchers : List Watcher
  pub started : Bool
  pub stopped : Bool

-- `if logfile == 'stdout'`: the class of the stream alone
unfoldable pub stream_of : Bytes → Stream
stream_of logfile = if beq logfile (codes "stdout") then to_stdout else to_file

-- `get_cluster`, up to the wait; a watcher has one process if nothing else is said.
unfoldable pub get_cluster : Settings → ℕ → Bytes → Arbiter
unfolding broker_cmd worker_cmd command stream_of
get_cluster s numprocesses working_dir = record {
  watchers =
      record {
        name = codes "broker";
        cmd = command (broker_cmd s);
        numprocesses = 1;
        working_dir = working_dir;
        executable = s.python;
        stream = stream_of s.logfile;
      }
      ∷ record {
        name = codes "workers";
        cmd = command (worker_cmd s);
        numprocesses = numprocesses;
        working_dir = working_dir;
        executable = s.python;
        stream = stream_of s.logfile;
      }
      ∷ [];
  started = false;
  stopped = false;
}

-- `all([status == 'active' for status in …])`
unfoldable pub all_active : List Bytes → Bool
all_active [] = true
all_active (status ∷ rest) = beq status (codes "active") && all_active rest

-- The wait of a cluster in the background, on the readings of the clock in milliseconds with the
-- statuses that are read next: whether all were active at the end; `none` while it goes on.
unfoldable pub wait : ℕ → List (ℕ × List Bytes) → Option Bool
unfolding all_active
wait start [] = none
wait start ((now, statuses) ∷ rest) =
    let later = wait start rest in
    if ltb (now - start) 5000 then if all_active statuses then some true else later else some false

-- How `cluster.start()` ends in `main`.
pub data Outcome : Type 0 where
  returns keyboard_interrupt : Outcome
  raises : Exn → Outcome

-- `try: cluster.start() except KeyboardInterrupt: pass finally: cluster.stop()`
unfoldable pub run_cluster : Outcome → Arbiter → Result (Unit {0}) × Arbiter
run_cluster (raises e) a = (err e, record a { started = true; stopped = true })
run_cluster _ a = (ok tt, record a { started = true; stopped = true })

module _ {S Obj : Type 0} (imports : Imports S Obj) where
  unfoldable pub main_resolved :
      Settings → ℕ → Outcome → Result Obj × S → Result (Unit {0}) × Option Arbiter
  unfolding get_cluster run_cluster
  main_resolved s n how (err e, t) = (err e, none)
  main_resolved s n how (ok target, t) =
      let (r, a) = run_cluster how (get_cluster s n (codes ".")) in (r, some a)

  -- `main`: the target is resolved only to see that it can be.
  unfoldable pub main_cluster : Settings → ℕ → Outcome → S → Result (Unit {0}) × Option Arbiter
  unfolding main_resolved resolve_name
  main_cluster s n how t = main_resolved s n how (resolve_name imports s.target t)

-- A reading of a wait that goes on: early enough, with a status that is not active.
abbrev pub GoesOn : ℕ → ℕ × List Bytes → Type 0
GoesOn start (now, statuses) = (now - start < 5000) × (all_active statuses ≡ false)

-- The wait passes over readings before the five seconds are over with a status that is not active,
-- and ends at the first other one: all were active then, or the time was over.
pub wait_lem :
    (start : ℕ) (before behind : List (ℕ × List Bytes)) (now : ℕ) (statuses : List Bytes)
    → All (GoesOn start) before
    → (wait start before ≡ none)
      × (now - start < 5000
          → all_active statuses ≡ true
          → wait start (before ++ (now, statuses) ∷ behind) ≡ some true)
      × (5000 ≤ now - start → wait start (before ++ (now, statuses) ∷ behind) ≡ some false)
unfolding wait
wait_lem start [] behind now statuses h =
    (refl, λ soon active. ground (arith, active), λ late. ground arith)
wait_lem start ((n, ss) ∷ before) behind now statuses ((soon, off), hs) =
    let (a, b, c) = wait_lem start before behind now statuses hs in
    (ground (arith, off, a), λ p q. ground (arith, off, b p q), λ p. ground (arith, off, c p))

-- How `main` ends.
pub data Exits {S Obj : Type 0} (imports : Imports S Obj) (s : Settings) (n : ℕ) (t : S)
    (res : Result (Unit {0}) × Option Arbiter) : Type 0 where
  no_target :
      (e : Exn)
      → (resolve_name imports s.target t).0 ≡ err e
      → res ≡ (err e, none)
      → Exits imports s n t res
  was_stopped :
      (r : Result (Unit {0})) (a : Arbiter)
      → a.watchers ≡ (get_cluster s n (codes ".")).watchers
      → a.stopped ≡ true
      → res ≡ (r, some a)
      → Exits imports s n t res

module _ {S Obj : Type 0} (imports : Imports S Obj) where
  run_cluster-stopped :
      (how : Outcome) (a : Arbiter)
      → ((run_cluster how a).1.watchers ≡ a.watchers) × ((run_cluster how a).1.stopped ≡ true)
  unfolding run_cluster
  run_cluster-stopped returns a = (refl, refl)
  run_cluster-stopped keyboard_interrupt a = (refl, refl)
  run_cluster-stopped (raises e) a = (refl, refl)

  resolved-Exits :
      (s : Settings) (n : ℕ) (how : Outcome) (t : S) (found : Result Obj × S)
      → resolve_name imports s.target t ≡ found
      → Exits imports s n t (main_resolved imports s n how found)
  unfolding main_resolved
  resolved-Exits s n how t (err e, u) q = no_target e (ap (λ p. p.0) q) refl
  resolved-Exits s n how t (ok target, u) q =
      let (w, k) = run_cluster-stopped how (get_cluster s n (codes ".")) in was_stopped _ _ w k refl

  -- `main` starts nothing for a target that cannot be resolved, and raises what the resolution did.
  -- For another one it makes the cluster, and has stopped it at the end, however `start` ended.
  pub main_cluster-Exits :
      (s : Settings) (n : ℕ) (how : Outcome) (t : S)
      → Exits imports s n t (main_cluster imports s n how t)
  unfolding main_cluster
  main_cluster-Exits s n how t = resolved-Exits s n how t _ refl
