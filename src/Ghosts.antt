-- ===== src/Ghosts.antt =====
-- `kill_ghost_brokers` of powerhose/util.py, on the processes that psutil lists.
pub mod Kills
use powerhoc.Common.{
  ℕ, Bool, true, false, ◌&&◌, ◌||◌, not, List, [], ◌∷◌, ◌++◌, Option, none, some, Bytes, codes,
  ◌==◌, if◌then◌else◌,
}
use powerhoc.Client.{same_int, ping}
use powerhoc.Retry.{Socket}
use powerhoc.Exc.{Result, ok, err, no_such_process}
use powerhoc.Text.{contains, join, replace}
use powerhoc.Text.Decimal.{ℤ, pos}

-- What psutil tells of a process: its command line, that it may not be read, or that it is gone.
pub data CommandLine : Type 0 where
  words : List Bytes → CommandLine
  access_denied gone : CommandLine

-- `termination` is how `p.terminate()` ends.
pub record Process : Type 0 where
  pub pid : ℕ
  pub cmdline : CommandLine
  pub termination : Result (Unit {0})

-- `'powerhose.broker' in ' '.join(cmdline).replace('-', '.')`
unfoldable pub names_broker : List Bytes → Bool
unfolding contains join replace
names_broker cmdline =
    contains (codes "powerhose.broker") (replace b'-' (codes ".") (join (codes " ") cmdline))

-- `pid == working_broker`, where that may be `None`
unfoldable pub is_working : Option ℤ → ℕ → Bool
is_working none pid = false
is_working (some broker) pid = same_int (pos pid) broker

module _ (own_pid parent_pid : ℕ) (working_broker : Option ℤ) where
  -- One process: whether it is to be terminated.
  unfoldable pub is_ghost : Process → Result Bool
  unfolding names_broker is_working
  is_ghost p = if p.pid == own_pid || p.pid == parent_pid then ok false else elim p.cmdline [
    | gone ↦ err no_such_process
    | access_denied ↦ ok false
    | words cmd ↦ ok (names_broker cmd && not (is_working working_broker p.pid))
  ]

  -- The loop: the pids of `killed`, in order, and whether an exception ended it. A pid is put there
  -- before its process is terminated.
  unfoldable pub kill_ghosts : List Process → List ℕ → Result (Unit {0}) × List ℕ
  unfolding is_ghost
  kill_ghosts [] killed = (ok tt, killed)
  kill_ghosts (p ∷ rest) killed = elim (is_ghost p) [
    | err e ↦ (err e, killed)
    | ok ghost ↦ elim ghost [
      | false ↦ kill_ghosts rest killed
      | true ↦ elim p.termination [
        | err e ↦ (err e, killed ++ p.pid ∷ [])
        | ok u ↦ kill_ghosts rest (killed ++ p.pid ∷ [])
      ]
    ]
  ]

-- `verify_broker`, on a new client: what its ping gives. The client is closed in any case.
unfoldable pub verify_broker :
    {S : Type 0} → Socket S → ℕ → ℕ → ℕ → S → Option (Result (Option ℤ)) × S
unfolding ping
verify_broker socket max_retries fuel timeout fresh = ping socket max_retries fuel timeout fresh

-- The purge, for what `verify_broker` gave: the broker that answered with the pids of `killed`, which
-- stand beside it also where it raises.
unfoldable pub purge :
    ℕ → ℕ → List Process → Result (Option ℤ) → Result (Option ℤ × List ℕ) × List ℕ
unfolding kill_ghosts
purge own_pid parent_pid ps (err e) = (err e, [])
purge own_pid parent_pid ps (ok working) =
    let (r, killed) = kill_ghosts own_pid parent_pid working ps [] in
    elim r [ err e ↦ (err e, killed) | ok u ↦ (ok (working, killed), killed) ]

-- `kill_ghost_brokers`
unfoldable pub kill_ghost_brokers :
    {S : Type 0}
    → Socket S
    → ℕ
    → ℕ
    → ℕ
    → S
    → ℕ
    → ℕ
    → List Process
    → Option (Result (Option ℤ × List ℕ) × List ℕ)
unfolding verify_broker purge
kill_ghost_brokers socket max_retries fuel timeout fresh own_pid parent_pid ps =
    elim (verify_broker socket max_retries fuel timeout fresh).0 [
      | none ↦ none
      | some pinged ↦ some (purge own_pid parent_pid ps pinged)
    ]
