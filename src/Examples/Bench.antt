-- ===== src/Examples/Bench.antt =====
-- The rest of bench.py, and crypto_server.py. `hmac`, `%.4f` and pycryptopp are parameters.

use powerhoc.Cluster.{Settings}
use powerhoc.Cluster.Main.{Arbiter, Outcome, returns, keyboard_interrupt, raises, get_cluster}
use powerhoc.CommandLine.{default_frontend, default_backend, default_heartbeat}
use powerhoc.Common.{ℕ, zero, suc, ◌-◌, ◌/◌, true, false, List, [], ◌∷◌, ◌++◌, Bytes, codes}
use powerhoc.Exc.{Result, ok, err, raised}
use powerhoc.Job.{Job}

-- `_SIZE`, `_THREADS`, `_ONE` and `_PROC`
abbrev pub size : ℕ
size = 400

abbrev pub threads : ℕ
threads = 4

abbrev pub one : ℕ
one = size / threads

abbrev pub procs : ℕ
procs = 10

module _ (hexdigest : Bytes → Bytes → Bytes) (key : Bytes) where
  -- `for i in range(400): seed = hmac.new(_KEY, seed).hexdigest()`
  unfoldable pub hash_loop : ℕ → Bytes → Bytes
  hash_loop zero seed = seed
  hash_loop (suc rounds) seed = hash_loop rounds (hexdigest key seed)

  -- `_sign`, with the seed that it drops
  unfoldable pub sign_data : Bytes → Bytes × Bytes
  unfolding hash_loop
  sign_data data_ = (codes "OK", hash_loop 400 (hexdigest key data_))

  -- `sign`, the target of the benchmark
  unfoldable pub bench_sign : Job → Result Bytes
  unfolding sign_data
  bench_sign job = ok (sign_data job.job_data).0

-- `timed`: what is written, and the end of the call, whatever it is
unfoldable pub bench_timed :
    {A : Type 0} → (ℕ → Bytes) → Bytes → ℕ → ℕ → Result A → List Bytes × Result A
bench_timed seconds msg start end_ r =
    ((msg ++ codes "...") ∷ (seconds (end_ - start) ++ codes " s\n") ∷ [], r)

-- the arguments of `get_cluster` in `_run_cluster`
unfoldable pub bench_settings : Bytes → Settings
bench_settings python = record {
  python = python;
  target = codes "bench.sign";
  frontend = default_frontend;
  backend = default_backend;
  heartbeat = default_heartbeat;
  logfile = codes "/tmp/phose";
  debug = false;
  worker_params = [];
  timeout = codes "7.5";
  max_age = codes "-1";
  max_age_delta = codes "0";
}

-- `_run_cluster`: without a handler, a `KeyboardInterrupt` comes out of it.
unfoldable pub run_bench_cluster : Bytes → Outcome → Result (Unit {0}) × Arbiter
unfolding bench_settings get_cluster
run_bench_cluster python how =
    let a = get_cluster (bench_settings python) procs (codes ".") in
    let a' = record a { started = true; stopped = true } in
    elim how [
      | returns ↦ (ok tt, a')
      | keyboard_interrupt ↦ (err (raised (codes "KeyboardInterrupt")), a')
      | raises e ↦ (err e, a')
    ]

-- `cmd` in `run_cluster`
unfoldable pub bench_command : Bytes → Bytes
bench_command python = python ++ codes " -c \"import bench; bench._run_cluster()\""
