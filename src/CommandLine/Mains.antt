-- ===== src/CommandLine/Mains.antt =====
-- What the three `main` take from the namespace that argparse gives them.
use powerhoc.CommandLine.{
  Value, text, flag, int, float, absent, Parser, Namespace, broker_parser, worker_parser,
  cluster_parser,
}
use powerhoc.Broker.Life.{Options}
use powerhoc.Cluster.{Settings}
use powerhoc.Common.{Bool, List, [], Option, none, some, Bytes, codes}
use powerhoc.Dict.{bytes_eq, get}
use powerhoc.Exc.{Result, ok, err, type_error, raised, ◌>>=◌}

module _ {F : Type 0} where
  -- `args.name`
  unfoldable pub attr : Bytes → Namespace F → Result (Value F)
  unfolding get
  attr name args = elim (get name args) [
    | none ↦ err (raised (codes "AttributeError"))
    | some v ↦ ok v
  ]

  -- An attribute that is used as a string, or for its truth
  unfoldable pub text_attr : Bytes → Namespace F → Result Bytes
  unfolding attr
  text_attr name args = do
    v ← attr name args
    elim v [
      | text s ↦ ok s
      | flag b ↦ err type_error
      | int n ↦ err type_error
      | float x ↦ err type_error
      | absent ↦ err type_error
    ]

  unfoldable pub flag_attr : Bytes → Namespace F → Result Bool
  unfolding attr
  flag_attr name args = do
    v ← attr name args
    elim v [
      | text s ↦ err type_error
      | flag b ↦ ok b
      | int n ↦ err type_error
      | float x ↦ err type_error
      | absent ↦ err type_error
    ]

  -- `args.params`, a string or `None`
  unfoldable pub params_attr : Namespace F → Result (Option Bytes)
  unfolding attr
  params_attr args = do
    v ← attr (codes "params") args
    elim v [
      | text s ↦ ok (some s)
      | flag b ↦ err type_error
      | int n ↦ err type_error
      | float x ↦ err type_error
      | absent ↦ ok none
    ]

-- What the broker's `main` uses: its options, and the two for `set_logger`
pub record BrokerArgs : Type 0 where
  pub options : Options
  pub debug : Bool
  pub logfile : Bytes

-- What the worker's `main` uses. The numbers go to `Worker` as they are.
pub record WorkerArgs (F : Type 0) : Type 0 where
  pub target : Bytes
  pub backend : Bytes
  pub heartbeat : Bytes
  pub params : Option Bytes
  pub timeout : Value F
  pub max_age : Value F
  pub max_age_delta : Value F
  pub debug : Bool
  pub logfile : Bytes

module _ {F : Type 0} (parse_args : Parser F → List Bytes → Result (Namespace F)) where
  -- The broker's `main`, up to its first test
  unfoldable pub read_broker : List Bytes → Result BrokerArgs
  unfolding broker_parser text_attr flag_attr
  read_broker argv = do
    args ← parse_args broker_parser argv
    debug ← flag_attr (codes "debug") args
    logfile ← text_attr (codes "logfile") args
    purge_ghosts ← flag_attr (codes "purge_ghosts") args
    check ← flag_attr (codes "check") args
    frontend ← text_attr (codes "frontend") args
    backend ← text_attr (codes "backend") args
    heartbeat ← text_attr (codes "heartbeat") args
    ok (record {
      options = record {
        purge_ghosts = purge_ghosts;
        check = check;
        frontend = frontend;
        backend = backend;
        heartbeat = heartbeat;
      };
      debug = debug;
      logfile = logfile;
    })

  -- The worker's `main`, up to `Worker(…)`
  unfoldable pub read_worker : (Bytes → F) → List Bytes → Result (WorkerArgs F)
  unfolding worker_parser text_attr flag_attr params_attr attr
  read_worker literal argv = do
    args ← parse_args (worker_parser literal) argv
    debug ← flag_attr (codes "debug") args
    logfile ← text_attr (codes "logfile") args
    target ← text_attr (codes "target") args
    params ← params_attr args
    backend ← text_attr (codes "backend") args
    heartbeat ← text_attr (codes "heartbeat") args
    timeout ← attr (codes "timeout") args
    max_age ← attr (codes "max_age") args
    max_age_delta ← attr (codes "max_age_delta") args
    ok (record {
      target = target;
      backend = backend;
      heartbeat = heartbeat;
      params = params;
      timeout = timeout;
      max_age = max_age;
      max_age_delta = max_age_delta;
      debug = debug;
      logfile = logfile;
    })

  -- The cluster's `main`, up to `get_cluster(…)`: its arguments, the defaults of `get_cluster` for
  -- those that are not given, and the number of processes
  unfoldable pub read_cluster : Bytes → List Bytes → Result (Settings × Value F)
  unfolding cluster_parser text_attr flag_attr attr
  read_cluster python argv = do
    args ← parse_args cluster_parser argv
    debug ← flag_attr (codes "debug") args
    logfile ← text_attr (codes "logfile") args
    target ← text_attr (codes "target") args
    numprocesses ← attr (codes "numprocesses") args
    frontend ← text_attr (codes "frontend") args
    backend ← text_attr (codes "backend") args
    heartbeat ← text_attr (codes "heartbeat") args
    ok (
      record {
        python = python;
        target = target;
        frontend = frontend;
        backend = backend;
        heartbeat = heartbeat;
        logfile = logfile;
        debug = debug;
        worker_params = [];
        timeout = codes "7.5";
        max_age = codes "-1";
        max_age_delta = codes "0";
      },
      numprocesses,
    )
