-- ===== src/CommandLine/Started.antt =====
-- What the broker and the workers of a cluster read from the command lines they are started with.

use powerhoc.CommandLine.Namespaces.{
  given, AreValues, broker_namespace, broker_reading, worker_namespace, worker_reading,
}
use powerhoc.Cluster.{Settings, broker_behind, broker_cmd, worker_behind, worker_cmd, command}
use powerhoc.Cluster.Arguments.{AreWords, all_plain, all_plain-cluster, words, words-cluster}
use powerhoc.CommandLine.{int, float, Parser, Parser, Namespace, broker_parser, worker_parser}
use powerhoc.CommandLine.Mains.{
  BrokerArgs, WorkerArgs, attr, text_attr, flag_attr, params_attr, read_broker, read_worker,
}
use powerhoc.CommandLine.Reading.{of_broker, of_worker, IsDocumented}
use powerhoc.Common.{true, false, List, [], ◌∷◌, Option, Bytes, All, ◌≡◌, refl}
use powerhoc.Dict.{Dict, Distinct, bytes_eq, get}
use powerhoc.Exc.{Result, ok}
use powerhoc.Params.Laws.{IsPlain, decode-encode_params}
use powerhoc.Text.Decimal.{ℤ}
use powerhoc.Worker.Main.{read_params}

-- Behind the name of the module that `python -m` runs
abbrev pub behind_module : List Bytes → List Bytes
behind_module (python ∷ m ∷ module_name ∷ ws) = ws
behind_module _ = []

-- What circus and `python -m` make of the `cmd` of a watcher, as far as their documentation is plain:
-- a line without quotes, backslashes and variables is split at its blanks, as `shlex.split` does, and
-- `sys.argv[1:]` is what stands behind the module's name.
abbrev pub Starts : (Bytes → List Bytes) → Type 0
Starts argv = (line : Bytes) → all_plain line ≡ true → argv line ≡ behind_module (words line)

-- What the broker's `main` gets
abbrev pub broker_args : Settings → BrokerArgs
broker_args s = record {
  options = record {
    purge_ghosts = false;
    check = false;
    frontend = s.frontend;
    backend = s.backend;
    heartbeat = s.heartbeat;
  };
  debug = s.debug;
  logfile = s.logfile;
}

module _ {F : Type 0} where
  -- What the worker's `main` gets
  abbrev pub worker_args : Settings → F → F → ℤ → WorkerArgs F
  worker_args s timeout max_age max_age_delta = record {
    target = s.target;
    backend = s.backend;
    heartbeat = s.heartbeat;
    params = given s.worker_params;
    timeout = float timeout;
    max_age = float max_age;
    max_age_delta = int max_age_delta;
    debug = s.debug;
    logfile = s.logfile;
  }

module _ {F : Type 0} (to_float : Bytes → Option F) (literal : Bytes → F) where
  broker_gets :
      (parse_args : Parser F → List Bytes → Result (Namespace F)) (s : Settings) (ws : List Bytes)
      → parse_args broker_parser ws ≡ ok (broker_namespace s.debug s)
      → read_broker parse_args ws ≡ ok (broker_args s)
  unfolding read_broker text_attr flag_attr attr broker_namespace get
  broker_gets parse_args s ws e = rw e refl

  worker_gets :
      (parse_args : Parser F → List Bytes → Result (Namespace F)) (s : Settings) (t a : F) (d : ℤ)
      (ws : List Bytes) (ps : Dict Bytes Bytes)
      → s.worker_params ≡ ps
      → parse_args (worker_parser literal) ws ≡ ok (worker_namespace s.debug s t a d)
      → read_worker parse_args literal ws ≡ ok (worker_args s t a d)
  unfolding read_worker text_attr flag_attr params_attr attr worker_namespace get
  worker_gets parse_args s t a d ws [] q e = rw (e, q) refl
  worker_gets parse_args s t a d ws (item ∷ items) q e = rw (e, q) refl

  given_back :
      (ps : Dict Bytes Bytes) → Distinct ps → All IsPlain ps → read_params (given ps) ≡ ok ps
  unfolding read_params
  given_back [] ds ps = refl
  given_back (item ∷ items) ds ps = decode-encode_params (item ∷ items) (λ e. cc) ds ps

  -- If every setting is one plain word, none can be taken for an option, the numbers are numbers, and
  -- the programs are started as `Starts` says: broker and worker read from the command lines that
  -- `get_cluster` makes for them just the settings. No other switch is on, each number is the one that
  -- was given, and what the worker makes of its parameters is the dict they were given as, if no key
  -- stands twice and no separator in it.
  pub command_read_back :
      (parse_args : Parser F → List Bytes → Result (Namespace F))
      → IsDocumented to_float literal parse_args
      → (argv : Bytes → List Bytes) → Starts argv
      → (s : Settings) (timeout max_age : F) (max_age_delta : ℤ) → AreWords s
      → AreValues to_float s timeout max_age max_age_delta
      → Distinct s.worker_params
      → All IsPlain s.worker_params
      → (read_broker parse_args (argv (command (broker_cmd s))) ≡ ok (broker_args s))
        × (read_worker parse_args literal (argv (command (worker_cmd s)))
            ≡ ok (worker_args s timeout max_age max_age_delta))
        × (read_params (worker_args s timeout max_age max_age_delta).params ≡ ok s.worker_params)
  unfolding broker_behind worker_behind
  command_read_back parse_args h argv starts s t a d w v ds ps =
      let (b, c) = words-cluster s w in
      let (q, r) = all_plain-cluster s w in
      (
        rw (starts _ q, b)
            (broker_gets parse_args s _
              (h broker_parser _ _ of_broker (broker_reading to_float literal s.debug s t a d v))),
        rw (starts _ r, c)
            (worker_gets parse_args s t a d _ s.worker_params refl (
              h (worker_parser literal) _ _ of_worker
                (worker_reading to_float literal s.debug s t a d s.worker_params refl v))),
        given_back s.worker_params ds ps,
      )
