-- ===== src/Tests/Clusters.antt =====
-- The command lines of a cluster.
use powerhoc.Common.{
  Bytes, codes, [], ◌∷◌, true, false, List, none, some, ◌≡◌, refl, ◌≢◌, Lacks, arith,
}
use powerhoc.Cluster.{Settings, params_part, broker_cmd, worker_cmd, command}
use powerhoc.Cluster.Arguments.{AreWords, IsWord, all_plain, words}
use powerhoc.CommandLine.{
  int, float, Parser, Namespace, broker_parser, default_backend, default_heartbeat,
}
use powerhoc.CommandLine.Mains.{read_broker, read_worker, read_cluster, attr, text_attr, flag_attr}
use powerhoc.CommandLine.Reading.{
  is_value, find, advance, read, finished, no_values, plain_reading, IsDocumented, take_option,
  take_value, convert,
}
use powerhoc.CommandLine.Started.{
  behind_module, Starts, broker_args, worker_args, command_read_back,
}
use powerhoc.CommandLine.Namespaces.{AreValues}
use powerhoc.CommandLine.Defaults.{read_cluster_by_default}
use powerhoc.Dict.{bytes_eq, get, set}
use powerhoc.Exc.{Result, ok, err, raised, ◌>>=◌}
use powerhoc.Params.{encode_params}
use powerhoc.Text.{lstrip, rstrip}
use powerhoc.Text.Decimal.{pos, to_int}
use powerhoc.Worker.Main.{read_params}

abbrev pub a_cluster : Settings
a_cluster = record {
  python = codes "python";
  target = codes "my.jobs.echo";
  frontend = codes "ipc:///tmp/f";
  backend = codes "ipc:///tmp/b";
  heartbeat = codes "ipc:///tmp/h";
  logfile = codes "stdout";
  debug = true;
  worker_params = (codes "one", codes "1") ∷ [];
  timeout = codes "7.5";
  max_age = codes "-1";
  max_age_delta = codes "0";
}

broker_line :
    command (broker_cmd a_cluster)
    ≡ codes
        "python -m powerhose.broker --logfile stdout  --debug --frontend ipc:///tmp/f --backend ipc:///tmp/b --heartbeat ipc:///tmp/h"
unfolding command broker_cmd
broker_line = refl

is_word : {w : Bytes} → w ≢ [] → Lacks b' ' w → all_plain w ≡ true → IsWord w
is_word h l p = (h, l, p)

pub all_words : AreWords a_cluster
unfolding params_part encode_params
all_words = record {
  python = is_word (λ e. cc) (omega arith) refl;
  target = is_word (λ e. cc) (omega arith) refl;
  frontend = is_word (λ e. cc) (omega arith) refl;
  backend = is_word (λ e. cc) (omega arith) refl;
  heartbeat = is_word (λ e. cc) (omega arith) refl;
  logfile = is_word (λ e. cc) (omega arith) refl;
  timeout = is_word (λ e. cc) (omega arith) refl;
  max_age = is_word (λ e. cc) (omega arith) refl;
  max_age_delta = is_word (λ e. cc) (omega arith) refl;
  params = (is_word (λ e. cc) (omega arith) refl, (is_word (λ e. cc) (omega arith) refl, tt));
}

-- A float is its text, and every command line that is not plain is refused.
abbrev pub documented_parser : Parser Bytes → List Bytes → Result (Namespace Bytes)
documented_parser p ws = elim (plain_reading (λ w. some w) p ws) [
  | none ↦ err (raised (codes "SystemExit"))
  | some args ↦ ok args
]

pub parser-IsDocumented : IsDocumented (λ w. some w) (λ w. w) documented_parser
parser-IsDocumented p ws args ours e = rw (e, documented_parser) refl

-- Every line is split at its blanks.
abbrev pub plain_argv : Bytes → List Bytes
plain_argv line = behind_module (words line)

pub plain_argv-Starts : Starts plain_argv
plain_argv-Starts line h = refl

checked :
    read_broker documented_parser (codes "--frontend" ∷ codes "x" ∷ codes "--check" ∷ [])
    ≡ ok (record {
      options = record {
        purge_ghosts = false;
        check = true;
        frontend = codes "x";
        backend = default_backend;
        heartbeat = default_heartbeat;
      };
      debug = false;
      logfile = codes "stdout";
    })
unfolding read_broker broker_parser plain_reading read advance find take_option take_value convert
    is_value set finished no_values text_attr flag_attr attr get
checked = refl

pub all_values : AreValues (λ w. some w) a_cluster (codes "7.5") (codes "-1") (pos 0)
unfolding is_value encode_params to_int lstrip rstrip
all_values = record {
  target = refl;
  frontend = refl;
  backend = refl;
  heartbeat = refl;
  logfile = refl;
  params = refl;
  timeout_text = refl;
  max_age_text = refl;
  delta_text = refl;
  timeout_float = refl;
  max_age_float = refl;
  delta_int = refl;
}

command_read_back_example :
    (read_broker documented_parser (plain_argv (command (broker_cmd a_cluster)))
      ≡ ok (broker_args a_cluster))
    × (read_worker documented_parser (λ w. w) (plain_argv (command (worker_cmd a_cluster)))
        ≡ ok (worker_args a_cluster (codes "7.5") (codes "-1") (pos 0)))
    × (read_params (worker_args a_cluster (codes "7.5") (codes "-1") (pos 0)).params
        ≡ ok a_cluster.worker_params)
command_read_back_example =
    command_read_back (λ w. some w) (λ w. w) documented_parser parser-IsDocumented plain_argv
      plain_argv-Starts a_cluster (codes "7.5") (codes "-1") (pos 0) all_words all_values (tt, tt)
      ((omega arith, omega arith, omega arith, omega arith), tt)

read_cluster_by_default_example :
    (s : Settings) × (read_cluster documented_parser (codes "python") (codes "jobs.echo" ∷ [])
      ≡ ok (s, int (pos 5)))
    × (read_broker documented_parser (plain_argv (command (broker_cmd s)))
        ≡ read_broker documented_parser [])
    × (read_worker documented_parser (λ w. w) (plain_argv (command (worker_cmd s))) ≡ (
        read_worker documented_parser (λ w. w) (codes "jobs.echo" ∷ []) >>= λ w.
        ok (record w { max_age = float (codes "-1") })))
read_cluster_by_default_example =
    read_cluster_by_default (λ w. some w) (λ w. w) documented_parser parser-IsDocumented plain_argv
      (codes "python") (codes "jobs.echo") (codes "-1") plain_argv-Starts
      (is_word (λ e. cc) (omega arith) refl) (is_word (λ e. cc) (omega arith) refl)
      (unfold is_value in refl) refl refl
