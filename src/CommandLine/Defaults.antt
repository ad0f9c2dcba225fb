-- ===== src/CommandLine/Defaults.antt =====
-- A cluster that is run with nothing but a target.
use powerhoc.Cluster.{Settings, params_part, broker_cmd, worker_cmd, command}
use powerhoc.Cluster.Arguments.{IsWord, AreWords, all_plain}
use powerhoc.CommandLine.{
  text, int, float, Parser, Namespace, default_frontend, default_backend, default_heartbeat,
  broker_parser, worker_parser, cluster_parser,
}
use powerhoc.CommandLine.Mains.{
  attr, text_attr, flag_attr, params_attr, read_broker, read_worker, read_cluster,
}
use powerhoc.CommandLine.Reading.{
  is_value, find, take_positional, advance, read, finished, no_values, plain_reading, of_broker,
  of_worker, of_cluster, IsDocumented,
}
use powerhoc.CommandLine.Started.{Starts, broker_args, worker_args, command_read_back}
use powerhoc.CommandLine.Namespaces.{AreValues}
use powerhoc.Common.{
  true, false, List, [], ◌∷◌, Option, some, Bytes, codes, Lacks, ◌≡◌, ◌≢◌, refl, sym, ◌∙◌, arith,
}
use powerhoc.Dict.{bytes_eq, get, set}
use powerhoc.Exc.{Result, ok, ◌>>=◌}
use powerhoc.Params.{encode_params}
use powerhoc.Text.{lstrip, rstrip}
use powerhoc.Text.Decimal.{pos, to_int}

-- The settings of a cluster with this interpreter and target, and the defaults for all else
abbrev pub default_settings : Bytes → Bytes → Settings
default_settings python target = record {
  python = python;
  target = target;
  frontend = default_frontend;
  backend = default_backend;
  heartbeat = default_heartbeat;
  logfile = codes "stdout";
  debug = false;
  worker_params = [];
  timeout = codes "7.5";
  max_age = codes "-1";
  max_age_delta = codes "0";
}

word : {w : Bytes} → w ≢ [] → Lacks b' ' w → all_plain w ≡ true → IsWord w
word h l p = (h, l, p)

default-AreWords :
    (python target : Bytes)
    → IsWord python
    → IsWord target
    → AreWords (default_settings python target)
unfolding params_part
default-AreWords python target p t = record {
  python = p;
  target = t;
  frontend = word (λ e. cc) (omega arith) refl;
  backend = word (λ e. cc) (omega arith) refl;
  heartbeat = word (λ e. cc) (omega arith) refl;
  logfile = word (λ e. cc) (omega arith) refl;
  timeout = word (λ e. cc) (omega arith) refl;
  max_age = word (λ e. cc) (omega arith) refl;
  max_age_delta = word (λ e. cc) (omega arith) refl;
  params = tt;
}

module _ {F : Type 0} (to_float : Bytes → Option F) (literal : Bytes → F) where
  default-AreValues :
      (python target : Bytes) (t a : F)
      → is_value target ≡ true
      → to_float (codes "7.5") ≡ some t
      → to_float (codes "-1") ≡ some a
      → AreValues to_float (default_settings python target) t a (pos 0)
  unfolding is_value to_int rstrip lstrip encode_params
  default-AreValues python target t a h f g = record {
    target = h;
    frontend = refl;
    backend = refl;
    heartbeat = refl;
    logfile = refl;
    params = refl;
    timeout_text = refl;
    max_age_text = refl;
    delta_text = refl;
    timeout_float = f;
    max_age_float = g;
    delta_int = refl;
  }

  module _ (parse_args : Parser F → List Bytes → Result (Namespace F))
      (documented : IsDocumented to_float literal parse_args) where
    broker_alone :
        (python target : Bytes)
        → read_broker parse_args [] ≡ ok (broker_args (default_settings python target))
    unfolding read_broker text_attr flag_attr attr get plain_reading no_values read finished
        broker_parser
    broker_alone python target = rw (documented broker_parser [] _ of_broker refl) refl

    worker_reading :
        (target : Bytes)
        → is_value target ≡ true
        → plain_reading to_float (worker_parser literal) (target ∷ [])
          ≡ some (
              (codes "target", text target) ∷ no_values to_float [] (worker_parser literal).options)
    unfolding plain_reading no_values read finished worker_parser advance find take_positional set
    worker_reading target h = ground (arith, h)

    cluster_reading :
        (target : Bytes)
        → is_value target ≡ true
        → plain_reading to_float cluster_parser (target ∷ [])
          ≡ some (
              (codes "target", text target)
              ∷ no_values to_float [] (cluster_parser {F = F}).options)
    unfolding plain_reading no_values read finished cluster_parser advance find take_positional set
    cluster_reading target h = ground (arith, h)

    worker_alone :
        (python target : Bytes) (a : F)
        → is_value target ≡ true
        → (read_worker parse_args literal (target ∷ []) >>= λ w.
            ok (record w { max_age = float a }))
          ≡ ok (worker_args (default_settings python target) (literal (codes "7.5")) a (pos 0))
    unfolding read_worker text_attr flag_attr params_attr attr get no_values worker_parser
    worker_alone python target a h =
        rw (documented (worker_parser literal) _ _ of_worker (worker_reading target h)) refl

    cluster_alone :
        (python target : Bytes)
        → is_value target ≡ true
        → read_cluster parse_args python (target ∷ [])
          ≡ ok (default_settings python target, int (pos 5))
    unfolding read_cluster text_attr flag_attr attr get no_values cluster_parser
    cluster_alone python target h =
        rw (documented cluster_parser _ _ of_cluster (cluster_reading target h)) refl

    -- A cluster that is run with a target alone starts a broker that reads what one started by hand
    -- without any option reads, and five workers that each read what one started by hand with that
    -- target alone reads, but for `max_age`: it goes through the text of -1, and is a float then. The
    -- programs are started as `Starts` says, the interpreter and the target are plain words, the target
    -- cannot be taken for an option, and the float of "7.5" is the one that the literal is.
    pub read_cluster_by_default :
        (argv : Bytes → List Bytes) (python target : Bytes) (a : F)
        → Starts argv
        → IsWord python
        → IsWord target
        → is_value target ≡ true
        → to_float (codes "7.5") ≡ some (literal (codes "7.5"))
        → to_float (codes "-1") ≡ some a
        → (s : Settings) × (read_cluster parse_args python (target ∷ []) ≡ ok (s, int (pos 5)))
          × (read_broker parse_args (argv (command (broker_cmd s))) ≡ read_broker parse_args [])
          × (read_worker parse_args literal (argv (command (worker_cmd s))) ≡ (
              read_worker parse_args literal (target ∷ []) >>= λ w.
              ok (record w { max_age = float a })))
    read_cluster_by_default argv python target a starts p t h f g =
        let (b, w, ps) =
          command_read_back to_float literal parse_args documented argv starts
            (default_settings python target) (literal (codes "7.5")) a (pos 0)
            (default-AreWords python target p t) (default-AreValues python target _ a h f g) tt
            tt in
        (
          default_settings python target,
          cluster_alone python target h,
          b ∙ sym (broker_alone python target),
          w ∙ sym (worker_alone python target a h),
        )
