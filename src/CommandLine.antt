-- ===== src/CommandLine.antt =====
-- The command lines of the broker, of a worker and of a cluster: what the three `main` of
-- powerhose/broker.py, powerhose/worker.py and powerhose/__init__.py tell argparse, and in
-- CommandLine/Mains what they take from the namespace that it gives. `parse_args`, the floats and
-- their literals are parameters.
pub mod Mains
pub mod Reading
pub mod Namespaces
pub mod Started
pub mod Defaults
pub mod Programs
use powerhoc.Broker.Life.{Options}
use powerhoc.Cluster.{Settings}
use powerhoc.Common.{Bool, true, false, List, [], ◌∷◌, Option, none, some, Bytes, codes}
use powerhoc.Dict.{Dict, bytes_eq, get}
use powerhoc.Exc.{Result, ok, err, type_error, raised, ◌>>=◌}
use powerhoc.Text.Decimal.{ℤ, pos, negsuc}

-- What an attribute of the namespace holds; `absent` is Python's `None`.
pub data Value (F : Type 0) : Type 0 where
  text : Bytes → Value F
  flag : Bool → Value F
  int : ℤ → Value F
  float : F → Value F
  absent : Value F

-- The `type` of an option, or its `action`
pub data Kind : Type 0 where
  as_text as_int as_float store_true : Kind

-- `add_argument` for an option
pub record Argument (F : Type 0) : Type 0 where
  pub name : Bytes
  pub dest : Bytes
  pub kind : Kind
  pub default : Value F

-- The calls of `add_argument`, those without dashes apart
pub record Parser (F : Type 0) : Type 0 where
  pub positionals : List Bytes
  pub options : List (Argument F)

abbrev pub Namespace : Type 0 → Type 0
Namespace F = Dict Bytes (Value F)

-- `DEFAULT_FRONTEND`, `DEFAULT_BACKEND` and `DEFAULT_HEARTBEAT`
abbrev pub default_frontend : Bytes
default_frontend = codes "ipc:///tmp/powerhose-front.ipc"

abbrev pub default_backend : Bytes
default_backend = codes "ipc:///tmp/powerhose-back.ipc"

abbrev pub default_heartbeat : Bytes
default_heartbeat = codes "ipc:///tmp/powerhose-beat.ipc"

module _ {F : Type 0} where
  -- The options that more than one program has
  abbrev pub frontend_option : Argument F
  frontend_option = record {
    name = codes "--frontend";
    dest = codes "frontend";
    kind = as_text;
    default = text default_frontend;
  }

  abbrev pub backend_option : Argument F
  backend_option = record {
    name = codes "--backend";
    dest = codes "backend";
    kind = as_text;
    default = text default_backend;
  }

  abbrev pub heartbeat_option : Argument F
  heartbeat_option = record {
    name = codes "--heartbeat";
    dest = codes "heartbeat";
    kind = as_text;
    default = text default_heartbeat;
  }

  abbrev pub logfile_option : Argument F
  logfile_option = record {
    name = codes "--logfile";
    dest = codes "logfile";
    kind = as_text;
    default = text (codes "stdout");
  }

  -- `action='store_true', default=False`
  abbrev pub switch : Bytes → Bytes → Argument F
  switch name dest = record { name = name; dest = dest; kind = store_true; default = flag false }

  -- The parser of the broker's `main`
  unfoldable pub broker_parser : Parser F
  broker_parser = record {
    positionals = [];
    options =
        frontend_option
        ∷ backend_option
        ∷ heartbeat_option
        ∷ switch (codes "--debug") (codes "debug")
        ∷ switch (codes "--check") (codes "check")
        ∷ switch (codes "--purge-ghosts") (codes "purge_ghosts")
        ∷ logfile_option
        ∷ [];
  }

  -- The parser of the worker's `main`, for the float that a literal is
  unfoldable pub worker_parser : (Bytes → F) → Parser F
  worker_parser literal = record {
    positionals = codes "target" ∷ [];
    options =
        backend_option
        ∷ switch (codes "--debug") (codes "debug")
        ∷ logfile_option
        ∷ heartbeat_option
        ∷ record {
          name = codes "--params";
          dest = codes "params";
          kind = as_text;
          default = absent;
        }
        ∷ record {
          name = codes "--timeout";
          dest = codes "timeout";
          kind = as_float;
          default = float (literal (codes "7.5"));
        }
        ∷ record {
          name = codes "--max-age";
          dest = codes "max_age";
          kind = as_float;
          default = int (negsuc 0);
        }
        ∷ record {
          name = codes "--max-age-delta";
          dest = codes "max_age_delta";
          kind = as_int;
          default = int (pos 0);
        }
        ∷ [];
  }

  -- The parser of the cluster's `main`
  unfoldable pub cluster_parser : Parser F
  cluster_parser = record {
    positionals = codes "target" ∷ [];
    options =
        frontend_option
        ∷ backend_option
        ∷ heartbeat_option
        ∷ switch (codes "--debug") (codes "debug")
        ∷ record {
          name = codes "--numprocesses";
          dest = codes "numprocesses";
          kind = as_text;
          default = int (pos 5);
        }
        ∷ logfile_option
        ∷ [];
  }
