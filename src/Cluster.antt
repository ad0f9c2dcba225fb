-- ===== src/Cluster.antt =====
-- `get_cluster` of powerhose/__init__.py: the command lines that circus is given. The numbers among
-- the arguments are the texts that `str` gives for them.
pub mod Arguments
pub mod Main
use powerhoc.Common.{Bool, true, false, List, [], ◌∷◌, ◌++◌, Bytes, codes}
use powerhoc.Dict.{Dict}
use powerhoc.Params.{encode_params}
use powerhoc.Text.{join}

pub record Settings : Type 0 where
  pub python : Bytes
  pub target : Bytes
  pub frontend : Bytes
  pub backend : Bytes
  pub heartbeat : Bytes
  pub logfile : Bytes
  pub debug : Bool
  pub worker_params : Dict Bytes Bytes
  pub timeout : Bytes
  pub max_age : Bytes
  pub max_age_delta : Bytes

-- `' --debug'` or `''`
abbrev pub debug_part : Bool → Bytes
debug_part true = codes " --debug"
debug_part false = []

-- what is added `if worker_params`
unfoldable pub params_part : Dict Bytes Bytes → List Bytes
unfolding encode_params
params_part [] = []
params_part (item ∷ items) = codes "--params" ∷ encode_params (item ∷ items) ∷ []

-- The arguments before and behind `debug`, in the two lists.
unfoldable pub broker_before : Settings → List Bytes
broker_before s = codes "-m" ∷ codes "powerhose.broker" ∷ codes "--logfile" ∷ s.logfile ∷ []

unfoldable pub broker_behind : Settings → List Bytes
broker_behind s =
    s.frontend ∷ codes "--backend" ∷ s.backend ∷ codes "--heartbeat" ∷ s.heartbeat ∷ []

unfoldable pub worker_before : Settings → List Bytes
worker_before s =
    codes "-m" ∷ codes "powerhose.worker" ∷ s.target ∷ codes "--logfile" ∷ s.logfile ∷ []

unfoldable pub worker_behind : Settings → List Bytes
unfolding params_part
worker_behind s =
    (s.backend
      ∷ codes "--heartbeat"
      ∷ s.heartbeat
      ∷ codes "--timeout"
      ∷ s.timeout
      ∷ codes "--max-age"
      ∷ s.max_age
      ∷ codes "--max-age-delta"
      ∷ s.max_age_delta
      ∷ [])
    ++ params_part s.worker_params

-- `broker_cmd` and `worker_cmd`
unfoldable pub broker_cmd : Settings → List Bytes
unfolding broker_before broker_behind
broker_cmd s =
    (s.python ∷ broker_before s) ++ debug_part s.debug ∷ codes "--frontend" ∷ broker_behind s

unfoldable pub worker_cmd : Settings → List Bytes
unfolding worker_before worker_behind
worker_cmd s =
    (s.python ∷ worker_before s) ++ debug_part s.debug ∷ codes "--backend" ∷ worker_behind s

-- `' '.join(cmd)`, the `cmd` of a watcher
unfoldable pub command : List Bytes → Bytes
unfolding join
command cmd = join (codes " ") cmd
