-- ===== src/CommandLine/Namespaces.antt =====
-- What argparse reads from the command lines that `get_cluster` makes.
use powerhoc.Cluster.{Settings, params_part, broker_behind, worker_behind}
use powerhoc.Cluster.Arguments.{debug_words}
use powerhoc.CommandLine.{text, flag, int, float, absent, Namespace, broker_parser, worker_parser}
use powerhoc.CommandLine.Reading.{
  Reading, is_value, find, convert, take_value, take_positional, take_option, advance, read,
  finished, no_values, plain_reading,
}
use powerhoc.Common.{
  Bool, true, false, List, [], ◌∷◌, ◌++◌, Option, none, some, Bytes, codes, ◌≡◌, ◌∙◌, arith,
}
use powerhoc.Dict.{Dict, bytes_eq, set}
use powerhoc.Params.{encode_params}
use powerhoc.Text.Decimal.{ℤ, to_int}

-- `args.params` of a worker that is given these parameters
abbrev pub given : Dict Bytes Bytes → Option Bytes
given [] = none
given (item ∷ items) = some (encode_params (item ∷ items))

-- Every setting can stand behind its option, and the numbers are numbers.
pub record AreValues {F : Type 0} (to_float : Bytes → Option F) (s : Settings) (timeout max_age : F)
    (max_age_delta : ℤ) : Type 0 where
  pub target : is_value s.target ≡ true
  pub frontend : is_value s.frontend ≡ true
  pub backend : is_value s.backend ≡ true
  pub heartbeat : is_value s.heartbeat ≡ true
  pub logfile : is_value s.logfile ≡ true
  pub params : is_value (encode_params s.worker_params) ≡ true
  pub timeout_text : is_value s.timeout ≡ true
  pub max_age_text : is_value s.max_age ≡ true
  pub delta_text : is_value s.max_age_delta ≡ true
  pub timeout_float : to_float s.timeout ≡ some timeout
  pub max_age_float : to_float s.max_age ≡ some max_age
  pub delta_int : to_int s.max_age_delta ≡ some max_age_delta

module _ {F : Type 0} where
  unfoldable pub broker_namespace : Bool → Settings → Namespace F
  broker_namespace debug s =
      (codes "frontend", text s.frontend)
      ∷ (codes "backend", text s.backend)
      ∷ (codes "heartbeat", text s.heartbeat)
      ∷ (codes "debug", flag debug)
      ∷ (codes "check", flag false)
      ∷ (codes "purge_ghosts", flag false)
      ∷ (codes "logfile", text s.logfile)
      ∷ []

  unfoldable pub worker_namespace : Bool → Settings → F → F → ℤ → Namespace F
  worker_namespace debug s timeout max_age max_age_delta =
      (codes "target", text s.target)
      ∷ (codes "backend", text s.backend)
      ∷ (codes "debug", flag debug)
      ∷ (codes "logfile", text s.logfile)
      ∷ (codes "heartbeat", text s.heartbeat)
      ∷ (codes "params", elim (given s.worker_params) [ none ↦ absent | some w ↦ text w ])
      ∷ (codes "timeout", float timeout)
      ∷ (codes "max_age", float max_age)
      ∷ (codes "max_age_delta", int max_age_delta)
      ∷ []

module _ {F : Type 0} (to_float : Bytes → Option F) (literal : Bytes → F) where
  pub broker_reading :
      (debug : Bool) (s : Settings) (t a : F) (d : ℤ)
      → AreValues to_float s t a d
      → plain_reading to_float broker_parser (
          codes "--logfile"
          ∷ s.logfile
          ∷ (debug_words debug ++ codes "--frontend" ∷ broker_behind s))
        ≡ some (broker_namespace debug s)
  unfolding plain_reading broker_parser no_values read advance find take_option take_value convert
      finished broker_behind broker_namespace set
  broker_reading false s t a d v = ground (arith, v.logfile, v.frontend, v.backend, v.heartbeat)
  broker_reading true s t a d v = ground (arith, v.logfile, v.frontend, v.backend, v.heartbeat)

  -- The parameters of a worker come last.
  without_params : Bool → Settings → F → F → ℤ → Reading F
  without_params debug s timeout max_age max_age_delta = record {
    pending = none;
    left = [];
    args = worker_namespace debug (record s { worker_params = [] }) timeout max_age max_age_delta;
  }

  worker_before_params :
      (debug : Bool) (s : Settings) (t a : F) (d : ℤ) (ws : List Bytes)
      → AreValues to_float s t a d
      → plain_reading to_float (worker_parser literal) (
          s.target
          ∷ codes "--logfile"
          ∷ s.logfile
          ∷ (debug_words debug
              ++ codes "--backend"
                ∷ s.backend
                ∷ codes "--heartbeat"
                ∷ s.heartbeat
                ∷ codes "--timeout"
                ∷ s.timeout
                ∷ codes "--max-age"
                ∷ s.max_age
                ∷ codes "--max-age-delta"
                ∷ s.max_age_delta
                ∷ ws))
        ≡ finished to_float
            (read to_float (worker_parser literal).options (some (without_params debug s t a d)) ws)
  unfolding plain_reading worker_parser no_values read advance find take_option take_value
      take_positional convert worker_namespace without_params set
  worker_before_params false s t a d ws v = ground (
    arith, v.target, v.logfile, v.backend, v.heartbeat, v.timeout_text, v.max_age_text,
    v.delta_text, v.timeout_float, v.max_age_float, v.delta_int,
  )
  worker_before_params true s t a d ws v = ground (
    arith, v.target, v.logfile, v.backend, v.heartbeat, v.timeout_text, v.max_age_text,
    v.delta_text, v.timeout_float, v.max_age_float, v.delta_int,
  )

  pub worker_reading :
      (debug : Bool) (s : Settings) (t a : F) (d : ℤ) (ps : Dict Bytes Bytes)
      → s.worker_params ≡ ps
      → AreValues to_float s t a d
      → plain_reading to_float (worker_parser literal) (
          s.target
          ∷ codes "--logfile"
          ∷ s.logfile
          ∷ (debug_words debug ++ codes "--backend" ∷ worker_behind s))
        ≡ some (worker_namespace debug s t a d)
  unfolding worker_behind params_part finished read worker_parser advance find take_option
      take_value convert worker_namespace without_params set
  worker_reading debug s t a d [] e v = rw e (worker_before_params debug s t a d [] v)
  worker_reading debug s t a d (item ∷ items) e v = rw e (
      worker_before_params debug s t a d (codes "--params" ∷ encode_params (item ∷ items) ∷ []) v
      ∙ ground (arith, (rw e at v.params)))
